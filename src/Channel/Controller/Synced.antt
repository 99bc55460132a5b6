-- ===== src/Channel/Controller/Synced.antt =====
-- The invariant of the controller: its timers fit its state, whatever inputs it has handled.
use fmtp.Prelude.{
  nat_eq, bytes_eq, ◌≡◌, refl, sym, ap, ◌∙◌, ◌≢◌, inl, inr, Bool, true, false, ◌||◌, Bool-cases,
  String, if◌then◌else◌, ◌==◌, string_eq, subst, arith,
}
use fmtp.Protocol.State.{
  FmtpState, idle, con_pending, sys_id_pending, id_pending, ready, ass_pending, data_ready,
  disabled, empt, state_eq,
}
use fmtp.Protocol.Message
use fmtp.Protocol.Message.{
  FmtpMessage, identification, system, operational, startup_message, shutdown_message,
  heartbeat_message, accept_message, reject_message,
}
use fmtp.Channel.Log.{
  severity_info, severity_debug, severity_warning, identification_mismatch, direction_incoming,
  log_channel_stdt,
}
use fmtp.Protocol.Event.{
  r_data, r_reject, r_accept, r_id_valid, r_id_invalid, r_startup, r_shutdown, r_heartbeat,
  FmtpEvent, ti_timeout, ts_timeout, tr_timeout, l_setup,
}
use fmtp.Protocol.Machine.{FmtpStateMachine, init_state_machine, get_next_state}
use fmtp.Protocol.Machine.Table.{next_state, get_next_state-next_state}
use fmtp.Channel.Settings.{ChannelSettings}
use fmtp.Channel.Timer.{runs}
use fmtp.Channel.Core.{Recoding, StateController, log_entry}
use fmtp.Channel.Controller.{
  leave, enter, log_change, force_new_event, log_event, process_event_message, process_data_message,
  process_identification, process_system, process_fmtp_message,
}
use fmtp.Channel.Controller.Timers.Shift.{shift-Armed}
use fmtp.Channel.Controller.Timers.Frame.{shift-wiring, shift-current_state}
use fmtp.Channel.Controller.Timers.{Armed, TrArmed, has_state, wiring, role_text, shift}

abbrev pub IsWired :
    Bool → ChannelSettings × (FmtpStateMachine × (FmtpEvent × (FmtpEvent × FmtpEvent))) → Type 0
IsWired client (set, (machine, (ti, (ts, tr)))) =
    (set.net_role ≡ role_text client)
    × ((machine ≡ init_state_machine (role_text client))
        × ((ti ≡ ti_timeout) × ((ts ≡ ts_timeout) × (tr ≡ tr_timeout))))

pub record IsSynced (client : Bool) (c : StateController) : Type 0 where
  pub wired : IsWired client (wiring c)
  pub has : has_state client c.current_state ≡ true
  pub armed : Armed c.current_state c

-- The unlisted clauses need no more: each computes.
ignored_or_has :
    (client : Bool) (s : FmtpState) (e : FmtpEvent)
    → (next_state client s e == empt) || has_state client (next_state client s e) ≡ true
ignored_or_has true idle l_setup = refl
ignored_or_has true con_pending l_setup = refl
ignored_or_has true sys_id_pending l_setup = refl
ignored_or_has true id_pending l_setup = refl
ignored_or_has true ready l_setup = refl
ignored_or_has true ass_pending l_setup = refl
ignored_or_has true data_ready l_setup = refl
ignored_or_has true disabled l_setup = refl
ignored_or_has true empt l_setup = refl
ignored_or_has false idle l_setup = refl
ignored_or_has false con_pending l_setup = refl
ignored_or_has false sys_id_pending l_setup = refl
ignored_or_has false id_pending l_setup = refl
ignored_or_has false ready l_setup = refl
ignored_or_has false ass_pending l_setup = refl
ignored_or_has false data_ready l_setup = refl
ignored_or_has false disabled l_setup = refl
ignored_or_has false empt l_setup = refl
ignored_or_has _ _ _ = refl

moves_beq : (s : FmtpState) → s ≢ empt → (s == empt) ≡ false
moves_beq s moves = elim (Bool-cases (s == empt)) [
  | inl same ↦ absurd (moves ((state_eq.beq_iff s empt).0 same))
  | inr other ↦ other
]

beq_moves : (s : FmtpState) → (s == empt) ≡ false → s ≢ empt
beq_moves s moves same = ground (arith, moves, state_eq.beq_iff s empt, same)

Armed-same :
    (s : FmtpState) (c d : StateController)
    → (d.ti_timer ≡ c.ti_timer) × ((d.ts_timer ≡ c.ts_timer) × (d.tr_timer ≡ c.tr_timer))
    → Armed s c
    → Armed s d
Armed-same s c d (ti, (ts, tr)) h = record {
  ti = ap runs ti ∙ h.ti;
  ts = ap runs ts ∙ h.ts;
  tr = subst (λ t. TrArmed s (runs t)) (sym tr) h.tr;
}

next_state-has_state :
    (client : Bool) (s : FmtpState) (e : FmtpEvent)
    → next_state client s e ≢ empt
    → has_state client (next_state client s e) ≡ true
next_state-has_state client s e moves =
    subst (λ b. b || has_state client (next_state client s e) ≡ true)
      (moves_beq (next_state client s e) moves) (ignored_or_has client s e)

role_text-client : (client : Bool) → (role_text client == "client") ≡ client
role_text-client true = refl
role_text-client false = refl

-- What holds of both branches holds of an `if`.
if-holds :
    {A : Type 0} (P : A → Type 0) (test : Bool) {a b : A} → P a → P b → P (if test then a else b)
if-holds P true a b = a
if-holds P false a b = b

module _ (u : Recoding) where
  next_of :
      (client : Bool) (c : StateController) (e : FmtpEvent)
      → IsWired client (wiring c)
      → get_next_state c.state_machine c.current_state e ≡ next_state client c.current_state e
  next_of client c e (role, (machine, events)) =
      ap (λ m. get_next_state m c.current_state e) machine
      ∙ get_next_state-next_state (role_text client) c.current_state e
      ∙ ap (λ b. next_state b c.current_state e) (role_text-client client)

  abbrev moved : StateController → FmtpEvent → FmtpState → StateController
  moved c e next = enter u (record (leave u (log_change u c next e) e) { current_state = next }) e

  pub force_new_event-shift :
      (client : Bool) (c : StateController) (e : FmtpEvent)
      → IsWired client (wiring c)
      → next_state client c.current_state e ≢ empt
      → force_new_event u c e
        ≡ shift u client (log_change u c (next_state client c.current_state e) e) c.current_state e
  unfolding force_new_event log_change
  force_new_event-shift client c e wired moves =
      let next = next_state client c.current_state e in
      let logged = log_change u c next e in
      ap (λ n. if n == empt then c else moved c e n) (next_of client c e wired)
      ∙ ap (λ b. if b then c else moved c e next) (moves_beq next moves)
      ∙ ap
          (λ t.
            enter u
              (record (leave u (record logged { cur_set = record c.cur_set { net_role = t } }) e) {
                current_state = next;
              })
              e)
          wired.0

  pub force_new_event_ignored :
      (client : Bool) (c : StateController) (e : FmtpEvent)
      → IsWired client (wiring c)
      → next_state client c.current_state e ≡ empt
      → force_new_event u c e ≡ c
  unfolding force_new_event log_change
  force_new_event_ignored client c e wired stays =
      ap (λ n. if n == empt then c else moved c e n) (next_of client c e wired ∙ stays)

  pub force_new_event-after :
      (client : Bool) (c : StateController) (e : FmtpEvent)
      → IsWired client (wiring c)
      → next_state client c.current_state e ≢ empt
      → ((d : StateController)
          → ((d.ti_timer ≡ c.ti_timer) × ((d.ts_timer ≡ c.ts_timer) × (d.tr_timer ≡ c.tr_timer)))
          → Armed (next_state client c.current_state e) (shift u client d c.current_state e))
      → IsSynced client (force_new_event u c e)
  unfolding log_change
  force_new_event-after client c e wired moves armed =
      let next = next_state client c.current_state e in
      let logged = log_change u c next e in
      let shifted = shift u client logged c.current_state e in
      let same : shifted.current_state ≡ next =
        shift-current_state u client c.current_state e logged in
      subst (IsSynced client) (sym (force_new_event-shift client c e wired moves)) (record {
        wired =
            subst (IsWired client) (sym (shift-wiring u client c.current_state e logged))
              (refl, wired.1);
        has =
            subst (λ s. has_state client s ≡ true) (sym same)
              (next_state-has_state client c.current_state e moves);
        armed = subst (λ s. Armed s shifted) (sym same) (armed logged (refl, (refl, refl)));
      })

  pub force_new_event-IsSynced :
      (client : Bool) (c : StateController) (e : FmtpEvent)
      → IsSynced client c
      → IsSynced client (force_new_event u c e)
  force_new_event-IsSynced client c e h =
      elim (Bool-cases (next_state client c.current_state e == empt)) [
        | inl stays ↦
            subst (IsSynced client)
              (sym (
                force_new_event_ignored client c e h.wired
                  ((state_eq.beq_iff (next_state client c.current_state e) empt).0 stays)))
              h
        | inr moves ↦
            force_new_event-after client c e h.wired
              (beq_moves (next_state client c.current_state e) moves)
              (λ d same.
                shift-Armed u client c.current_state e d
                  (Armed-same c.current_state c d same h.armed)
                  (beq_moves (next_state client c.current_state e) moves))
      ]

  log_event-IsSynced :
      (client : Bool) (c : StateController) (e : FmtpEvent) (msg : FmtpMessage) (severity : String)
      → IsSynced client c
      → IsSynced client (log_event u c e msg severity)
  unfolding log_event
  log_event-IsSynced client c e msg severity h = record {
    wired = h.wired;
    has = h.has;
    armed = record { ti = h.armed.ti; ts = h.armed.ts; tr = h.armed.tr };
  }

  process_event_message-IsSynced :
      (client : Bool) (c : StateController) (e : FmtpEvent) (msg : FmtpMessage) (severity : String)
      → IsSynced client c
      → IsSynced client (process_event_message u c e msg severity)
  unfolding process_event_message
  process_event_message-IsSynced client c e msg severity h =
      force_new_event-IsSynced client (log_event u c e msg severity) e
        (log_event-IsSynced client c e msg severity h)

  process_data_message-IsSynced :
      (client : Bool) (c : StateController) (msg : FmtpMessage)
      → IsSynced client c
      → IsSynced client (process_data_message u c msg)
  unfolding process_data_message
  process_data_message-IsSynced client c msg h = record {
    wired = h.wired;
    has = h.has;
    armed = record { ti = h.armed.ti; ts = h.armed.ts; tr = h.armed.tr };
  }

  process_identification-IsSynced :
      (client : Bool) (c : StateController) (msg : FmtpMessage)
      → IsSynced client c
      → IsSynced client (process_identification u c msg)
  unfolding process_identification
  process_identification-IsSynced client c msg h =
      let mismatch = log_entry c (
        log_channel_stdt severity_warning (Message.to_string msg.type) direction_incoming
          (identification_mismatch c.remote_identification_msg.text msg.text)) in
      if-holds (IsSynced client) (msg.text == reject_message.text)
        (process_event_message-IsSynced client c r_reject msg severity_info h)
        (if-holds (IsSynced client) (msg.text == accept_message.text)
          (process_event_message-IsSynced client c r_accept msg severity_info h)
          (if-holds (IsSynced client) (msg.text == c.remote_identification_msg.text)
            (process_event_message-IsSynced client c r_id_valid msg severity_info h)
            (process_event_message-IsSynced client mismatch r_id_invalid msg severity_info (record {
              wired = h.wired;
              has = h.has;
              armed = record { ti = h.armed.ti; ts = h.armed.ts; tr = h.armed.tr };
            }))))

  process_system-IsSynced :
      (client : Bool) (c : StateController) (msg : FmtpMessage)
      → IsSynced client c
      → IsSynced client (process_system u c msg)
  unfolding process_system
  process_system-IsSynced client c msg h =
      if-holds (IsSynced client) (msg.text == startup_message.text)
        (process_event_message-IsSynced client c r_startup msg severity_info h)
        (if-holds (IsSynced client) (msg.text == shutdown_message.text)
          (process_event_message-IsSynced client c r_shutdown msg severity_info h)
          (if-holds (IsSynced client) (msg.text == heartbeat_message.text)
            (process_event_message-IsSynced client c r_heartbeat msg
              (if c.cur_set.log_debug then severity_info else severity_debug) h)
            h))

  pub process_fmtp_message-IsSynced :
      (client : Bool) (c : StateController) (msg : FmtpMessage)
      → IsSynced client c
      → IsSynced client (process_fmtp_message u c msg)
  unfolding process_fmtp_message
  process_fmtp_message-IsSynced client c msg h =
      if-holds (IsSynced client) (msg.type == identification)
        (process_identification-IsSynced client c msg h)
        (if-holds (IsSynced client) (msg.type == system) (process_system-IsSynced client c msg h) (
          if-holds (IsSynced client) (msg.type == operational)
            (process_data_message-IsSynced client
              (process_event_message u c r_data msg severity_debug) msg
              (process_event_message-IsSynced client c r_data msg severity_debug h))
            (process_data_message-IsSynced client c msg h)))
