-- ===== src/Channel/Controller/Reachable.antt =====
-- The controllers that are reached from `new` by any inputs, and which timers run in them.
use fmtp.Prelude.{
  ℕ, zero, suc, ◌+◌, ◌≡◌, refl, sym, ap, ◌∙◌, inl, inr, Bool, true, false, if◌then◌else◌, Option,
  none, some, List, [], ◌∷◌, ◌++◌, length, subst, foldl, ◌==◌, string_eq,
}
use fmtp.Protocol.State.{FmtpState, idle}
use fmtp.Protocol.Event.{ti_timeout, ts_timeout, tr_timeout, l_setup, r_disconnect, l_data}
use fmtp.Protocol.Machine.{init_state_machine}
use fmtp.Channel.Settings.{ChannelSettings, check_settings, tcp_client_text}
use fmtp.Channel.Settings.Check.{check_settings-IsComplete}
use fmtp.Channel.Log.{severity_info}
use fmtp.Channel.Timer.{
  Timer, Context, active, canceled, deadline_exceeded, runs, runs_ctx, elapse, at_deadline,
  new_fmtp_timer,
}
use fmtp.Channel.Core.{Recoding, StateController, send_packet, log_entry}
use fmtp.Channel.Controller.{
  Frame, no_header, panicked, skipped, no_body, framed, round, next_frame, receive_loop, receive,
  process_fmtp_message, force_new_event, force_elapsed, report, Input, tcp_connected,
  msg_from_chief, received_data, transport_log, transport_event, ti_deadline, ts_deadline,
  tr_deadline, state_tick, handle, start,
}
use fmtp.Channel.Controller.Timers.{has_state, TrArmed, waits_id, exchanges, role_text, wiring}
use fmtp.Channel.Controller.Timeouts.{
  shift_ti_timeout, shift_ts_timeout, shift_tr_timeout, tr_states, ass_pending_ignores,
}
use fmtp.Channel.Controller.Synced.{
  IsSynced, IsWired, process_fmtp_message-IsSynced, force_new_event-IsSynced, force_new_event-after,
  force_new_event_ignored,
}

start-IsSynced :
    (client : Bool) (settings : ChannelSettings)
    → settings.net_role ≡ role_text client
    → IsSynced client (start settings)
unfolding start new_fmtp_timer
start-IsSynced client settings role = record {
  wired = (role, (ap init_state_machine role, (refl, (refl, refl))));
  has = idle_has client;
  armed = record { ti = refl; ts = refl; tr = refl };
}
  where
    idle_has : (client : Bool) → has_state client idle ≡ true
    idle_has true = refl
    idle_has false = refl

-- The invariant reads the settings, the machine, the state and the timers only.
abbrev view : StateController → FmtpState × (Timer × (Timer × Timer))
view c = (c.current_state, (c.ti_timer, (c.ts_timer, c.tr_timer)))

unchanged :
    {client : Bool} {c : StateController} (d : StateController)
    → IsSynced client c
    → wiring c ≡ wiring d
    → view c ≡ view d
    → IsSynced client d
unchanged {client} {c} d h w v = record {
  wired = subst (IsWired client) w h.wired;
  has = subst (λ x. has_state client x.0 ≡ true) v h.has;
  armed = record {
    ti = subst (λ x. runs x.1.0 ≡ waits_id x.0) v h.armed.ti;
    ts = subst (λ x. runs x.1.1.0 ≡ exchanges x.0) v h.armed.ts;
    tr = subst (λ x. TrArmed x.0 (runs x.1.1.1)) v h.armed.tr;
  };
}

module _ (u : Recoding) where
  round-IsSynced :
      (client : Bool) (more : StateController → StateController) (c : StateController) (f : Frame)
      → ((d : StateController) → IsSynced client d → IsSynced client (more d))
      → IsSynced client c
      → IsSynced client (round u more c f)
  round-IsSynced client more c no_header later h = h
  round-IsSynced client more c panicked later h = h
  round-IsSynced client more c (no_body rest) later h =
      unchanged (record c { received_buffer = rest }) h refl refl
  round-IsSynced client more c (skipped rest) later h =
      later (record c { received_buffer = rest })
        (unchanged (record c { received_buffer = rest }) h refl refl)
  round-IsSynced client more c (framed msg rest) later h =
      later (process_fmtp_message u (record c { received_buffer = rest }) msg) (
        process_fmtp_message-IsSynced u client (record c { received_buffer = rest }) msg
          (unchanged (record c { received_buffer = rest }) h refl refl))

  receive_loop-IsSynced :
      (client : Bool) (fuel : ℕ) (c : StateController)
      → IsSynced client c
      → IsSynced client (receive_loop u fuel c)
  unfolding receive_loop
  receive_loop-IsSynced client zero c h = h
  receive_loop-IsSynced client (suc fuel) c h =
      round-IsSynced client (receive_loop u fuel) c (next_frame c.received_buffer)
        (receive_loop-IsSynced client fuel) h

  -- A timer that runs fires once, in a state that knows its event.
  fired_ti :
      (client : Bool) (c : StateController)
      → runs c.ti_timer ≡ true
      → IsSynced client c
      → IsSynced client (
          force_new_event u
            (record c { ti_timer = record c.ti_timer { timer_ctx = some deadline_exceeded } })
            c.ti_timer.fmtp_event)
  fired_ti client c on h =
      let d = record c { ti_timer = record c.ti_timer { timer_ctx = some deadline_exceeded } } in
      let waits : waits_id c.current_state ≡ true = sym h.armed.ti ∙ on in
      subst (λ e. IsSynced client (force_new_event u d e)) (sym h.wired.1.1.0)
        (force_new_event-after u client d ti_timeout h.wired
          (shift_ti_timeout u client c.current_state c h.has waits h.armed.ts h.armed.tr).0
          (λ x same.
            (shift_ti_timeout u client c.current_state x h.has waits (ap runs same.1.0 ∙ h.armed.ts)
              (subst (λ t. TrArmed c.current_state (runs t)) (sym same.1.1) h.armed.tr)).1))

  fired_ts :
      (client : Bool) (c : StateController)
      → runs c.ts_timer ≡ true
      → IsSynced client c
      → IsSynced client (
          force_new_event u
            (record c { ts_timer = record c.ts_timer { timer_ctx = some deadline_exceeded } })
            c.ts_timer.fmtp_event)
  fired_ts client c on h =
      let d = record c { ts_timer = record c.ts_timer { timer_ctx = some deadline_exceeded } } in
      let busy : exchanges c.current_state ≡ true = sym h.armed.ts ∙ on in
      subst (λ e. IsSynced client (force_new_event u d e)) (sym h.wired.1.1.1.0)
        (force_new_event-after u client d ts_timeout h.wired
          (shift_ts_timeout u client c.current_state c busy h.armed.ti h.armed.tr).0
          (λ x same.
            (shift_ts_timeout u client c.current_state x busy (ap runs same.0 ∙ h.armed.ti)
              (subst (λ t. TrArmed c.current_state (runs t)) (sym same.1.1) h.armed.tr)).1))

  fired_tr :
      (client : Bool) (c : StateController)
      → runs c.tr_timer ≡ true
      → IsSynced client c
      → IsSynced client (
          force_new_event u
            (record c { tr_timer = record c.tr_timer { timer_ctx = some deadline_exceeded } })
            c.tr_timer.fmtp_event)
  fired_tr client c on h =
      let d = record c { tr_timer = record c.tr_timer { timer_ctx = some deadline_exceeded } } in
      subst (λ e. IsSynced client (force_new_event u d e)) (sym h.wired.1.1.1.1)
        (elim (tr_states c.current_state (subst (TrArmed c.current_state) on h.armed.tr)) [
          | inl pending ↦
              subst (IsSynced client)
                (sym (
                  force_new_event_ignored u client d tr_timeout h.wired
                    (ass_pending_ignores client c.current_state pending)))
                (record {
                  wired = h.wired;
                  has = h.has;
                  armed = record {
                    ti = h.armed.ti;
                    ts = h.armed.ts;
                    tr = subst (λ s. TrArmed s false) (sym pending) tt;
                  };
                })
          | inr busy ↦
              force_new_event-after u client d tr_timeout h.wired
                (shift_tr_timeout u client c.current_state c busy h.armed.ti).0
                (λ x same.
                  (shift_tr_timeout u client c.current_state x busy
                    (ap runs same.0 ∙ h.armed.ti)).1)
        ])

  ti_deadline-IsSynced :
      (client : Bool) (c : StateController) (ctx : Option Context)
      → c.ti_timer.timer_ctx ≡ ctx
      → IsSynced client c
      → IsSynced client (
          let (t, event) = at_deadline c.ti_timer ctx in
          force_elapsed u (record c { ti_timer = t }) event)
  unfolding force_elapsed
  ti_deadline-IsSynced client c none e h = h
  ti_deadline-IsSynced client c (some active) e h = fired_ti client c (ap runs_ctx e) h
  ti_deadline-IsSynced client c (some canceled) e h = h
  ti_deadline-IsSynced client c (some deadline_exceeded) e h = h

  ts_deadline-IsSynced :
      (client : Bool) (c : StateController) (ctx : Option Context)
      → c.ts_timer.timer_ctx ≡ ctx
      → IsSynced client c
      → IsSynced client (
          let (t, event) = at_deadline c.ts_timer ctx in
          force_elapsed u (record c { ts_timer = t }) event)
  unfolding force_elapsed
  ts_deadline-IsSynced client c none e h = h
  ts_deadline-IsSynced client c (some active) e h = fired_ts client c (ap runs_ctx e) h
  ts_deadline-IsSynced client c (some canceled) e h = h
  ts_deadline-IsSynced client c (some deadline_exceeded) e h = h

  tr_deadline-IsSynced :
      (client : Bool) (c : StateController) (ctx : Option Context)
      → c.tr_timer.timer_ctx ≡ ctx
      → IsSynced client c
      → IsSynced client (
          let (t, event) = at_deadline c.tr_timer ctx in
          force_elapsed u (record c { tr_timer = t }) event)
  unfolding force_elapsed
  tr_deadline-IsSynced client c none e h = h
  tr_deadline-IsSynced client c (some active) e h = fired_tr client c (ap runs_ctx e) h
  tr_deadline-IsSynced client c (some canceled) e h = h
  tr_deadline-IsSynced client c (some deadline_exceeded) e h = h

  handle-IsSynced :
      (client : Bool) (c : StateController) (input : Input)
      → IsSynced client c
      → IsSynced client (handle u c input)
  unfolding handle send_packet elapse receive report
  handle-IsSynced client c (tcp_connected up) h =
      force_new_event-IsSynced u client c (if up then l_setup else r_disconnect) h
  handle-IsSynced client c (msg_from_chief msg) h =
      unchanged (send_packet u c msg l_data severity_info) h refl refl
  handle-IsSynced client c (received_data received) h =
      receive_loop-IsSynced client (length (c.received_buffer ++ received) + 1)
        (record c { received_buffer = c.received_buffer ++ received })
        (unchanged (record c { received_buffer = c.received_buffer ++ received }) h refl refl)
  handle-IsSynced client c (transport_log entry) h = unchanged (log_entry c entry) h refl refl
  handle-IsSynced client c (transport_event event) h = force_new_event-IsSynced u client c event h
  handle-IsSynced client c ti_deadline h = ti_deadline-IsSynced client c c.ti_timer.timer_ctx refl h
  handle-IsSynced client c ts_deadline h = ts_deadline-IsSynced client c c.ts_timer.timer_ctx refl h
  handle-IsSynced client c tr_deadline h = tr_deadline-IsSynced client c c.tr_timer.timer_ctx refl h
  handle-IsSynced client c state_tick h = unchanged (report u c) h refl refl

  abbrev pub reach : ChannelSettings → List Input → StateController
  reach settings inputs = foldl (handle u) (start settings) inputs

  foldl-IsSynced :
      (client : Bool) (c : StateController) (inputs : List Input)
      → IsSynced client c
      → IsSynced client (foldl (handle u) c inputs)
  foldl-IsSynced client c [] h = h
  foldl-IsSynced client c (input ∷ inputs) h =
      foldl-IsSynced client (handle u c input) inputs (handle-IsSynced client c input h)

  accepted_role :
      (settings : ChannelSettings)
      → (check_settings settings).1 ≡ none
      → settings.net_role ≡ role_text (settings.net_role == tcp_client_text)
  accepted_role settings ok = elim ((check_settings-IsComplete settings).0 ok).role [
    | inl server ↦ server.0 ∙ ap (λ t. role_text (t == tcp_client_text)) (sym server.0)
    | inr client ↦ client.0 ∙ ap (λ t. role_text (t == tcp_client_text)) (sym client.0)
  ]

  -- With settings that `CheckSettings` accepts, and with timers whose goroutines are prompt, whatever inputs the controller has handled: its role,
  -- its state machine and its timers' events are those it was made with, its state is one of its role,
  -- the identification timer runs exactly while an identification is awaited, the sending timer
  -- exactly in `data_ready`, and the receiving timer always in `data_ready`, perhaps in `ass_pending`,
  -- and nowhere else.
  pub reach-IsSynced :
      (settings : ChannelSettings) (inputs : List Input)
      → (check_settings settings).1 ≡ none
      → IsSynced (settings.net_role == tcp_client_text) (reach settings inputs)
  reach-IsSynced settings inputs ok =
      let client = settings.net_role == tcp_client_text in
      foldl-IsSynced client (start settings) inputs
        (start-IsSynced client settings (accepted_role settings ok))
