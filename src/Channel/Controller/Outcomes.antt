-- ===== src/Channel/Controller/Outcomes.antt =====
-- What an event makes the controller do: the packets it sends, the reconnections it plans, and the
-- timer that it takes no notice of.
use fmtp.Prelude.{
  ◌≡◌, ◌≢◌, refl, sym, ap, ◌∙◌, Bool, true, false, Option, none, some, List, [], ◌∷◌, ◌++◌, map,
  foldl, String, ◌==◌, string_eq, subst, suc, if◌then◌else◌, lookup,
}
use mathlib.Core.List.{append-nil, append_assoc}
use fmtp.Protocol.State.{
  FmtpState, idle, con_pending, sys_id_pending, id_pending, ready, ass_pending, data_ready,
  disabled, empt, state_eq,
}
use fmtp.Protocol.Event.{
  FmtpEvent, l_setup, r_setup, l_disconnect, l_shutdown, l_startup, r_accept, r_id_valid,
  r_id_invalid, r_startup, ts_timeout, tr_timeout, none_event, event_eq,
}
use fmtp.Protocol.Message.{
  FmtpMessage, startup_message, shutdown_message, heartbeat_message, accept_message, reject_message,
}
use fmtp.Protocol.Packet.{make_fmtp_packet}
use fmtp.Protocol.Machine.Table.{next_state}
use fmtp.Channel.Timer.{
  Context, active, canceled, deadline_exceeded, runs, runs_ctx, elapse, at_deadline, restart_timer,
  start_timer, stop_timer,
}
use fmtp.Channel.Core.{Recoding, DataAndEvent, StateController, send_packet, recode}
use fmtp.Channel.Transitions.{
  init_enter_trans_func_map, init_exit_trans_func_map, idle_state_enter,
  system_id_pending_state_enter, connection_pending_state_enter, id_pending_state_enter,
  ready_state_enter, disabled_state_enter, idle_state_exit, system_id_pending_state_exit,
  id_pending_state_exit, ready_state_exit, assosiation_pending_state_exit, data_ready_state_exit,
}
use fmtp.Channel.Controller.{
  tr_deadline, handle, force_elapsed, log_change, leave, enter, force_new_event,
}
use fmtp.Channel.Controller.Timers.{wiring, waits_id, exchanges, shift}
use fmtp.Channel.Controller.Timeouts.{ass_pending_ignores}
use fmtp.Channel.Controller.Synced.{
  IsSynced, IsWired, force_new_event_ignored, force_new_event-shift,
}

-- The messages that a transition sends, each with the event of its successful sending.
abbrev pub sends : Bool → FmtpMessage → FmtpState → FmtpEvent → List (FmtpMessage × FmtpEvent)
sends true own idle l_setup = (own, r_setup) ∷ []
sends false own sys_id_pending r_id_valid = (own, none_event) ∷ []
sends true own id_pending r_id_valid =
    (accept_message, none_event) ∷ (startup_message, l_startup) ∷ []
sends true own id_pending r_id_invalid = (reject_message, none_event) ∷ []
sends false own id_pending r_accept = (startup_message, l_startup) ∷ []
sends _ own ready l_shutdown = (startup_message, l_startup) ∷ []
sends _ own ass_pending r_startup = (startup_message, l_startup) ∷ []
sends _ own ass_pending l_disconnect = (shutdown_message, none_event) ∷ []
sends _ own ass_pending l_shutdown =
    (shutdown_message, none_event) ∷ (startup_message, l_startup) ∷ []
sends _ own data_ready l_disconnect = (shutdown_message, none_event) ∷ []
sends _ own data_ready l_shutdown =
    (shutdown_message, none_event) ∷ (startup_message, l_startup) ∷ []
sends _ own data_ready ts_timeout = (heartbeat_message, none_event) ∷ []
sends _ _ _ _ = []

abbrev pub packed : Recoding → String → FmtpMessage × FmtpEvent → DataAndEvent
packed u encoding (msg, event) = record {
  data_to_send = make_fmtp_packet (recode u.utf8_to_win1251 encoding msg);
  event_after_send = event;
}

abbrev append_one : List DataAndEvent → DataAndEvent → List DataAndEvent
append_one queue sent = queue ++ sent ∷ []

foldl-append_one : (queue more : List DataAndEvent) → foldl append_one queue more ≡ queue ++ more
foldl-append_one queue [] = sym (append-nil queue)
foldl-append_one queue (sent ∷ more) =
    foldl-append_one (append_one queue sent) more ∙ append_assoc queue (sent ∷ []) more

module _ (u : Recoding) where
  shift-sends :
      (client : Bool) (s : FmtpState) (e : FmtpEvent) (c : StateController)
      → next_state client s e ≢ empt
      → (shift u client c s e).send_chan
        ≡ foldl append_one c.send_chan
            (map (packed u c.cur_set.data_encoding) (sends client c.own_identification_msg s e))
  unfolding leave enter lookup init_enter_trans_func_map init_exit_trans_func_map restart_timer
      start_timer stop_timer send_packet idle_state_enter system_id_pending_state_enter
      connection_pending_state_enter id_pending_state_enter ready_state_enter disabled_state_enter
      idle_state_exit system_id_pending_state_exit id_pending_state_exit ready_state_exit
      assosiation_pending_state_exit data_ready_state_exit
  shift-sends true idle l_setup c moves = refl
  shift-sends true con_pending l_setup c moves = refl
  shift-sends true sys_id_pending l_setup c moves = refl
  shift-sends true id_pending l_setup c moves = refl
  shift-sends true ready l_setup c moves = refl
  shift-sends true ass_pending l_setup c moves = refl
  shift-sends true data_ready l_setup c moves = refl
  shift-sends true disabled l_setup c moves = refl
  shift-sends true empt l_setup c moves = refl
  shift-sends false idle l_setup c moves = refl
  shift-sends false con_pending l_setup c moves = refl
  shift-sends false sys_id_pending l_setup c moves = refl
  shift-sends false id_pending l_setup c moves = refl
  shift-sends false ready l_setup c moves = refl
  shift-sends false ass_pending l_setup c moves = refl
  shift-sends false data_ready l_setup c moves = refl
  shift-sends false disabled l_setup c moves = refl
  shift-sends false empt l_setup c moves = refl
  shift-sends false id_pending r_id_valid c moves = absurd (moves refl)
  shift-sends false id_pending r_id_invalid c moves = absurd (moves refl)
  shift-sends true ass_pending tr_timeout c moves = absurd (moves refl)
  shift-sends false ass_pending tr_timeout c moves = absurd (moves refl)
  shift-sends _ _ _ c moves = refl

  shift-reconnects :
      (client : Bool) (s : FmtpState) (e : FmtpEvent) (c : StateController)
      → (shift u client c s e).reconnects_planned
        ≡ (if next_state client s e == idle then suc c.reconnects_planned else c.reconnects_planned)
  unfolding leave enter lookup init_enter_trans_func_map init_exit_trans_func_map restart_timer
      start_timer stop_timer send_packet idle_state_enter system_id_pending_state_enter
      connection_pending_state_enter id_pending_state_enter ready_state_enter disabled_state_enter
      idle_state_exit system_id_pending_state_exit id_pending_state_exit ready_state_exit
      assosiation_pending_state_exit data_ready_state_exit
  shift-reconnects true idle l_setup c = refl
  shift-reconnects true con_pending l_setup c = refl
  shift-reconnects true sys_id_pending l_setup c = refl
  shift-reconnects true id_pending l_setup c = refl
  shift-reconnects true ready l_setup c = refl
  shift-reconnects true ass_pending l_setup c = refl
  shift-reconnects true data_ready l_setup c = refl
  shift-reconnects true disabled l_setup c = refl
  shift-reconnects true empt l_setup c = refl
  shift-reconnects false idle l_setup c = refl
  shift-reconnects false con_pending l_setup c = refl
  shift-reconnects false sys_id_pending l_setup c = refl
  shift-reconnects false id_pending l_setup c = refl
  shift-reconnects false ready l_setup c = refl
  shift-reconnects false ass_pending l_setup c = refl
  shift-reconnects false data_ready l_setup c = refl
  shift-reconnects false disabled l_setup c = refl
  shift-reconnects false empt l_setup c = refl
  shift-reconnects _ _ _ c = refl

  -- Where an event moves the state, the packets of the transition join the transport's queue in
  -- their order, and a reconnection is planned exactly when the next state is idle.
  pub force_new_event-sends :
      (client : Bool) (c : StateController) (e : FmtpEvent)
      → IsSynced client c
      → next_state client c.current_state e ≢ empt
      → ((force_new_event u c e).send_chan
          ≡ c.send_chan
            ++ map
                (packed u c.cur_set.data_encoding)
                (sends client c.own_identification_msg c.current_state e))
        × ((force_new_event u c e).reconnects_planned ≡ (
            if next_state client c.current_state e == idle
            then suc c.reconnects_planned
            else c.reconnects_planned))
  unfolding log_change
  force_new_event-sends client c e h moves =
      let shifted = force_new_event-shift u client c e h.wired moves in
      let logged = log_change u c (next_state client c.current_state e) e in
      (
        ap (λ d. d.send_chan) shifted
            ∙ shift-sends client c.current_state e logged moves
            ∙ foldl-append_one logged.send_chan (
                map (packed u logged.cur_set.data_encoding)
                  (sends client logged.own_identification_msg c.current_state e)),
        ap (λ d. d.reconnects_planned) shifted ∙ shift-reconnects client c.current_state e logged,
      )

-- The controller is as before, and no timer of its runs.
pub record IsStuck (before c : StateController) : Type 0 where
  pub state : c.current_state ≡ before.current_state
  pub sent : c.send_chan ≡ before.send_chan
  pub planned : c.reconnects_planned ≡ before.reconnects_planned
  pub ti : runs c.ti_timer ≡ false
  pub ts : runs c.ts_timer ≡ false
  pub tr : runs c.tr_timer ≡ false

module _ (u : Recoding) where
  IsStuck-off :
      (client : Bool) (c : StateController)
      → IsSynced client c
      → c.current_state ≡ ass_pending
      → runs c.tr_timer ≡ false
      → IsStuck c c
  IsStuck-off client c h pending off = record {
    state = refl;
    sent = refl;
    planned = refl;
    ti = h.armed.ti ∙ ap waits_id pending;
    ts = h.armed.ts ∙ ap exchanges pending;
    tr = off;
  }

  IsStuck-fired :
      (client : Bool) (c d : StateController) (e : FmtpEvent)
      → e ≡ tr_timeout
      → IsWired client (wiring d)
      → d.current_state ≡ ass_pending
      → IsStuck c d
      → IsStuck c (force_new_event u d e)
  IsStuck-fired client c d e same wired pending h =
      subst (λ x. IsStuck c (force_new_event u d x)) (sym same)
        (subst (IsStuck c)
          (sym (
            force_new_event_ignored u client d tr_timeout wired
              (ass_pending_ignores client d.current_state pending)))
          h)

  expired :
      (client : Bool) (c : StateController) (ctx : Option Context)
      → c.tr_timer.timer_ctx ≡ ctx
      → IsSynced client c
      → c.current_state ≡ ass_pending
      → IsStuck c (
          let (t, event) = at_deadline c.tr_timer ctx in
          force_elapsed u (record c { tr_timer = t }) event)
  unfolding force_elapsed
  expired client c none e h pending = IsStuck-off client c h pending (ap runs_ctx e)
  expired client c (some active) e h pending =
      IsStuck-fired client c
        (record c { tr_timer = record c.tr_timer { timer_ctx = some deadline_exceeded } })
        c.tr_timer.fmtp_event h.wired.1.1.1.1 h.wired pending
        (record {
          state = refl;
          sent = refl;
          planned = refl;
          ti = h.armed.ti ∙ ap waits_id pending;
          ts = h.armed.ts ∙ ap exchanges pending;
          tr = refl;
        })
  expired client c (some canceled) e h pending = IsStuck-off client c h pending (ap runs_ctx e)
  expired client c (some deadline_exceeded) e h pending =
      IsStuck-off client c h pending (ap runs_ctx e)

  -- While an association is pending, the deadline of the timer that was started for it changes
  -- nothing: the startup message is not sent again, no reconnection is planned, and no timer is left.
  pub tr_deadline-IsStuck :
      (client : Bool) (c : StateController)
      → IsSynced client c
      → c.current_state ≡ ass_pending
      → IsStuck c (handle u c tr_deadline)
  unfolding handle elapse
  tr_deadline-IsStuck client c h pending = expired client c c.tr_timer.timer_ctx refl h pending
