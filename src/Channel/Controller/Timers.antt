-- ===== src/Channel/Controller/Timers.antt =====
-- Which timers run in which state.
pub mod Connecting
pub mod Associating
pub mod Shift
pub mod Frame
use fmtp.Prelude.{◌≡◌, refl, ◌≢◌, Bool, true, false, String, if◌then◌else◌, string_eq, lookup}
use fmtp.Protocol.State.{
  FmtpState, idle, con_pending, sys_id_pending, id_pending, ready, ass_pending, data_ready,
  disabled, empt, state_eq,
}
use fmtp.Protocol.Event.{
  FmtpEvent, l_setup, r_setup, l_disconnect, r_disconnect, l_data, l_shutdown, l_startup, r_data,
  r_accept, r_reject, r_id_valid, r_id_invalid, r_heartbeat, r_shutdown, r_startup, ts_timeout,
  tr_timeout, ti_timeout, event_eq,
}
use fmtp.Protocol.Machine.{FmtpStateMachine}
use fmtp.Channel.Settings.{ChannelSettings}
use fmtp.Protocol.Machine.Table.{next_state}
use fmtp.Channel.Timer.{runs, runs-stop_timer, start_timer, stop_timer, restart_timer}
use fmtp.Channel.Core.{Recoding, StateController, send_packet}
use fmtp.Channel.Transitions.{
  init_enter_trans_func_map, init_exit_trans_func_map, idle_state_enter,
  system_id_pending_state_enter, connection_pending_state_enter, id_pending_state_enter,
  ready_state_enter, disabled_state_enter, idle_state_exit, system_id_pending_state_exit,
  id_pending_state_exit, ready_state_exit, assosiation_pending_state_exit, data_ready_state_exit,
}
use fmtp.Channel.Controller.{leave, enter}

-- The states that wait for an identification.
abbrev pub waits_id : FmtpState → Bool
waits_id sys_id_pending = true
waits_id id_pending = true
waits_id _ = false

-- A client never waits for an identification first, a server never for a connection.
abbrev pub has_state : Bool → FmtpState → Bool
has_state true sys_id_pending = false
has_state false con_pending = false
has_state _ disabled = false
has_state _ empt = false
has_state _ _ = true

abbrev pub exchanges : FmtpState → Bool
exchanges data_ready = true
exchanges _ = false

abbrev pub TrArmed : FmtpState → Bool → Type 0
TrArmed data_ready b = b ≡ true
TrArmed ass_pending b = Unit
TrArmed _ b = b ≡ false

pub record Armed (s : FmtpState) (c : StateController) : Type 0 where
  pub ti : runs c.ti_timer ≡ waits_id s
  pub ts : runs c.ts_timer ≡ exchanges s
  pub tr : TrArmed s (runs c.tr_timer)

abbrev pub wiring :
    StateController → ChannelSettings × (FmtpStateMachine × (FmtpEvent × (FmtpEvent × FmtpEvent)))
wiring c = (
  c.cur_set,
  (c.state_machine, (c.ti_timer.fmtp_event, (c.ts_timer.fmtp_event, c.tr_timer.fmtp_event))),
)

abbrev pub role_text : Bool → String
role_text client = if client then "client" else "server"

abbrev pub as_role : Bool → StateController → StateController
as_role client c = record c { cur_set = record c.cur_set { net_role = role_text client } }

module _ (u : Recoding) where
  -- What `force_new_event` does where the event leads to another state.
  abbrev pub shift : Bool → StateController → FmtpState → FmtpEvent → StateController
  shift client c s e =
      let left = leave u (record (as_role client c) { current_state = s }) e in
      enter u (record left { current_state = next_state client s e }) e
