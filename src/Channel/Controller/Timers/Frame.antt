-- ===== src/Channel/Controller/Timers/Frame.antt =====
-- What a transition keeps, and the state it ends in.
use fmtp.Prelude.{◌≡◌, refl, Bool, true, false, string_eq, lookup}
use fmtp.Protocol.State.{
  FmtpState, idle, con_pending, sys_id_pending, id_pending, ready, ass_pending, data_ready,
  disabled, empt, state_eq,
}
use fmtp.Protocol.Event.{FmtpEvent, l_setup, event_eq}
use fmtp.Protocol.Machine.Table.{next_state}
use fmtp.Channel.Timer.{start_timer, stop_timer, restart_timer}
use fmtp.Channel.Core.{Recoding, StateController, send_packet}
use fmtp.Channel.Transitions.{
  init_enter_trans_func_map, init_exit_trans_func_map, idle_state_enter,
  system_id_pending_state_enter, connection_pending_state_enter, id_pending_state_enter,
  ready_state_enter, disabled_state_enter, idle_state_exit, system_id_pending_state_exit,
  id_pending_state_exit, ready_state_exit, assosiation_pending_state_exit, data_ready_state_exit,
}
use fmtp.Channel.Controller.{leave, enter}
use fmtp.Channel.Controller.Timers.{wiring, as_role, shift}

module _ (u : Recoding) where
  pub shift-wiring :
      (client : Bool) (s : FmtpState) (e : FmtpEvent) (c : StateController)
      → wiring (shift u client c s e) ≡ wiring (as_role client c)
  unfolding leave enter lookup init_enter_trans_func_map init_exit_trans_func_map restart_timer
      start_timer stop_timer send_packet idle_state_enter system_id_pending_state_enter
      connection_pending_state_enter id_pending_state_enter ready_state_enter disabled_state_enter
      idle_state_exit system_id_pending_state_exit id_pending_state_exit ready_state_exit
      assosiation_pending_state_exit data_ready_state_exit
  shift-wiring true idle l_setup c = refl
  shift-wiring true con_pending l_setup c = refl
  shift-wiring true sys_id_pending l_setup c = refl
  shift-wiring true id_pending l_setup c = refl
  shift-wiring true ready l_setup c = refl
  shift-wiring true ass_pending l_setup c = refl
  shift-wiring true data_ready l_setup c = refl
  shift-wiring true disabled l_setup c = refl
  shift-wiring true empt l_setup c = refl
  shift-wiring false idle l_setup c = refl
  shift-wiring false con_pending l_setup c = refl
  shift-wiring false sys_id_pending l_setup c = refl
  shift-wiring false id_pending l_setup c = refl
  shift-wiring false ready l_setup c = refl
  shift-wiring false ass_pending l_setup c = refl
  shift-wiring false data_ready l_setup c = refl
  shift-wiring false disabled l_setup c = refl
  shift-wiring false empt l_setup c = refl
  shift-wiring _ _ _ c = refl

  pub shift-current_state :
      (client : Bool) (s : FmtpState) (e : FmtpEvent) (c : StateController)
      → (shift u client c s e).current_state ≡ next_state client s e
  unfolding leave enter lookup init_enter_trans_func_map init_exit_trans_func_map restart_timer
      start_timer stop_timer send_packet idle_state_enter system_id_pending_state_enter
      connection_pending_state_enter id_pending_state_enter ready_state_enter disabled_state_enter
      idle_state_exit system_id_pending_state_exit id_pending_state_exit ready_state_exit
      assosiation_pending_state_exit data_ready_state_exit
  shift-current_state true idle l_setup c = refl
  shift-current_state true con_pending l_setup c = refl
  shift-current_state true sys_id_pending l_setup c = refl
  shift-current_state true id_pending l_setup c = refl
  shift-current_state true ready l_setup c = refl
  shift-current_state true ass_pending l_setup c = refl
  shift-current_state true data_ready l_setup c = refl
  shift-current_state true disabled l_setup c = refl
  shift-current_state true empt l_setup c = refl
  shift-current_state false idle l_setup c = refl
  shift-current_state false con_pending l_setup c = refl
  shift-current_state false sys_id_pending l_setup c = refl
  shift-current_state false id_pending l_setup c = refl
  shift-current_state false ready l_setup c = refl
  shift-current_state false ass_pending l_setup c = refl
  shift-current_state false data_ready l_setup c = refl
  shift-current_state false disabled l_setup c = refl
  shift-current_state false empt l_setup c = refl
  shift-current_state _ _ _ c = refl
