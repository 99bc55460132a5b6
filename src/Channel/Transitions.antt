-- ===== src/Channel/Transitions.antt =====
-- channel/fmtp_states/states_transition_funcs.go and states_transition_func_map.go: what the
-- controller does when it leaves a state and when it enters one.
pub mod Buffer
use fmtp.Prelude.{suc, String, ◌||◌, [], ◌∷◌, ◌==◌, if◌then◌else◌, string_eq, GoMap, insert}
use fmtp.Protocol.State.{
  FmtpState, idle, con_pending, sys_id_pending, id_pending, ready, ass_pending, data_ready,
  disabled, state_eq,
}
use fmtp.Protocol.Event.{
  FmtpEvent, r_setup, l_disconnect, r_disconnect, l_data, l_shutdown, l_startup, r_data, r_id_valid,
  r_id_invalid, r_heartbeat, r_shutdown, r_startup, ts_timeout, tr_timeout, none_event, event_eq,
}
use fmtp.Protocol.Message.{
  startup_message, shutdown_message, heartbeat_message, accept_message, reject_message,
}
use fmtp.Channel.Settings.{tcp_client_text, tcp_server_text}
use fmtp.Channel.Log.{severity_info, severity_debug}
use fmtp.Channel.Timer.{restart_timer, stop_timer}
use fmtp.Channel.Core.{Recoding, StateController, send_packet}

abbrev restart_ti : StateController → StateController
restart_ti c = record c { ti_timer = restart_timer c.ti_timer }

abbrev restart_ts : StateController → StateController
restart_ts c = record c { ts_timer = restart_timer c.ts_timer }

abbrev restart_tr : StateController → StateController
restart_tr c = record c { tr_timer = restart_timer c.tr_timer }

abbrev stop_ti : StateController → StateController
stop_ti c = record c { ti_timer = stop_timer c.ti_timer }

abbrev stop_ts : StateController → StateController
stop_ts c = record c { ts_timer = stop_timer c.ts_timer }

abbrev stop_tr : StateController → StateController
stop_tr c = record c { tr_timer = stop_timer c.tr_timer }

abbrev pub TransitionFunc : Type 0
TransitionFunc = StateController → FmtpEvent → StateController

-- The pending `AfterFunc` is not cancelled by later transitions.
unfoldable pub idle_state_enter : TransitionFunc
idle_state_enter c event = record c { reconnects_planned = suc c.reconnects_planned }

unfoldable pub idle_state_exit : TransitionFunc
idle_state_exit c event = c

module _ (u : Recoding) where
  unfoldable pub system_id_pending_state_enter : TransitionFunc
  system_id_pending_state_enter c event = restart_ti c

  unfoldable pub system_id_pending_state_exit : TransitionFunc
  system_id_pending_state_exit c event =
      if event == r_id_valid
      then restart_ti (
          if c.cur_set.net_role == tcp_server_text
          then send_packet u c c.own_identification_msg none_event severity_info
          else c)
      else stop_ti c

  unfoldable pub connection_pending_state_enter : TransitionFunc
  connection_pending_state_enter c event =
      send_packet u c c.own_identification_msg r_setup severity_info

  unfoldable pub id_pending_state_enter : TransitionFunc
  id_pending_state_enter c event = restart_ti c

  unfoldable pub id_pending_state_exit : TransitionFunc
  id_pending_state_exit c event = stop_ti (
      if event == r_id_valid
      then send_packet u c accept_message none_event severity_info
      else if event == r_id_invalid
      then send_packet u c reject_message none_event severity_info
      else c)

  unfoldable pub ready_state_enter : TransitionFunc
  ready_state_enter c event = send_packet u c startup_message l_startup severity_info

  unfoldable pub ready_state_exit : TransitionFunc
  ready_state_exit c event = if event == l_startup then restart_tr c else c

  unfoldable pub assosiation_pending_state_exit : TransitionFunc
  assosiation_pending_state_exit c event =
      if event == l_disconnect || event == l_shutdown
      then stop_tr (send_packet u c shutdown_message none_event severity_info)
      else if event == tr_timeout
      then restart_tr (send_packet u c startup_message l_startup severity_info)
      else if event == r_startup
      then restart_ts (restart_tr (send_packet u c startup_message l_startup severity_info))
      else stop_tr c

  unfoldable pub data_ready_state_exit : TransitionFunc
  data_ready_state_exit c event =
      if event == l_disconnect || event == l_shutdown
      then stop_ts (stop_tr (send_packet u c shutdown_message none_event severity_info))
      else if event == r_disconnect || event == tr_timeout
      then stop_ts (stop_tr c)
      else if event == l_data
      then restart_ts c
      else if event == ts_timeout
      then restart_ts (send_packet u c heartbeat_message none_event severity_debug)
      else if event == r_data || event == r_heartbeat
      then restart_tr c
      else if event == r_shutdown
      then restart_tr (stop_ts c)
      else c

  unfoldable pub disabled_state_enter : TransitionFunc
  disabled_state_enter c event = stop_ts (stop_tr (stop_ti c))

  unfoldable pub init_enter_trans_func_map : String → GoMap FmtpState TransitionFunc
  unfolding insert idle_state_enter system_id_pending_state_enter connection_pending_state_enter
      id_pending_state_enter ready_state_enter disabled_state_enter
  init_enter_trans_func_map tcp_role =
      let common =
        (idle, idle_state_enter)
        ∷ (id_pending, id_pending_state_enter)
        ∷ (ready, ready_state_enter)
        ∷ (disabled, disabled_state_enter)
        ∷ [] in
      if tcp_role == tcp_client_text
      then insert con_pending connection_pending_state_enter common
      else insert sys_id_pending system_id_pending_state_enter common

  unfoldable pub init_exit_trans_func_map : String → GoMap FmtpState TransitionFunc
  unfolding insert idle_state_exit system_id_pending_state_exit id_pending_state_exit
      ready_state_exit assosiation_pending_state_exit data_ready_state_exit
  init_exit_trans_func_map tcp_role =
      let common =
        (idle, idle_state_exit)
        ∷ (id_pending, id_pending_state_exit)
        ∷ (ready, ready_state_exit)
        ∷ (ass_pending, assosiation_pending_state_exit)
        ∷ (data_ready, data_ready_state_exit)
        ∷ [] in
      if tcp_role == tcp_server_text
      then insert sys_id_pending system_id_pending_state_exit common
      else common
