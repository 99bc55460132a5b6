-- ===== src/Channel/Controller/Timers/Connecting.antt =====
-- The timers after an event in a state before an FMTP connection.
use fmtp.Prelude.{refl, ◌≢◌, Bool, true, false, string_eq, lookup}
use fmtp.Protocol.State.{idle, con_pending, sys_id_pending, id_pending, empt, state_eq}
use fmtp.Protocol.Event.{
  FmtpEvent, l_setup, r_setup, l_disconnect, r_disconnect, l_data, l_shutdown, l_startup, r_data,
  r_accept, r_reject, r_id_valid, r_id_invalid, r_heartbeat, r_shutdown, r_startup, ti_timeout,
  event_eq,
}
use fmtp.Protocol.Machine.Table.{next_state}
use fmtp.Channel.Timer.{runs-stop_timer, start_timer, restart_timer}
use fmtp.Channel.Core.{Recoding, StateController, send_packet}
use fmtp.Channel.Transitions.{
  init_enter_trans_func_map, init_exit_trans_func_map, idle_state_enter,
  system_id_pending_state_enter, connection_pending_state_enter, id_pending_state_enter,
  ready_state_enter, idle_state_exit, system_id_pending_state_exit, id_pending_state_exit,
  ready_state_exit, assosiation_pending_state_exit, data_ready_state_exit,
}
use fmtp.Channel.Controller.{leave, enter}
use fmtp.Channel.Controller.Timers.{Armed, shift}

module _ (u : Recoding) where
  pub from_idle :
      (client : Bool) (e : FmtpEvent) (c : StateController)
      → Armed idle c
      → next_state client idle e ≢ empt
      → Armed (next_state client idle e) (shift u client c idle e)
  unfolding leave enter lookup init_enter_trans_func_map init_exit_trans_func_map restart_timer
      start_timer send_packet idle_state_enter system_id_pending_state_enter
      connection_pending_state_enter id_pending_state_enter ready_state_enter idle_state_exit
      system_id_pending_state_exit id_pending_state_exit ready_state_exit
      assosiation_pending_state_exit data_ready_state_exit
  from_idle true l_setup c h moves = record { ti = h.ti; ts = h.ts; tr = h.tr }
  from_idle false r_setup c h moves = record { ti = refl; ts = h.ts; tr = h.tr }
  from_idle true l_disconnect c h moves = record { ti = h.ti; ts = h.ts; tr = h.tr }
  from_idle false l_disconnect c h moves = record { ti = h.ti; ts = h.ts; tr = h.tr }
  from_idle true r_disconnect c h moves = record { ti = h.ti; ts = h.ts; tr = h.tr }
  from_idle false r_disconnect c h moves = record { ti = h.ti; ts = h.ts; tr = h.tr }
  from_idle _ _ c h moves = absurd (moves refl)

  pub from_con_pending :
      (client : Bool) (e : FmtpEvent) (c : StateController)
      → Armed con_pending c
      → next_state client con_pending e ≢ empt
      → Armed (next_state client con_pending e) (shift u client c con_pending e)
  unfolding leave enter lookup init_enter_trans_func_map init_exit_trans_func_map restart_timer
      start_timer send_packet idle_state_enter system_id_pending_state_enter
      connection_pending_state_enter id_pending_state_enter ready_state_enter idle_state_exit
      system_id_pending_state_exit id_pending_state_exit ready_state_exit
      assosiation_pending_state_exit data_ready_state_exit
  from_con_pending true r_setup c h moves = record { ti = refl; ts = h.ts; tr = h.tr }
  from_con_pending true l_disconnect c h moves = record { ti = h.ti; ts = h.ts; tr = h.tr }
  from_con_pending true r_disconnect c h moves = record { ti = h.ti; ts = h.ts; tr = h.tr }
  from_con_pending true l_data c h moves = record { ti = h.ti; ts = h.ts; tr = h.tr }
  from_con_pending true l_shutdown c h moves = record { ti = h.ti; ts = h.ts; tr = h.tr }
  from_con_pending true l_startup c h moves = record { ti = h.ti; ts = h.ts; tr = h.tr }
  from_con_pending true r_data c h moves = record { ti = h.ti; ts = h.ts; tr = h.tr }
  from_con_pending true r_accept c h moves = record { ti = h.ti; ts = h.ts; tr = h.tr }
  from_con_pending true r_reject c h moves = record { ti = h.ti; ts = h.ts; tr = h.tr }
  from_con_pending true r_heartbeat c h moves = record { ti = h.ti; ts = h.ts; tr = h.tr }
  from_con_pending true r_shutdown c h moves = record { ti = h.ti; ts = h.ts; tr = h.tr }
  from_con_pending true r_startup c h moves = record { ti = h.ti; ts = h.ts; tr = h.tr }
  from_con_pending true ti_timeout c h moves = record { ti = h.ti; ts = h.ts; tr = h.tr }
  from_con_pending _ _ c h moves = absurd (moves refl)

  pub from_sys_id_pending :
      (client : Bool) (e : FmtpEvent) (c : StateController)
      → Armed sys_id_pending c
      → next_state client sys_id_pending e ≢ empt
      → Armed (next_state client sys_id_pending e) (shift u client c sys_id_pending e)
  unfolding leave enter lookup init_enter_trans_func_map init_exit_trans_func_map restart_timer
      start_timer send_packet idle_state_enter system_id_pending_state_enter
      connection_pending_state_enter id_pending_state_enter ready_state_enter idle_state_exit
      system_id_pending_state_exit id_pending_state_exit ready_state_exit
      assosiation_pending_state_exit data_ready_state_exit
  from_sys_id_pending false r_setup c h moves = record { ti = refl; ts = h.ts; tr = h.tr }
  from_sys_id_pending false r_id_valid c h moves = record { ti = refl; ts = h.ts; tr = h.tr }
  from_sys_id_pending false r_id_invalid c h moves = record {
    ti = runs-stop_timer c.ti_timer;
    ts = h.ts;
    tr = h.tr;
  }
  from_sys_id_pending false l_disconnect c h moves = record {
    ti = runs-stop_timer c.ti_timer;
    ts = h.ts;
    tr = h.tr;
  }
  from_sys_id_pending false r_disconnect c h moves = record {
    ti = runs-stop_timer c.ti_timer;
    ts = h.ts;
    tr = h.tr;
  }
  from_sys_id_pending false r_data c h moves = record {
    ti = runs-stop_timer c.ti_timer;
    ts = h.ts;
    tr = h.tr;
  }
  from_sys_id_pending false r_accept c h moves = record {
    ti = runs-stop_timer c.ti_timer;
    ts = h.ts;
    tr = h.tr;
  }
  from_sys_id_pending false r_reject c h moves = record {
    ti = runs-stop_timer c.ti_timer;
    ts = h.ts;
    tr = h.tr;
  }
  from_sys_id_pending false r_heartbeat c h moves = record {
    ti = runs-stop_timer c.ti_timer;
    ts = h.ts;
    tr = h.tr;
  }
  from_sys_id_pending false r_shutdown c h moves = record {
    ti = runs-stop_timer c.ti_timer;
    ts = h.ts;
    tr = h.tr;
  }
  from_sys_id_pending false r_startup c h moves = record {
    ti = runs-stop_timer c.ti_timer;
    ts = h.ts;
    tr = h.tr;
  }
  from_sys_id_pending false ti_timeout c h moves = record {
    ti = runs-stop_timer c.ti_timer;
    ts = h.ts;
    tr = h.tr;
  }
  from_sys_id_pending _ _ c h moves = absurd (moves refl)

  pub from_id_pending :
      (client : Bool) (e : FmtpEvent) (c : StateController)
      → Armed id_pending c
      → next_state client id_pending e ≢ empt
      → Armed (next_state client id_pending e) (shift u client c id_pending e)
  unfolding leave enter lookup init_enter_trans_func_map init_exit_trans_func_map restart_timer
      start_timer send_packet idle_state_enter system_id_pending_state_enter
      connection_pending_state_enter id_pending_state_enter ready_state_enter idle_state_exit
      system_id_pending_state_exit id_pending_state_exit ready_state_exit
      assosiation_pending_state_exit data_ready_state_exit
  from_id_pending true r_id_valid c h moves = record {
    ti = runs-stop_timer c.ti_timer;
    ts = h.ts;
    tr = h.tr;
  }
  from_id_pending true r_accept c h moves = record {
    ti = runs-stop_timer c.ti_timer;
    ts = h.ts;
    tr = h.tr;
  }
  from_id_pending true r_id_invalid c h moves = record {
    ti = runs-stop_timer c.ti_timer;
    ts = h.ts;
    tr = h.tr;
  }
  from_id_pending true l_data c h moves = record {
    ti = runs-stop_timer c.ti_timer;
    ts = h.ts;
    tr = h.tr;
  }
  from_id_pending true l_shutdown c h moves = record {
    ti = runs-stop_timer c.ti_timer;
    ts = h.ts;
    tr = h.tr;
  }
  from_id_pending true l_startup c h moves = record {
    ti = runs-stop_timer c.ti_timer;
    ts = h.ts;
    tr = h.tr;
  }
  from_id_pending false r_accept c h moves = record {
    ti = runs-stop_timer c.ti_timer;
    ts = h.ts;
    tr = h.tr;
  }
  from_id_pending true l_disconnect c h moves = record {
    ti = runs-stop_timer c.ti_timer;
    ts = h.ts;
    tr = h.tr;
  }
  from_id_pending false l_disconnect c h moves = record {
    ti = runs-stop_timer c.ti_timer;
    ts = h.ts;
    tr = h.tr;
  }
  from_id_pending true r_disconnect c h moves = record {
    ti = runs-stop_timer c.ti_timer;
    ts = h.ts;
    tr = h.tr;
  }
  from_id_pending false r_disconnect c h moves = record {
    ti = runs-stop_timer c.ti_timer;
    ts = h.ts;
    tr = h.tr;
  }
  from_id_pending true r_reject c h moves = record {
    ti = runs-stop_timer c.ti_timer;
    ts = h.ts;
    tr = h.tr;
  }
  from_id_pending false r_reject c h moves = record {
    ti = runs-stop_timer c.ti_timer;
    ts = h.ts;
    tr = h.tr;
  }
  from_id_pending true r_data c h moves = record {
    ti = runs-stop_timer c.ti_timer;
    ts = h.ts;
    tr = h.tr;
  }
  from_id_pending false r_data c h moves = record {
    ti = runs-stop_timer c.ti_timer;
    ts = h.ts;
    tr = h.tr;
  }
  from_id_pending true r_heartbeat c h moves = record {
    ti = runs-stop_timer c.ti_timer;
    ts = h.ts;
    tr = h.tr;
  }
  from_id_pending false r_heartbeat c h moves = record {
    ti = runs-stop_timer c.ti_timer;
    ts = h.ts;
    tr = h.tr;
  }
  from_id_pending true r_shutdown c h moves = record {
    ti = runs-stop_timer c.ti_timer;
    ts = h.ts;
    tr = h.tr;
  }
  from_id_pending false r_shutdown c h moves = record {
    ti = runs-stop_timer c.ti_timer;
    ts = h.ts;
    tr = h.tr;
  }
  from_id_pending true r_startup c h moves = record {
    ti = runs-stop_timer c.ti_timer;
    ts = h.ts;
    tr = h.tr;
  }
  from_id_pending false r_startup c h moves = record {
    ti = runs-stop_timer c.ti_timer;
    ts = h.ts;
    tr = h.tr;
  }
  from_id_pending true ti_timeout c h moves = record {
    ti = runs-stop_timer c.ti_timer;
    ts = h.ts;
    tr = h.tr;
  }
  from_id_pending false ti_timeout c h moves = record {
    ti = runs-stop_timer c.ti_timer;
    ts = h.ts;
    tr = h.tr;
  }
  from_id_pending _ _ c h moves = absurd (moves refl)
