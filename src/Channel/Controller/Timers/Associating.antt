-- ===== src/Channel/Controller/Timers/Associating.antt =====
-- The timers after an event in a state of an FMTP connection.
use fmtp.Prelude.{refl, ◌≢◌, Bool, true, false, string_eq, lookup}
use fmtp.Protocol.State.{ready, ass_pending, data_ready, empt, state_eq}
use fmtp.Protocol.Event.{
  FmtpEvent, l_disconnect, r_disconnect, l_data, l_shutdown, l_startup, r_data, r_heartbeat,
  r_shutdown, r_startup, ts_timeout, tr_timeout, ti_timeout, event_eq,
}
use fmtp.Protocol.Machine.Table.{next_state}
use fmtp.Channel.Timer.{runs-stop_timer, start_timer, restart_timer}
use fmtp.Channel.Core.{Recoding, StateController, send_packet}
use fmtp.Channel.Transitions.{
  init_enter_trans_func_map, init_exit_trans_func_map, idle_state_enter,
  system_id_pending_state_enter, connection_pending_state_enter, id_pending_state_enter,
  ready_state_enter, idle_state_exit, system_id_pending_state_exit, id_pending_state_exit,
  ready_state_exit, assosiation_pending_state_exit, data_ready_state_exit,
}
use fmtp.Channel.Controller.{leave, enter}
use fmtp.Channel.Controller.Timers.{Armed, shift}

module _ (u : Recoding) where
  pub from_ready :
      (client : Bool) (e : FmtpEvent) (c : StateController)
      → Armed ready c
      → next_state client ready e ≢ empt
      → Armed (next_state client ready e) (shift u client c ready e)
  unfolding leave enter lookup init_enter_trans_func_map init_exit_trans_func_map restart_timer
      start_timer send_packet idle_state_enter system_id_pending_state_enter
      connection_pending_state_enter id_pending_state_enter ready_state_enter idle_state_exit
      system_id_pending_state_exit id_pending_state_exit ready_state_exit
      assosiation_pending_state_exit data_ready_state_exit
  from_ready true l_startup c h moves = record { ti = h.ti; ts = h.ts; tr = tt }
  from_ready false l_startup c h moves = record { ti = h.ti; ts = h.ts; tr = tt }
  from_ready true l_shutdown c h moves = record { ti = h.ti; ts = h.ts; tr = h.tr }
  from_ready false l_shutdown c h moves = record { ti = h.ti; ts = h.ts; tr = h.tr }
  from_ready true l_disconnect c h moves = record { ti = h.ti; ts = h.ts; tr = h.tr }
  from_ready false l_disconnect c h moves = record { ti = h.ti; ts = h.ts; tr = h.tr }
  from_ready true r_disconnect c h moves = record { ti = h.ti; ts = h.ts; tr = h.tr }
  from_ready false r_disconnect c h moves = record { ti = h.ti; ts = h.ts; tr = h.tr }
  from_ready _ _ c h moves = absurd (moves refl)

  pub from_ass_pending :
      (client : Bool) (e : FmtpEvent) (c : StateController)
      → Armed ass_pending c
      → next_state client ass_pending e ≢ empt
      → Armed (next_state client ass_pending e) (shift u client c ass_pending e)
  unfolding leave enter lookup init_enter_trans_func_map init_exit_trans_func_map restart_timer
      start_timer send_packet idle_state_enter system_id_pending_state_enter
      connection_pending_state_enter id_pending_state_enter ready_state_enter idle_state_exit
      system_id_pending_state_exit id_pending_state_exit ready_state_exit
      assosiation_pending_state_exit data_ready_state_exit
  from_ass_pending true l_shutdown c h moves = record {
    ti = h.ti;
    ts = h.ts;
    tr = runs-stop_timer c.tr_timer;
  }
  from_ass_pending false l_shutdown c h moves = record {
    ti = h.ti;
    ts = h.ts;
    tr = runs-stop_timer c.tr_timer;
  }
  from_ass_pending true r_startup c h moves = record { ti = h.ti; ts = refl; tr = refl }
  from_ass_pending false r_startup c h moves = record { ti = h.ti; ts = refl; tr = refl }
  from_ass_pending true l_disconnect c h moves = record {
    ti = h.ti;
    ts = h.ts;
    tr = runs-stop_timer c.tr_timer;
  }
  from_ass_pending false l_disconnect c h moves = record {
    ti = h.ti;
    ts = h.ts;
    tr = runs-stop_timer c.tr_timer;
  }
  from_ass_pending true r_disconnect c h moves = record {
    ti = h.ti;
    ts = h.ts;
    tr = runs-stop_timer c.tr_timer;
  }
  from_ass_pending false r_disconnect c h moves = record {
    ti = h.ti;
    ts = h.ts;
    tr = runs-stop_timer c.tr_timer;
  }
  from_ass_pending true ti_timeout c h moves = record { ti = h.ti; ts = h.ts; tr = tt }
  from_ass_pending false ti_timeout c h moves = record { ti = h.ti; ts = h.ts; tr = tt }
  from_ass_pending _ _ c h moves = absurd (moves refl)

  pub from_data_ready :
      (client : Bool) (e : FmtpEvent) (c : StateController)
      → Armed data_ready c
      → next_state client data_ready e ≢ empt
      → Armed (next_state client data_ready e) (shift u client c data_ready e)
  unfolding leave enter lookup init_enter_trans_func_map init_exit_trans_func_map restart_timer
      start_timer send_packet idle_state_enter system_id_pending_state_enter
      connection_pending_state_enter id_pending_state_enter ready_state_enter idle_state_exit
      system_id_pending_state_exit id_pending_state_exit ready_state_exit
      assosiation_pending_state_exit data_ready_state_exit
  from_data_ready true r_shutdown c h moves = record {
    ti = h.ti;
    ts = runs-stop_timer c.ts_timer;
    tr = tt;
  }
  from_data_ready false r_shutdown c h moves = record {
    ti = h.ti;
    ts = runs-stop_timer c.ts_timer;
    tr = tt;
  }
  from_data_ready true l_shutdown c h moves = record {
    ti = h.ti;
    ts = runs-stop_timer c.ts_timer;
    tr = runs-stop_timer c.tr_timer;
  }
  from_data_ready false l_shutdown c h moves = record {
    ti = h.ti;
    ts = runs-stop_timer c.ts_timer;
    tr = runs-stop_timer c.tr_timer;
  }
  from_data_ready true l_disconnect c h moves = record {
    ti = h.ti;
    ts = runs-stop_timer c.ts_timer;
    tr = runs-stop_timer c.tr_timer;
  }
  from_data_ready false l_disconnect c h moves = record {
    ti = h.ti;
    ts = runs-stop_timer c.ts_timer;
    tr = runs-stop_timer c.tr_timer;
  }
  from_data_ready true r_disconnect c h moves = record {
    ti = h.ti;
    ts = runs-stop_timer c.ts_timer;
    tr = runs-stop_timer c.tr_timer;
  }
  from_data_ready false r_disconnect c h moves = record {
    ti = h.ti;
    ts = runs-stop_timer c.ts_timer;
    tr = runs-stop_timer c.tr_timer;
  }
  from_data_ready true tr_timeout c h moves = record {
    ti = h.ti;
    ts = runs-stop_timer c.ts_timer;
    tr = runs-stop_timer c.tr_timer;
  }
  from_data_ready false tr_timeout c h moves = record {
    ti = h.ti;
    ts = runs-stop_timer c.ts_timer;
    tr = runs-stop_timer c.tr_timer;
  }
  from_data_ready true l_data c h moves = record { ti = h.ti; ts = refl; tr = h.tr }
  from_data_ready false l_data c h moves = record { ti = h.ti; ts = refl; tr = h.tr }
  from_data_ready true r_data c h moves = record { ti = h.ti; ts = h.ts; tr = refl }
  from_data_ready false r_data c h moves = record { ti = h.ti; ts = h.ts; tr = refl }
  from_data_ready true r_heartbeat c h moves = record { ti = h.ti; ts = h.ts; tr = refl }
  from_data_ready false r_heartbeat c h moves = record { ti = h.ti; ts = h.ts; tr = refl }
  from_data_ready true ts_timeout c h moves = record { ti = h.ti; ts = refl; tr = h.tr }
  from_data_ready false ts_timeout c h moves = record { ti = h.ti; ts = refl; tr = h.tr }
  from_data_ready _ _ c h moves = absurd (moves refl)
