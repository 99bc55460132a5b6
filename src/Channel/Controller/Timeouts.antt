-- ===== src/Channel/Controller/Timeouts.antt =====
-- What a timer's event does to the timers. A timer that fires counts as stopped; the event it raises
-- puts the timers right.
use fmtp.Prelude.{
  ◌⊎◌, inl, inr, ◌≡◌, refl, sym, ap, ◌≢◌, Bool, true, false, arith, string_eq, lookup,
}
use fmtp.Protocol.State.{
  FmtpState, idle, sys_id_pending, id_pending, ass_pending, data_ready, empt, state_eq,
}
use fmtp.Protocol.Event.{ts_timeout, tr_timeout, ti_timeout, event_eq}
use fmtp.Protocol.Machine.Table.{next_state}
use fmtp.Channel.Timer.{runs, runs-stop_timer, start_timer, restart_timer}
use fmtp.Channel.Core.{Recoding, StateController, send_packet}
use fmtp.Channel.Transitions.{
  init_enter_trans_func_map, init_exit_trans_func_map, idle_state_enter,
  system_id_pending_state_exit, id_pending_state_exit, data_ready_state_exit,
}
use fmtp.Channel.Controller.{leave, enter}
use fmtp.Channel.Controller.Timers.{Armed, TrArmed, has_state, waits_id, exchanges, shift}

true_ne : false ≡ true → ⊥
true_ne e = ground (arith, e)

idle_moves : idle ≢ empt
idle_moves e = ground (arith, e)

data_ready_moves : data_ready ≢ empt
data_ready_moves e = ground (arith, e)

-- Where the last timer may run.
pub tr_states : (s : FmtpState) → TrArmed s true → (s ≡ ass_pending) ⊎ (exchanges s ≡ true)
tr_states ass_pending tr = inl refl
tr_states data_ready tr = inr refl
tr_states _ tr = absurd (true_ne (sym tr))

-- An association that is pending takes no notice of the timer that it started.
pub ass_pending_ignores :
    (client : Bool) (s : FmtpState) → s ≡ ass_pending → next_state client s tr_timeout ≡ empt
ass_pending_ignores true s e = ap (λ t. next_state true t tr_timeout) e
ass_pending_ignores false s e = ap (λ t. next_state false t tr_timeout) e

module _ (u : Recoding) where
  pub shift_ti_timeout :
      (client : Bool) (s : FmtpState) (c : StateController)
      → has_state client s ≡ true
      → waits_id s ≡ true
      → runs c.ts_timer ≡ exchanges s
      → TrArmed s (runs c.tr_timer)
      → (next_state client s ti_timeout ≢ empt)
        × Armed (next_state client s ti_timeout) (shift u client c s ti_timeout)
  unfolding leave enter lookup init_enter_trans_func_map init_exit_trans_func_map restart_timer
      start_timer send_packet idle_state_enter system_id_pending_state_exit id_pending_state_exit
      data_ready_state_exit
  shift_ti_timeout true id_pending c has waits ts tr =
      (idle_moves, record { ti = runs-stop_timer c.ti_timer; ts = ts; tr = tr })
  shift_ti_timeout false id_pending c has waits ts tr =
      (idle_moves, record { ti = runs-stop_timer c.ti_timer; ts = ts; tr = tr })
  shift_ti_timeout false sys_id_pending c has waits ts tr =
      (idle_moves, record { ti = runs-stop_timer c.ti_timer; ts = ts; tr = tr })
  shift_ti_timeout true sys_id_pending c has waits ts tr = absurd (true_ne has)
  shift_ti_timeout _ _ c has waits ts tr = absurd (true_ne waits)

  pub shift_ts_timeout :
      (client : Bool) (s : FmtpState) (c : StateController)
      → exchanges s ≡ true
      → runs c.ti_timer ≡ waits_id s
      → TrArmed s (runs c.tr_timer)
      → (next_state client s ts_timeout ≢ empt)
        × Armed (next_state client s ts_timeout) (shift u client c s ts_timeout)
  unfolding leave enter lookup init_enter_trans_func_map init_exit_trans_func_map restart_timer
      start_timer send_packet idle_state_enter system_id_pending_state_exit id_pending_state_exit
      data_ready_state_exit
  shift_ts_timeout true data_ready c on ti tr =
      (data_ready_moves, record { ti = ti; ts = refl; tr = tr })
  shift_ts_timeout false data_ready c on ti tr =
      (data_ready_moves, record { ti = ti; ts = refl; tr = tr })
  shift_ts_timeout _ _ c on ti tr = absurd (true_ne on)

  pub shift_tr_timeout :
      (client : Bool) (s : FmtpState) (c : StateController)
      → exchanges s ≡ true
      → runs c.ti_timer ≡ waits_id s
      → (next_state client s tr_timeout ≢ empt)
        × Armed (next_state client s tr_timeout) (shift u client c s tr_timeout)
  unfolding leave enter lookup init_enter_trans_func_map init_exit_trans_func_map restart_timer
      start_timer send_packet idle_state_enter system_id_pending_state_exit id_pending_state_exit
      data_ready_state_exit
  shift_tr_timeout true data_ready c on ti = (
    idle_moves,
    record { ti = ti; ts = runs-stop_timer c.ts_timer; tr = runs-stop_timer c.tr_timer },
  )
  shift_tr_timeout false data_ready c on ti = (
    idle_moves,
    record { ti = ti; ts = runs-stop_timer c.ts_timer; tr = runs-stop_timer c.tr_timer },
  )
  shift_tr_timeout _ _ c on ti = absurd (true_ne on)
