-- ===== src/Channel/Timer.antt =====
-- channel/fmtp_states/timer.go, for goroutines that are prompt: those that `startTimer` and `stopTimer`
-- start have run up to their next wait before the controller goes on. The code does not wait for them
-- (only `restartTimer` waits for its own), so a start and a stop that follow each other at once, as where
-- one read brings a startup and a shutdown, may also take effect the other way round, and then the
-- timer goes on. Those runs are not modelled.
use fmtp.Prelude.{◌≡◌, refl, Bool, true, false, Option, none, some, ℤ}
use fmtp.Protocol.Event.{FmtpEvent}

-- The context of the last start: not yet done, or done by `cancel`, or by its deadline.
pub data Context : Type 0 where
  active canceled deadline_exceeded : Context

-- The cancel function; a context that is done stays as it is.
abbrev cancel : Context → Context
cancel active = canceled
cancel canceled = canceled
cancel deadline_exceeded = deadline_exceeded

-- `timer_ctx` is `none` until the timer is first started.
pub record Timer : Type 0 where
  pub duration : ℤ
  pub fmtp_event : FmtpEvent
  pub timer_ctx : Option Context

unfoldable pub new_fmtp_timer : ℤ → FmtpEvent → Timer
new_fmtp_timer duration event = record { duration = duration; fmtp_event = event; timer_ctx = none }

unfoldable pub start_timer : Timer → Timer
start_timer t = record t { timer_ctx = some active }

abbrev cancel_last : Option Context → Option Context
cancel_last none = none
cancel_last (some ctx) = some (cancel ctx)

unfoldable pub stop_timer : Timer → Timer
stop_timer t = record t { timer_ctx = cancel_last t.timer_ctx }

unfoldable pub restart_timer : Timer → Timer
unfolding start_timer stop_timer
restart_timer t = start_timer (stop_timer t)

abbrev pub at_deadline : Timer → Option Context → Timer × Option FmtpEvent
at_deadline t (some active) = (record t { timer_ctx = some deadline_exceeded }, some t.fmtp_event)
at_deadline t (some canceled) = (t, none)
at_deadline t (some deadline_exceeded) = (t, none)
at_deadline t none = (t, none)

-- The waiting goroutine at the deadline: the event is sent unless the context was cancelled.
unfoldable pub elapse : Timer → Timer × Option FmtpEvent
elapse t = at_deadline t t.timer_ctx

abbrev pub runs_ctx : Option Context → Bool
runs_ctx (some active) = true
runs_ctx (some canceled) = false
runs_ctx (some deadline_exceeded) = false
runs_ctx none = false

abbrev pub runs : Timer → Bool
runs t = runs_ctx t.timer_ctx

runs_ctx-cancel_last : (ctx : Option Context) → runs_ctx (cancel_last ctx) ≡ false
runs_ctx-cancel_last none = refl
runs_ctx-cancel_last (some active) = refl
runs_ctx-cancel_last (some canceled) = refl
runs_ctx-cancel_last (some deadline_exceeded) = refl

pub runs-stop_timer : (t : Timer) → runs (stop_timer t) ≡ false
unfolding stop_timer
runs-stop_timer t = runs_ctx-cancel_last t.timer_ctx
