-- ===== src/Storage/Oracle/Bounded.antt =====
-- ora_logger/ora_cntrl/ora_cntrl.go: the controller and its goroutines beside the readers of
-- `RequestMsgChan` and `MetricsChan`, which have room for ten values each. Where `Run` waits to write
-- a request in the middle of a case, the code does the rest of the case after the wait; here it is done
-- before, so what that rest begins may go on during the wait, and every order of the code is one here.
pub mod InOrder
use fmtp.Prelude.{
  ℕ, suc, ◌+◌, ◌-◌, Bool, true, false, not, ◌&&◌, Option, none, some, List, [], ◌∷◌, ◌++◌, length,
  ltb, if◌then◌else◌,
}
use mathlib.Core.Option.{bind, map as map_option}
use fmtp.Storage.Message.{LogMessage}
use fmtp.Storage.State.{LoggerState}
use fmtp.Storage.Oracle.Query.{PriorityQueue}
use fmtp.Storage.Oracle.Controller.{OraCntrlr, new_ora_controller}
use fmtp.Storage.Oracle.System.{
  OraEvent, new_settings, log_msgs_received, exec_result, ping_ticked, livetime_ticked, query_taken,
  query_finished, executor_quit, step,
}

-- Whether it is a case of `Run`.
abbrev is_case : OraEvent → Bool
is_case (new_settings setts result date) = true
is_case (log_msgs_received log_msgs) = true
is_case exec_result = true
is_case ping_ticked = true
is_case (livetime_ticked date) = true
is_case query_taken = false
is_case (query_finished n result) = false
is_case executor_quit = false

-- Whether it writes to `MetricsChan`.
abbrev is_measured : OraEvent → Bool
is_measured (query_finished n result) = true
is_measured (new_settings setts result date) = false
is_measured (log_msgs_received log_msgs) = false
is_measured exec_result = false
is_measured ping_ticked = false
is_measured (livetime_ticked date) = false
is_measured query_taken = false
is_measured executor_quit = false

pub data BoundedEvent : Type 0 where
  ora_stepped : OraEvent → BoundedEvent
  request_read metrics_read : BoundedEvent

module _ (pq : PriorityQueue) where
  pub record OraRun : Type 0 where
    pub ora_cntrl : OraCntrlr pq
    -- How many of its requests have been read. Those it has written are in `ora_cntrl`, with the one
    -- that it waits to write where ten others wait to be read.
    pub requests_read : ℕ
    -- The values in `MetricsChan`.
    pub metrics_chan : ℕ

  -- `Run` begins with five values for the metrics.
  unfoldable pub new_ora_run : LoggerState → OraRun
  unfolding new_ora_controller
  new_ora_run state = record {
    ora_cntrl = new_ora_controller pq state;
    requests_read = 0;
    metrics_chan = 5;
  }

  -- `Run` waits to write a request to the full channel, and handles nothing else.
  unfoldable pub run_waits : OraRun → Bool
  run_waits b = ltb 10 (b.ora_cntrl.request_count - b.requests_read)

  -- Whether the event has to wait for a reader of one of the two channels.
  unfoldable pub is_blocked : OraEvent → OraRun → Bool
  unfolding run_waits
  is_blocked event b =
      if is_case event then run_waits b else is_measured event && not (ltb b.metrics_chan 10)

  -- A query that was executed has been measured.
  abbrev pub with_cntrl : OraRun → OraCntrlr pq → OraRun
  with_cntrl b c = record b {
    ora_cntrl = c;
    metrics_chan = b.metrics_chan + (length c.executed - length b.ora_cntrl.executed);
  }

  unfoldable pub step_if_free : OraEvent → OraRun → Option OraRun
  unfolding is_blocked step
  step_if_free event b =
      if is_blocked event b then some b else map_option (with_cntrl b) (step pq event b.ora_cntrl)

  unfoldable pub read_request : OraRun → OraRun
  read_request b =
      if ltb b.requests_read b.ora_cntrl.request_count
      then record b { requests_read = suc b.requests_read }
      else b

  unfoldable pub bounded_step : BoundedEvent → OraRun → Option OraRun
  unfolding step_if_free read_request
  bounded_step (ora_stepped event) b = step_if_free event b
  bounded_step request_read b = some (read_request b)
  bounded_step metrics_read b = some (record b { metrics_chan = b.metrics_chan - 1 })

  unfoldable pub bounded_run : List BoundedEvent → OraRun → Option OraRun
  unfolding bounded_step bind
  bounded_run [] b = some b
  bounded_run (event ∷ events) b = bind (bounded_step event b) (bounded_run events)
