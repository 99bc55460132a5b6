-- ===== src/Storage/Oracle/System.antt =====
-- ora_logger/ora_cntrl/ora_cntrl.go: the goroutines of `executeQuery` beside that of `Run`, and the
-- orders in which they may go on.
pub mod Sound
pub mod Next
pub mod Cases
pub mod Executors
pub mod InOrder
pub mod Frame
pub mod Stalled
pub mod StaleTerm
use fmtp.Prelude.{
  ℕ, zero, suc, ◌-◌, Bool, ◌&&◌, Option, none, some, List, [], ◌∷◌, ◌++◌, length, Bytes, ◌==◌, ltb,
  if◌then◌else◌, nat_eq,
}
use mathlib.Core.Option.{bind, map as map_option}
use fmtp.Storage.Message.{LogMessage}
use fmtp.Storage.Oracle.Settings.{OraCntrlSettings}
use fmtp.Storage.Oracle.Query.{QueueItem, PriorityQueue}
use fmtp.Storage.Oracle.Controller.{
  DbResult, OraCntrlr, OpenResult, change_settings, receive_msgs, take_result, ping_tick,
  check_log_livetime,
}

-- The entry at an index, and the others.
abbrev pub pick : ℕ → List QueueItem → Option (QueueItem × List QueueItem)
pick n [] = none
pick zero (item ∷ items) = some (item, items)
pick (suc n) (item ∷ items) =
    map_option (λ (picked, others). (picked, item ∷ others)) (pick n items)

-- What may happen next. A case of `Run` comes with what the code reads there; `finish_query` is told
-- which of the queries that are executed ends, and with what result. What cannot happen leaves all
-- as it is.
pub data OraEvent : Type 0 where
  new_settings : OraCntrlSettings → OpenResult → Bytes → OraEvent
  log_msgs_received : List LogMessage → OraEvent
  exec_result : OraEvent
  ping_ticked : OraEvent
  livetime_ticked : Bytes → OraEvent
  query_taken : OraEvent
  query_finished : ℕ → DbResult → OraEvent
  executor_quit : OraEvent

module _ (pq : PriorityQueue) where
  abbrev pub take_query : OraCntrlr pq → List QueueItem → OraCntrlr pq
  take_query c [] = c
  take_query c (item ∷ others) =
      if ltb 0 c.executors
      then record c {
        exec_query_chan = others;
        executors = c.executors - 1;
        executing = c.executing ++ item ∷ [];
      }
      else c

  abbrev pub finish_picked :
      OraCntrlr pq → DbResult → Option (QueueItem × List QueueItem) → OraCntrlr pq
  finish_picked c result none = c
  finish_picked c result (some (item, others)) =
      if length c.exec_result_chan == 0
      then record c {
        executing = others;
        exec_result_chan = result ∷ [];
        executors = suc c.executors;
        executed = c.executed ++ (item, result) ∷ [];
      }
      else c

  unfoldable pub finish_query : ℕ → DbResult → OraCntrlr pq → OraCntrlr pq
  finish_query n result c = finish_picked c result (pick n c.executing)

  unfoldable pub quit_executor : OraCntrlr pq → OraCntrlr pq
  quit_executor c =
      if ltb 0 c.executors && ltb 0 c.exec_term_chan
      then record c { executors = c.executors - 1; exec_term_chan = c.exec_term_chan - 1 }
      else c

  unfoldable pub step : OraEvent → OraCntrlr pq → Option (OraCntrlr pq)
  unfolding change_settings receive_msgs take_result ping_tick check_log_livetime finish_query
      quit_executor
  step (new_settings setts result date) c = change_settings pq setts result date c
  step (log_msgs_received log_msgs) c = receive_msgs pq log_msgs c
  step exec_result c = take_result pq c
  step ping_ticked c = ping_tick pq c
  step (livetime_ticked date) c = check_log_livetime pq date c
  step query_taken c = some (take_query c c.exec_query_chan)
  step (query_finished n result) c = some (finish_query n result c)
  step executor_quit c = some (quit_executor c)

  unfoldable pub run : List OraEvent → OraCntrlr pq → Option (OraCntrlr pq)
  unfolding step bind
  run [] c = some c
  run (event ∷ events) c = bind (step event c) (run events)
