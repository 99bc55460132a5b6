-- ===== src/Storage/Oracle/Controller/Base.antt =====
-- ora_logger/ora_cntrl/ora_cntrl.go: the state of the controller, and how it finds the next query.
use fmtp.Prelude.{
  ℕ, suc, Bool, true, false, ◌&&◌, ◌||◌, Option, none, some, List, [], ◌∷◌, length, take, drop,
  Bytes, codes, bytes_eq, ◌==◌, ltb, if◌then◌else◌, ℤ, pos, nat_eq,
}
use fmtp.Storage.Message.{LogMessage}
use fmtp.Storage.State.{LoggerState}
use fmtp.Storage.Oracle.Settings.{OraCntrlSettings, no_setts}
use fmtp.Storage.Oracle.Query.{
  QueueItem, PriorityQueue, ora_check_log_count_query, ora_check_log_livetime_query,
  ora_insert_log_query, ora_heartbeat_query, log_priority, check_log_count_priority,
  check_log_livetime_priority, heartbeat_priority,
}

abbrev pub insert_count_check : ℕ
insert_count_check = 1000

abbrev pub online_log_max_count : ℤ
online_log_max_count = pos 1000

abbrev pub max_query_exec : ℕ
max_query_exec = 100

-- The error of a database call, or `none`.
abbrev pub DbResult : Type 0
DbResult = Option Bytes

pub record OraCntrlr (pq : PriorityQueue) : Type 0 where
  pub cur_setts : OraCntrlSettings
  pub log_msg_buffer : List LogMessage
  pub query_queue : pq.Queue
  -- `db` is not nil.
  pub has_db : Bool
  pub db_success : Bool
  pub can_execute : Bool
  -- The three channels have room for one value each.
  pub exec_query_chan : List QueueItem
  pub exec_result_chan : List DbResult
  pub exec_term_chan : ℕ
  -- What has been written to `RequestMsgChan`, which has room for ten values, with the one that `Run`
  -- waits to write: Oracle/Bounded says when it waits.
  pub request_count : ℕ
  pub cur_insert_count : ℕ
  -- The goroutines of `executeQuery` that wait, and the queries that the others execute.
  pub executors : ℕ
  pub executing : List QueueItem
  -- The queries that have been executed, with their results, oldest first.
  pub executed : List (QueueItem × DbResult)
  -- The global `CommonLoggerState`.
  pub logger_state : LoggerState

-- What `sql.Open` and `Ping` answer.
pub data OpenResult : Type 0 where
  open_failed : Bytes → OpenResult
  ping_failed : Bytes → OpenResult
  connected : OpenResult

starts_with : Bytes → Bytes → Bool
starts_with [] text = true
starts_with (c ∷ part) [] = false
starts_with (c ∷ part) (d ∷ text) = c == d && starts_with part text

-- `strings.Contains`
unfoldable pub contains : Bytes → Bytes → Bool
unfolding starts_with
contains [] part = starts_with part []
contains (c ∷ text) part = starts_with part (c ∷ text) || contains text part

-- The errors after which the controller disconnects.
unfoldable pub is_gone : Bytes → Bool
is_gone err =
    contains err (codes "database is closed")
    || contains err (codes "server is not accepting clients")

-- The batch of the next query, and what stays in the buffer.
unfoldable pub cut_batch : List LogMessage → List LogMessage × List LogMessage
cut_batch buffer =
    if ltb max_query_exec (length buffer)
    then (take max_query_exec buffer, drop max_query_exec buffer)
    else (buffer, [])

abbrev pub insert_item : List LogMessage → QueueItem
insert_item to_query = record {
  query_text = ora_insert_log_query to_query;
  priority = log_priority;
  count_msg = length to_query;
}

module _ (pq : PriorityQueue) where
  open pq use {Queue, new_priority_queue, put, get, contents, len}

  unfoldable pub new_ora_controller : LoggerState → OraCntrlr pq
  new_ora_controller state = record {
    cur_setts = no_setts;
    log_msg_buffer = [];
    query_queue = new_priority_queue;
    has_db = false;
    db_success = false;
    can_execute = false;
    exec_query_chan = [];
    exec_result_chan = [];
    exec_term_chan = 0;
    request_count = 0;
    cur_insert_count = 0;
    executors = 0;
    executing = [];
    executed = [];
    logger_state = state;
  }

  -- `c.execTermChan <- struct{}{}`
  unfoldable pub write_term : OraCntrlr pq → Option (OraCntrlr pq)
  write_term c = if c.exec_term_chan == 0 then some (record c { exec_term_chan = 1 }) else none

  -- `Close` of a nil database panics.
  unfoldable pub disconnect_from_db : OraCntrlr pq → Option (OraCntrlr pq)
  unfolding write_term
  disconnect_from_db c =
      if c.has_db then write_term (record c { can_execute = false; db_success = false }) else none

  -- Where no query waits, a batch of messages becomes one; where no message waits either, more are
  -- asked for.
  unfoldable pub fill_queue : OraCntrlr pq → OraCntrlr pq
  unfolding cut_batch
  fill_queue c =
      let (to_query, buffer) = cut_batch c.log_msg_buffer in
      if ltb 0 (length c.log_msg_buffer)
      then record c {
        log_msg_buffer = buffer;
        query_queue = put (insert_item to_query) c.query_queue;
      }
      else record c { request_count = suc c.request_count }

  unfoldable pub write_query : OraCntrlr pq → QueueItem → Option (OraCntrlr pq)
  write_query c item =
      if length c.exec_query_chan == 0
      then some (record c { exec_query_chan = item ∷ [] })
      else none

  unfoldable pub with_item : OraCntrlr pq → Option (QueueItem × Queue) → Option (OraCntrlr pq)
  unfolding write_query
  with_item c none = none
  with_item c (some (item, rest)) =
      write_query (record c { query_queue = rest; can_execute = false }) item

  unfoldable pub hand_over : OraCntrlr pq → Option (OraCntrlr pq)
  unfolding with_item
  hand_over c = if len c.query_queue == 0 then some c else with_item c (get c.query_queue)

  unfoldable pub check_query_queue : OraCntrlr pq → Option (OraCntrlr pq)
  unfolding fill_queue hand_over
  check_query_queue c =
      if c.can_execute
      then hand_over (if len c.query_queue == 0 then fill_queue c else c)
      else some c

  unfoldable pub put_query : QueueItem → OraCntrlr pq → OraCntrlr pq
  put_query item c = record c { query_queue = put item c.query_queue }

  unfoldable pub check_log_count : OraCntrlr pq → Option (OraCntrlr pq)
  unfolding check_query_queue put_query
  check_log_count c = check_query_queue (
      put_query
        (record {
          query_text =
              ora_check_log_count_query online_log_max_count c.cur_setts.log_store_max_count;
          priority = check_log_count_priority;
          count_msg = 1;
        })
        c)

  -- `old_log_date` is the day so many days ago as the settings say, as a text.
  unfoldable pub check_log_livetime : Bytes → OraCntrlr pq → Option (OraCntrlr pq)
  unfolding check_query_queue put_query
  check_log_livetime old_log_date c = check_query_queue (
      put_query
        (record {
          query_text = ora_check_log_livetime_query old_log_date;
          priority = check_log_livetime_priority;
          count_msg = 1;
        })
        c)

  abbrev pub request_if_idle : OraCntrlr pq → OraCntrlr pq
  request_if_idle c =
      if length c.log_msg_buffer == 0 then record c { request_count = suc c.request_count } else c

  unfoldable pub put_heartbeat : OraCntrlr pq → OraCntrlr pq
  unfolding put_query
  put_heartbeat c =
      if len c.query_queue == 0
      then put_query
          (record {
            query_text = ora_heartbeat_query;
            priority = heartbeat_priority;
            count_msg = 1;
          })
          (request_if_idle c)
      else c

  unfoldable pub check_heartbeat : OraCntrlr pq → Option (OraCntrlr pq)
  unfolding check_query_queue put_heartbeat
  check_heartbeat c = check_query_queue (put_heartbeat c)
