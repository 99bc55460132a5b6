-- ===== src/Storage/Oracle/Controller.antt =====
-- ora_logger/ora_cntrl/ora_cntrl.go: the goroutine of `Run`, one function for each case of its
-- `select`. Where it would have to write to a full one of the channels that it shares with the
-- executors, or panics, the result is `none`.
mod Base
pub use Base.{
  insert_count_check, online_log_max_count, max_query_exec, DbResult, OraCntrlr, OpenResult,
  insert_item, request_if_idle, open_failed, ping_failed, connected,
}
unfoldable pub use Base.{
  contains, is_gone, cut_batch, new_ora_controller, write_term, disconnect_from_db, fill_queue,
  write_query, with_item, hand_over, check_query_queue, put_query, check_log_count,
  check_log_livetime, put_heartbeat, check_heartbeat,
}
use fmtp.Prelude.{
  ℕ, suc, ◌+◌, ◌%◌, ◌^◌, Bool, true, false, ◌&&◌, ◌||◌, Option, none, some, List, [], ◌∷◌, ◌++◌,
  length, take, drop, Bytes, codes, bytes_eq, ◌==◌, ltb, if◌then◌else◌, ℤ, pos, nat_eq,
}
use mathlib.Core.Option.{bind, map as map_option}
use fmtp.Storage.Message.{LogMessage}
use fmtp.Storage.State.{LoggerState, state_ok, state_error, set_ora_state}
use fmtp.Storage.Oracle.Settings.{OraCntrlSettings, no_setts, equal}
use fmtp.Storage.Oracle.Query.{
  QueueItem, PriorityQueue, ora_check_log_count_query, ora_check_log_livetime_query,
  ora_insert_log_query, ora_heartbeat_query, log_priority, check_log_count_priority,
  check_log_livetime_priority, heartbeat_priority,
}

module _ (pq : PriorityQueue) where
  unfoldable pub set_state : Bytes → Bytes → OraCntrlr pq → OraCntrlr pq
  unfolding set_ora_state
  set_state conn err c = record c { logger_state = set_ora_state conn err c.logger_state }

  -- `connectToDb`, and what `Run` writes to the state of the logger after it.
  unfoldable pub connect_to_db : OpenResult → OraCntrlr pq → Option (OraCntrlr pq)
  unfolding disconnect_from_db check_query_queue
  connect_to_db (open_failed err) c =
      map_option (set_state state_error err)
        (disconnect_from_db pq (record c { db_success = false; has_db = false }))
  connect_to_db (ping_failed err) c =
      map_option (set_state state_error err)
        (disconnect_from_db pq (record c { db_success = false; has_db = true }))
  connect_to_db connected c = map_option (set_state state_ok []) (
      check_query_queue pq (record c {
        has_db = true;
        db_success = true;
        can_execute = true;
        executors = suc c.executors;
      }))

  unfoldable pub reconnect : OpenResult → OraCntrlr pq → Option (OraCntrlr pq)
  unfolding disconnect_from_db connect_to_db bind
  reconnect result c =
      bind (if c.db_success then disconnect_from_db pq c else some c) (connect_to_db result)

  unfoldable pub check_storage : Bytes → OraCntrlr pq → Option (OraCntrlr pq)
  unfolding check_log_count check_log_livetime bind
  check_storage old_log_date c = bind (check_log_count pq c) (check_log_livetime pq old_log_date)

  -- The case of `SettsChan`.
  unfoldable pub change_settings :
      OraCntrlSettings → OpenResult → Bytes → OraCntrlr pq → Option (OraCntrlr pq)
  unfolding equal reconnect check_storage bind
  change_settings new_settings result old_log_date c =
      let (same_db, same_stor) = equal c.cur_setts new_settings in
      let changed = record c { cur_setts = new_settings } in
      if same_db && same_stor
      then some c
      else bind (if same_db then some changed else reconnect result changed)
          (λ next. if same_stor then some next else check_storage old_log_date next)

  abbrev pub reset_count : OraCntrlr pq → OraCntrlr pq
  reset_count c = record c { cur_insert_count = 0 }

  abbrev pub append_msgs : List LogMessage → OraCntrlr pq → OraCntrlr pq
  append_msgs log_msgs c = record c {
    log_msg_buffer = c.log_msg_buffer ++ log_msgs;
    cur_insert_count = (c.cur_insert_count + 1) % 2 ^ 64;
  }

  -- The case of `ReceiveMsgChan`.
  unfoldable pub receive_msgs : List LogMessage → OraCntrlr pq → Option (OraCntrlr pq)
  unfolding check_log_count check_query_queue bind
  receive_msgs log_msgs c =
      let taken = append_msgs log_msgs c in
      bind
        (if ltb insert_count_check taken.cur_insert_count
          then map_option reset_count (check_log_count pq taken)
          else some taken)
        (check_query_queue pq)

  unfoldable pub after_result : DbResult → OraCntrlr pq → Option (OraCntrlr pq)
  unfolding disconnect_from_db is_gone
  after_result none c = some (record c { can_execute = true })
  after_result (some err) c =
      if is_gone err
      then map_option (set_state state_error err) (disconnect_from_db pq c)
      else some (record c { can_execute = true })

  unfoldable pub take_first : OraCntrlr pq → List DbResult → Option (OraCntrlr pq)
  unfolding after_result check_query_queue bind
  take_first c [] = some c
  take_first c (result ∷ others) =
      bind (after_result result (record c { exec_result_chan = others })) (check_query_queue pq)

  -- The case of `execResultChan`, which waits where no result is there.
  unfoldable pub take_result : OraCntrlr pq → Option (OraCntrlr pq)
  unfolding take_first
  take_result c = take_first c c.exec_result_chan

  -- The case of the ticker of pings.
  unfoldable pub ping_tick : OraCntrlr pq → Option (OraCntrlr pq)
  unfolding check_heartbeat
  ping_tick c = if c.db_success then check_heartbeat pq c else some c
