-- ===== src/Storage/Logger.antt =====
-- ora_logger/ora_logger.go: the goroutine that joins the controller of the database and the reader of
-- the stream, with their steps. The settings go their own way.
pub mod Holding
pub mod Kept
pub mod Journal
use fmtp.Prelude.{
  ℕ, zero, suc, ◌+◌, ◌-◌, ◌≡◌, Bool, true, not, ◌&&◌, ◌||◌, Option, none, some, List, [], ◌∷◌, ◌++◌,
  Bytes, if◌then◌else◌, ltb, length, take, drop,
}
use mathlib.Core.Option.{bind, map as map_option}
use fmtp.Storage.Message.{LogMessage}
use fmtp.Storage.State.{LoggerState}
use fmtp.Storage.Redis.{
  RedisCntrl, RedisCntrlSettings, RedisStream, Entry, mem, ids_of, without, handle_request,
  new_redis_controller, connect_to_server,
}
use fmtp.Storage.Oracle.Query.{PriorityQueue}
use fmtp.Storage.Oracle.System.{OraEvent, log_msgs_received}
use fmtp.Storage.Oracle.Bounded.{OraRun, new_ora_run, run_waits, step_if_free, read_request}

-- XADD puts an entry at the end of the stream, and trims some of the oldest where the stream is too
-- long.
pub record StreamWriter (redis : RedisStream) : Type 0 where
  pub xadd : Entry → redis.Stream → redis.Stream
  pub trimmed : Entry → redis.Stream → ℕ
  pub entries-xadd :
      (entry : Entry) (s : redis.Stream)
      → redis.entries (xadd entry s) ≡ drop (trimmed entry s) (redis.entries s ++ entry ∷ [])

module _ (pq : PriorityQueue) (redis : RedisStream) (writer : StreamWriter redis) where
  -- A channel is what waits in it, oldest first, with the value that its only writer waits to write
  -- where the channel is full; of the requests there are only numbers. That the reader and `main`
  -- may wait for the metrics too is left out.
  pub record OraLogger : Type 0 where
    pub ora : OraRun pq
    pub request_msg_chan : ℕ
    pub redis_cntrl : RedisCntrl
    pub stream : redis.Stream
    -- All the entries that have been in the stream, oldest first, and those of them that were trimmed
    -- before they were read.
    pub written : List Entry
    pub lost : List Entry
    pub receive_msg_chan : List (List LogMessage)

  -- What may happen next. What cannot happen leaves all as it is.
  pub data LoggerEvent : Type 0 where
    -- The cases of `main`.
    request_passed msgs_passed metrics_passed : LoggerEvent
    -- The reader handles a request. The flags say whether Redis deletes and whether it answers.
    request_handled : Bool → Bool → LoggerEvent
    -- The controller of the database takes messages, or does something else.
    msgs_received : LoggerEvent
    ora_went_on : OraEvent → LoggerEvent
    -- A chief writes to the stream.
    entry_written : Entry → LoggerEvent

  -- `main` waits to write to a full channel.
  abbrev pub main_waits : OraLogger → Bool
  main_waits g = ltb 10 g.request_msg_chan || ltb 1024 (length g.receive_msg_chan)

  -- The reader waits to write to `SendMsgChan`.
  abbrev pub reader_waits : OraLogger → Bool
  reader_waits g = ltb 10 (length g.redis_cntrl.send_msg_chan)

  unfoldable pub pass_request : OraLogger → OraLogger
  unfolding read_request
  pass_request g =
      if not (main_waits g) && ltb g.ora.requests_read g.ora.ora_cntrl.request_count
      then record g { ora = read_request pq g.ora; request_msg_chan = suc g.request_msg_chan }
      else g

  unfoldable pub pass_msgs : OraLogger → List (List LogMessage) → OraLogger
  pass_msgs g [] = g
  pass_msgs g (msgs ∷ others) = if main_waits g then g else record g {
    redis_cntrl = record g.redis_cntrl { send_msg_chan = others };
    receive_msg_chan = g.receive_msg_chan ++ msgs ∷ [];
  }

  unfoldable pub pass_metrics : OraLogger → OraLogger
  pass_metrics g =
      if main_waits g
      then g
      else record g { ora = record g.ora { metrics_chan = g.ora.metrics_chan - 1 } }

  unfoldable pub take_request : Bool → Bool → OraLogger → OraLogger
  unfolding handle_request
  take_request deletes answers g =
      let (after, left) = handle_request redis deletes answers (g.redis_cntrl, g.stream) in
      if ltb 0 g.request_msg_chan && not (reader_waits g)
      then record g {
        request_msg_chan = g.request_msg_chan - 1;
        redis_cntrl = after;
        stream = left;
      }
      else g

  unfoldable pub step_ora : OraEvent → OraLogger → Option OraLogger
  unfolding step_if_free
  step_ora event g = map_option (λ b. record g { ora = b }) (step_if_free pq event g.ora)

  unfoldable pub take_msgs : OraLogger → List (List LogMessage) → Option OraLogger
  unfolding step_ora run_waits
  take_msgs g [] = some g
  take_msgs g (msgs ∷ others) =
      if run_waits pq g.ora
      then some g
      else step_ora (log_msgs_received msgs) (record g { receive_msg_chan = others })

  -- Redis gives an entry an id that no other has had.
  unfoldable pub write_entry : Entry → OraLogger → OraLogger
  unfolding without
  write_entry entry g =
      if not (mem entry.0 g.redis_cntrl.prev_read_ids)
        && not (mem entry.0 (ids_of (redis.entries g.stream)))
      then record g {
        stream = writer.xadd entry g.stream;
        written = g.written ++ entry ∷ [];
        lost =
            g.lost
            ++ without g.redis_cntrl.prev_read_ids
                (take (writer.trimmed entry g.stream) (redis.entries g.stream ++ entry ∷ []));
      }
      else g

  unfoldable pub logger_step : LoggerEvent → OraLogger → Option OraLogger
  unfolding pass_request pass_msgs pass_metrics take_request take_msgs step_ora write_entry
  logger_step request_passed g = some (pass_request g)
  logger_step msgs_passed g = some (pass_msgs g g.redis_cntrl.send_msg_chan)
  logger_step metrics_passed g = some (pass_metrics g)
  logger_step (request_handled deletes answers) g = some (take_request deletes answers g)
  logger_step msgs_received g = take_msgs g g.receive_msg_chan
  logger_step (ora_went_on event) g = step_ora event g
  logger_step (entry_written entry) g = some (write_entry entry g)

  unfoldable pub logger_run : List LoggerEvent → OraLogger → Option OraLogger
  unfolding logger_step bind
  logger_run [] g = some g
  logger_run (event ∷ events) g = bind (logger_step event g) (logger_run events)

  -- The logger with a connected reader and a stream, before the first settings of the database.
  unfoldable pub new_logger : LoggerState → RedisCntrlSettings → redis.Stream → OraLogger
  unfolding new_ora_run new_redis_controller connect_to_server
  new_logger state setts s = record {
    ora = new_ora_run pq state;
    request_msg_chan = 0;
    redis_cntrl = connect_to_server none (record (new_redis_controller state) { setts = setts });
    stream = s;
    written = redis.entries s;
    lost = [];
    receive_msg_chan = [];
  }
