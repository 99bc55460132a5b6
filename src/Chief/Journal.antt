-- ===== src/Chief/Journal.antt =====
-- chief/chief_logger/redis_logger_controller.go: the journal's queue of log messages for a Redis
-- stream. The lock is held around each change of the queue.
pub mod Bounds
use fmtp.Prelude.{
  ℕ, ◌+◌, ◌-◌, ◌≤◌, ◌≡◌, String, Bool, true, false, not, ◌&&◌, Option, none, some, List, [], ◌∷◌,
  ◌++◌, ◌==◌, if◌then◌else◌, Eq, string_eq, int_eq, ℤ, pos, negsuc, ltb, ltb_ℤ, length, take, drop,
}
use fmtp.Channel.Log.{LogEntry}

pub record RedisLogController : Type 0 where
  pub msg_to_send : List LogEntry
  pub success_connect : Bool
  -- `setts.MaxSendCount`
  pub max_send_count : ℤ
  -- `setts.StreamMaxCount`
  pub stream_max_count : ℤ
  -- What the stream holds, oldest first.
  pub stream : List LogEntry
  -- The counts of `RedisMetrics`.
  pub sent_count : ℕ
  pub err_count : ℕ

unfoldable pub new_redis_controller : RedisLogController
new_redis_controller = record {
  msg_to_send = [];
  success_connect = false;
  max_send_count = pos 0;
  stream_max_count = pos 0;
  stream = [];
  sent_count = 0;
  err_count = 0;
}

-- A full queue drops the message.
unfoldable pub take_log_msg : RedisLogController → LogEntry → RedisLogController
take_log_msg rc msg = record rc {
  msg_to_send =
      if ltb (length rc.msg_to_send) 10000 then rc.msg_to_send ++ msg ∷ [] else rc.msg_to_send;
}

-- The messages of a round, and those that wait; `none` is a slice of negative length.
abbrev pub cut : ℤ → List LogEntry → Option (List LogEntry × List LogEntry)
cut (pos max) list =
    some (if ltb max (length list) then (take max list, drop max list) else (list, []))
cut (negsuc n) list = none

-- How many entries Redis trims off the front of a stream when it adds one, given MAXLEN with `~` and
-- the length that the stream has then: none while it is not longer than that, and never so many that
-- fewer are left. No limit is set by 0.
pub record Trimming : Type 0 where
  pub trimmed : ℤ → ℕ → ℕ
  pub trimmed-within : (max count : ℕ) → trimmed (pos max) count ≤ count - max
  pub trimmed-zero : (count : ℕ) → trimmed (pos 0) count ≡ 0

module _ (redis : Trimming) where
  open redis use {trimmed}

  -- One XADD.
  unfoldable pub x_add : ℤ → List LogEntry → LogEntry → List LogEntry
  x_add max stream msg = drop (trimmed max (length (stream ++ msg ∷ []))) (stream ++ msg ∷ [])

  unfoldable pub x_add_all : ℤ → List LogEntry → List LogEntry → List LogEntry
  unfolding x_add
  x_add_all max stream [] = stream
  x_add_all max stream (msg ∷ msgs) = x_add_all max (x_add max stream msg) msgs

  -- The flag says whether Redis has taken the messages.
  unfoldable pub push_logs_to_stream :
      RedisLogController → List LogEntry → Bool → RedisLogController
  unfolding x_add_all
  push_logs_to_stream rc msgs taken =
      if taken
      then record rc {
        stream = x_add_all rc.stream_max_count rc.stream msgs;
        sent_count = rc.sent_count + length msgs;
      }
      else record rc { err_count = rc.err_count + 1 }

  abbrev pub push_cut :
      RedisLogController → Bool → Option (List LogEntry × List LogEntry) → Option RedisLogController
  unfolding push_logs_to_stream
  push_cut rc taken none = none
  push_cut rc taken (some (to_send, rest)) =
      some (push_logs_to_stream (record rc { msg_to_send = rest }) to_send taken)

  -- The ticker; `none` is a panic.
  unfoldable pub send_to_stream : RedisLogController → Bool → Option RedisLogController
  unfolding push_cut
  send_to_stream rc taken =
      if rc.success_connect && ltb 0 (length rc.msg_to_send)
      then push_cut rc taken (cut rc.max_send_count rc.msg_to_send)
      else some rc
