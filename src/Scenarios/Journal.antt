-- ===== src/Scenarios/Journal.antt =====
-- The theorem about the way of the journal applied to a list as the stream.
use fmtp.Prelude.{drop, length, ◌-◌, refl, true, none, some, List, [], ◌∷◌, ◌++◌, codes}
use fmtp.Storage.Message.{marshal_to_string}
use fmtp.Storage.Redis.{RedisCntrlSettings, new_redis_controller}
use fmtp.Storage.Oracle.System.{query_taken, query_finished, exec_result}
use fmtp.Storage.Logger.{
  StreamWriter, LoggerEvent, request_passed, msgs_passed, request_handled, msgs_received,
  ora_went_on, entry_written,
}
use fmtp.Scenarios.Storage.{sorted_list, log_at, logger, list_stream}

-- It keeps at most three entries.
abbrev list_writer : StreamWriter list_stream
list_writer = record {
  xadd = λ entry s. drop (length s - 2) (s ++ entry ∷ []);
  trimmed = λ entry s. length s - 2;
  entries-xadd = λ entry s. refl;
}

abbrev Event : Type 0
Event = LoggerEvent sorted_list list_stream list_writer

abbrev reader_setts : RedisCntrlSettings
unfolding new_redis_controller
reader_setts = (new_redis_controller logger).setts

-- The first request is handled, an entry comes, and the message reaches the database.
abbrev journal_way : List Event
journal_way =
    request_passed
    ∷ request_handled true true
    ∷ entry_written (codes "3-0", some (marshal_to_string (log_at (codes "three"))))
    ∷ msgs_passed
    ∷ msgs_received
    ∷ ora_went_on query_taken
    ∷ ora_went_on (query_finished 0 none)
    ∷ ora_went_on exec_result
    ∷ request_handled true true
    ∷ []
