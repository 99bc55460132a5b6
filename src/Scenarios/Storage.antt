-- ===== src/Scenarios/Storage.antt =====
-- The theorems about the storage of the journal applied to a controller with a list as its queue.
use fmtp.Prelude.{
  suc, ◌+◌, ◌≤◌, ◌≡◌, refl, ap, subst, true, false, Option, none, some, List, [], ◌∷◌, ◌++◌, length,
  All, Bytes, bytes_beq, codes, ℤ, pos, negsuc, ◌==◌, int_eq, nat_eq, if◌then◌else◌, Bool-cases,
  inl, inr, arith,
}
use mathlib.Core.Option.{some-injective}
use fmtp.Storage.Decimal.{itoa, atoi}
use fmtp.Storage.Parts.{join, split, count}
use fmtp.Storage.Message.{
  LogMessage, log_cntrl_sdt, severity_info, marshal_to_string, unmarshal_from_string,
}
use fmtp.Storage.Message.RoundTrip.{comma_count, unmarshal_from_string-marshal_to_string}
use fmtp.Storage.State.{LoggerState}
use fmtp.Storage.Oracle.Settings.{OraCntrlSettings, no_setts, equal, SameDb-refl}
use fmtp.Storage.Oracle.Query.{
  QueueItem, PriorityQueue, compare_items, QueryText, ora_insert_log_query,
  ora_check_log_livetime_query,
}
use fmtp.Storage.Oracle.Controller.{
  OraCntrlr, set_state, connected, ping_failed, is_gone, contains, new_ora_controller,
}
use fmtp.Storage.Oracle.Text.{literals, outside, query_text_of, values_of}
use fmtp.Storage.Oracle.Text.Literals.{literals-query_text_of}
use fmtp.Storage.Oracle.System.{
  new_settings, log_msgs_received, exec_result, query_taken, query_finished, executor_quit,
  ping_ticked, run,
}
use fmtp.Storage.Oracle.System.Sound.{Holds, sent, IsSound}
use fmtp.Storage.Oracle.Bounded.{
  OraRun, BoundedEvent, ora_stepped, request_read, metrics_read, new_ora_run, bounded_run,
}
use fmtp.Storage.Oracle.Bounded.InOrder.{arrived, KeepsBoundedDb, bounded_run-in_order}
use fmtp.Storage.Oracle.System.Frame.{IfSome}
use fmtp.Storage.Oracle.System.Stalled.{run-gone}
use fmtp.Storage.Oracle.System.StaleTerm.{run-stale_term}
use fmtp.Storage.Redis.{Entry, RedisStream, RedisCntrl, new_redis_controller, without, messages_in}
use fmtp.Storage.Redis.Once.{account, handle_requests, handle_requests-account}
use fmtp.Storage.Redis.Commas.{entries_of, without_commas, messages_in-entries_of}

-- Before the items that are not greater.
abbrev pub place : QueueItem → List QueueItem → List QueueItem
unfolding compare_items
place item [] = item ∷ []
place item (first ∷ others) =
    if compare_items item first == negsuc 0
    then item ∷ first ∷ others
    else first ∷ place item others

abbrev pub first_of : List QueueItem → Option (QueueItem × List QueueItem)
first_of [] = none
first_of (item ∷ others) = some (item, others)

pub length-place :
    (item : QueueItem) (items : List QueueItem) → length (place item items) ≡ suc (length items)
unfolding place
length-place item [] = refl
length-place item (first ∷ others) = elim (Bool-cases (compare_items item first == negsuc 0)) [
  | inl before ↦ rw before refl
  | inr after ↦ rw after (ap suc (length-place item others))
]

pub place-All :
    (P : QueueItem → Type 0) (item : QueueItem) (items : List QueueItem)
    → P item
    → All P items
    → All P (place item items)
unfolding place
place-All P item [] h hs = (h, tt)
place-All P item (first ∷ others) h (f, hs) =
    elim (Bool-cases (compare_items item first == negsuc 0)) [
      | inl before ↦ rw before (h, (f, hs))
      | inr after ↦ rw after (f, place-All P item others h hs)
    ]

pub first_of-none : (items : List QueueItem) → first_of items ≡ none → items ≡ []
first_of-none [] e = refl
first_of-none (item ∷ others) e = cc

pub first_of-some :
    (P : QueueItem → Type 0) (item : QueueItem) (items rest : List QueueItem)
    → first_of items ≡ some (item, rest)
    → All P items
    → (length items ≡ suc (length rest)) × P item × All P rest
first_of-some P item [] rest e hs = cc
first_of-some P item (first ∷ others) rest e (h, hs) =
    subst (λ p. (suc (length others) ≡ suc (length p.1)) × P p.0 × All P p.1) (some-injective _ _ e)
      (refl, h, hs)

abbrev pub sorted_list : PriorityQueue
unfolding place
sorted_list = record {
  Queue = List QueueItem;
  new_priority_queue = [];
  put = place;
  get = first_of;
  contents = λ items. items;
  len = length;
  len-contents = λ items. refl;
  contents-new = refl;
  length-put = length-place;
  put-All = place-All;
  get-none = first_of-none;
  get-some = first_of-some;
}

abbrev pub setts_at : Bytes → OraCntrlSettings
setts_at host = record no_setts {
  hostname = host;
  port = pos 1521;
  service_name = codes "metplan";
  log_store_max_count = pos 1000;
  log_store_days = pos 30;
}

abbrev pub log_at : Bytes → LogMessage
unfolding log_cntrl_sdt
log_at text = log_cntrl_sdt severity_info (codes "OLDI") text (codes "2022-02-18 15:49:00.000")

abbrev pub logger : LoggerState
logger = record {
  logger_id = [];
  ip_addr = [];
  common_state = [];
  ora_connected = [];
  ora_error = [];
  redis_connected = codes "ok";
  redis_error = [];
  metrics_state = codes "ok";
  metrics_error = [];
}

abbrev journal_events : List BoundedEvent
journal_events =
    ora_stepped query_taken
    ∷ metrics_read
    ∷ ora_stepped (query_finished 0 none)
    ∷ ora_stepped exec_result
    ∷ ora_stepped query_taken
    ∷ ora_stepped (log_msgs_received (log_at (codes "one") ∷ log_at (codes "two") ∷ []))
    ∷ ora_stepped (query_finished 0 none)
    ∷ request_read
    ∷ ora_stepped exec_result
    ∷ ora_stepped query_taken
    ∷ ora_stepped ping_ticked
    ∷ ora_stepped (query_finished 0 (some (codes "timeout")))
    ∷ []

abbrev InOrderAtMostOne : Option (OraRun sorted_list) → Type 0
InOrderAtMostOne = Holds (λ b.
    (sent sorted_list b.ora_cntrl ++ b.ora_cntrl.log_msg_buffer
      ≡ log_at (codes "one") ∷ log_at (codes "two") ∷ [])
    × (length b.ora_cntrl.exec_query_chan + length b.ora_cntrl.executing ≤ 1))

bounded_run-in_order_example : InOrderAtMostOne (
    bounded_run sorted_list
      (ora_stepped (new_settings (setts_at (codes "a")) connected (codes "2022-01-19 00:00:00"))
        ∷ journal_events)
      (new_ora_run sorted_list logger))
unfolding equal bytes_beq arrived bounded_run new_ora_run sorted_list set_state
bounded_run-in_order_example =
    bounded_run-in_order sorted_list (setts_at (codes "a")) connected (codes "2022-01-19 00:00:00")
      logger journal_events refl tt keeps
  where
    keeps : All (KeepsBoundedDb sorted_list (setts_at (codes "a"))) journal_events
    keeps = ground arith

-- The controller that executes a query when the database goes away.
abbrev at_work : OraCntrlr sorted_list
unfolding new_ora_controller
at_work = record (new_ora_controller sorted_list logger) {
  cur_setts = setts_at (codes "a");
  has_db = true;
  db_success = true;
  exec_result_chan = some (codes "sql: database is closed") ∷ [];
  executors = 1;
}

at_work-IsSound : IsSound sorted_list (setts_at (codes "a")) [] at_work
unfolding at_work new_ora_controller sorted_list
at_work-IsSound = record {
  opened = (refl, SameDb-refl (setts_at (codes "a")));
  one_token = omega arith;
  checks = tt;
  in_order = refl;
}

run-gone_example :
    IfSome
      (λ (last : OraCntrlr sorted_list). last.executed ≡ at_work.executed)
      (run sorted_list
        (exec_result ∷ log_msgs_received (log_at (codes "one") ∷ []) ∷ query_taken ∷ [])
        at_work)
unfolding is_gone contains at_work
run-gone_example =
    run-gone sorted_list (setts_at (codes "a")) (codes "sql: database is closed") [] []
      (log_msgs_received (log_at (codes "one") ∷ []) ∷ query_taken ∷ []) at_work at_work-IsSound
      refl refl (tt, (tt, tt))

run-stale_term_example :
    IfSome
      (λ (last : OraCntrlr sorted_list). last.executed ≡ [])
      (run sorted_list
        (new_settings (setts_at (codes "a")) (ping_failed (codes "timeout")) (codes "2022-01-19")
          ∷ new_settings (setts_at (codes "b")) connected (codes "2022-01-19")
          ∷ executor_quit
          ∷ log_msgs_received (log_at (codes "one") ∷ [])
          ∷ query_taken
          ∷ [])
        (new_ora_controller sorted_list logger))
unfolding equal bytes_beq
run-stale_term_example =
    run-stale_term sorted_list (setts_at (codes "a")) (setts_at (codes "b")) (codes "timeout")
      (codes "2022-01-19") (codes "2022-01-19") logger
      (log_msgs_received (log_at (codes "one") ∷ []) ∷ query_taken ∷ []) refl refl (tt, (tt, tt))

unmarshal_from_string-marshal_to_string_example :
    unmarshal_from_string (marshal_to_string (log_at (codes "stopped, code 1"))) ≡ (
      if comma_count (log_at (codes "stopped, code 1")) == 0
      then some (log_at (codes "stopped, code 1"))
      else none)
unmarshal_from_string-marshal_to_string_example =
    unmarshal_from_string-marshal_to_string (log_at (codes "stopped, code 1"))

-- The message with a comma is refused, and the one without is read back.
comma_is_refused :
    (unmarshal_from_string (marshal_to_string (log_at (codes "stopped, code 1"))) ≡ none)
    × (unmarshal_from_string (marshal_to_string (log_at (codes "stopped")))
        ≡ some (log_at (codes "stopped")))
unfolding unmarshal_from_string marshal_to_string log_at split join itoa atoi
comma_is_refused = (refl, refl)

-- A stream as a list that gives at most one entry at a time.
abbrev pub one_of : List Entry → List Entry
one_of [] = []
one_of (entry ∷ others) = entry ∷ []

pub one_of-front : (count : ℤ) (s : List Entry) → (rest : List Entry) × (s ≡ one_of s ++ rest)
one_of-front count [] = ([], refl)
one_of-front count (entry ∷ others) = (others, refl)

abbrev pub list_stream : RedisStream
list_stream = record {
  Stream = List Entry;
  entries = λ s. s;
  xread = λ count s. one_of s;
  xdel = without;
  xread-entries = one_of-front;
  entries-xdel = λ ids s. refl;
}

abbrev pub two_entries : List Entry
two_entries =
    entries_of
      ((codes "1-0", log_at (codes "one")) ∷ (codes "2-0", log_at (codes "two, three")) ∷ [])

abbrev reader : RedisCntrl
unfolding new_redis_controller
reader = record (new_redis_controller logger) { success_connect = true }

handle_requests-account_example :
    account list_stream
      (handle_requests list_stream (true ∷ false ∷ true ∷ []) (reader, two_entries))
    ≡ account list_stream (reader, two_entries)
unfolding reader entries_of bytes_beq
handle_requests-account_example =
    handle_requests-account list_stream (true ∷ false ∷ true ∷ []) reader two_entries refl
      ((refl, tt), (tt, tt))

messages_in-entries_of_example :
    messages_in two_entries
    ≡ without_commas
        ((codes "1-0", log_at (codes "one")) ∷ (codes "2-0", log_at (codes "two, three")) ∷ [])
messages_in-entries_of_example =
    messages_in-entries_of
      ((codes "1-0", log_at (codes "one")) ∷ (codes "2-0", log_at (codes "two, three")) ∷ [])

abbrev plain_query : QueryText
plain_query = ora_insert_log_query (log_at (codes "one") ∷ log_at (codes "two") ∷ [])

literals-query_text_of_example :
    literals outside (query_text_of plain_query) ≡ values_of plain_query
unfolding log_at count itoa
literals-query_text_of_example = literals-query_text_of plain_query refl

-- The literal ends at the apostrophe of the text.
quote_ends_literal :
    literals outside (query_text_of (ora_check_log_livetime_query (codes "it's"))) ≡ codes "it" ∷ []
unfolding query_text_of literals
quote_ends_literal = refl
