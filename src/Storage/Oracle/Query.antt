-- ===== src/Storage/Oracle/Query.antt =====
-- ora_logger/ora_cntrl: the queries, their priorities, and what the controller relies on of the
-- priority queue of github.com/golang-collections/go-datastructures.
use fmtp.Prelude.{
  ℕ, suc, ◌≡◌, Option, none, some, List, [], length, Bytes, codes, ◌==◌, ltb, if◌then◌else◌, ℤ, pos,
  negsuc, nat_eq, All,
}
use fmtp.Storage.Message.{LogMessage}

abbrev pub log_priority : ℕ
log_priority = 0

abbrev pub check_log_count_priority : ℕ
check_log_count_priority = 1

abbrev pub check_log_livetime_priority : ℕ
check_log_livetime_priority = 2

abbrev pub heartbeat_priority : ℕ
heartbeat_priority = 3

-- The text of a query, as the values that are put into it.
pub data QueryText : Type 0 where
  ora_check_log_count_query : ℤ → ℤ → QueryText
  ora_check_log_livetime_query : Bytes → QueryText
  ora_insert_log_query : List LogMessage → QueryText
  ora_heartbeat_query : QueryText

pub record QueueItem : Type 0 where
  pub query_text : QueryText
  pub priority : ℕ
  pub count_msg : ℕ

-- `Compare`, whose argument is always a `queueItem` here.
unfoldable pub compare_items : QueueItem → QueueItem → ℤ
compare_items qi other = if ltb qi.priority other.priority then pos 1 else negsuc 0

unfoldable pub prior_to_string : ℕ → Bytes
prior_to_string val =
    if val == log_priority
    then codes "log"
    else if val == check_log_count_priority
    then codes "check_count"
    else if val == check_log_livetime_priority
    then codes "check_time"
    else if val == heartbeat_priority
    then codes "heartbeat"
    else []

-- The messages that a query writes to the database.
abbrev pub logs_in : QueryText → List LogMessage
logs_in (ora_insert_log_query logs) = logs
logs_in (ora_check_log_count_query online storage) = []
logs_in (ora_check_log_livetime_query date) = []
logs_in ora_heartbeat_query = []

-- The queue of the library. `get` is `Get(1)` at a queue that is not empty; which item it returns
-- first is its own affair, but items come from the queue, and none is lost or comes twice.
pub record PriorityQueue : Type 1 where
  pub Queue : Type 0
  pub new_priority_queue : Queue
  pub put : QueueItem → Queue → Queue
  pub get : Queue → Option (QueueItem × Queue)
  pub contents : Queue → List QueueItem
  pub len : Queue → ℕ
  pub len-contents : (q : Queue) → len q ≡ length (contents q)
  pub contents-new : contents new_priority_queue ≡ []
  pub length-put :
      (item : QueueItem) (q : Queue) → length (contents (put item q)) ≡ suc (length (contents q))
  pub put-All :
      (P : QueueItem → Type 0) (item : QueueItem) (q : Queue)
      → P item
      → All P (contents q)
      → All P (contents (put item q))
  pub get-none : (q : Queue) → get q ≡ none → contents q ≡ []
  pub get-some :
      (P : QueueItem → Type 0) (item : QueueItem) (q rest : Queue)
      → get q ≡ some (item, rest)
      → All P (contents q)
      → (length (contents q) ≡ suc (length (contents rest))) × P item × All P (contents rest)
