-- ===== src/Storage/Redis.antt =====
-- ora_logger/redis_cntrl/redis_cntrl.go: the reading of the journal from a stream of Redis. The
-- stream itself, and whether Redis answers, are parameters.
pub mod Entries
pub mod Once
pub mod Commas
use fmtp.Prelude.{
  ℕ, ◌+◌, ◌≡◌, Bool, true, false, not, ◌&&◌, ◌||◌, Option, none, some, List, [], ◌∷◌, ◌++◌, map,
  length, Bytes, codes, bytes_eq, ◌==◌, int_eq, ltb, if◌then◌else◌, ℤ, pos,
}
use fmtp.Storage.Message.{LogMessage, unmarshal_from_string}
use fmtp.Storage.State.{LoggerState, state_ok, state_error, set_redis_state}

pub record RedisCntrlSettings : Type 0 where
  pub hostname : Bytes
  pub port : ℤ
  pub db_id : ℤ
  pub user_name : Bytes
  pub password : Bytes
  pub max_read_count : ℤ

-- Go's `==` at the settings.
abbrev pub same_setts : RedisCntrlSettings → RedisCntrlSettings → Bool
same_setts a b =
    a.hostname == b.hostname
    && a.port == b.port
    && a.db_id == b.db_id
    && a.user_name == b.user_name
    && a.password == b.password
    && a.max_read_count == b.max_read_count

-- An entry of the stream: its id, and the text under the key `msg` if there is one.
abbrev pub Entry : Type 0
Entry = Bytes × Option Bytes

abbrev pub mem : Bytes → List Bytes → Bool
mem id [] = false
mem id (other ∷ others) = id == other || mem id others

-- The entries that are not among the ids.
unfoldable pub without : List Bytes → List Entry → List Entry
without ids [] = []
without ids ((id, value) ∷ entries) =
    let rest = without ids entries in if mem id ids then rest else (id, value) ∷ rest

-- What the controller relies on of Redis: XREAD from the start of the stream gives entries from its
-- front, and XDEL takes away the entries with the ids.
pub record RedisStream : Type 1 where
  pub Stream : Type 0
  pub entries : Stream → List Entry
  pub xread : ℤ → Stream → List Entry
  pub xdel : List Bytes → Stream → Stream
  pub xread-entries :
      (count : ℤ) (s : Stream) → (rest : List Entry) × (entries s ≡ xread count s ++ rest)
  pub entries-xdel :
      (ids : List Bytes) (s : Stream) → entries (xdel ids s) ≡ without ids (entries s)

pub record RedisCntrl : Type 0 where
  pub setts : RedisCntrlSettings
  pub success_connect : Bool
  pub prev_read_ids : List Bytes
  -- What has been written to `SendMsgChan`, and the counts of `RedisMetrics`.
  pub send_msg_chan : List (List LogMessage)
  pub metrics : List ℕ
  -- The global `CommonLoggerState`.
  pub logger_state : LoggerState

unfoldable pub new_redis_controller : LoggerState → RedisCntrl
new_redis_controller state = record {
  setts = record {
    hostname = [];
    port = pos 0;
    db_id = pos 0;
    user_name = [];
    password = [];
    max_read_count = pos 0;
  };
  success_connect = false;
  prev_read_ids = [];
  send_msg_chan = [];
  metrics = 0 ∷ [];
  logger_state = state;
}

-- The answer to the ping is an error or none.
unfoldable pub connect_to_server : Option Bytes → RedisCntrl → RedisCntrl
unfolding set_redis_state
connect_to_server none c = record c {
  success_connect = true;
  logger_state = set_redis_state state_ok [] c.logger_state;
}
connect_to_server (some err) c = record c {
  success_connect = false;
  logger_state = set_redis_state state_error err c.logger_state;
}

-- The case of `SettsChan`.
unfoldable pub change_setts : RedisCntrlSettings → Option Bytes → RedisCntrl → RedisCntrl
unfolding connect_to_server
change_setts setts answer c =
    if same_setts c.setts setts then c else connect_to_server answer (record c { setts = setts })

abbrev pub message_of : Option LogMessage → List LogMessage → List LogMessage
message_of none others = others
message_of (some msg) others = msg ∷ others

-- The messages that can be read; the others are left out.
unfoldable pub messages_in : List Entry → List LogMessage
unfolding unmarshal_from_string
messages_in [] = []
messages_in ((id, none) ∷ entries) = messages_in entries
messages_in ((id, some text) ∷ entries) =
    message_of (unmarshal_from_string text) (messages_in entries)

abbrev pub ids_of : List Entry → List Bytes
ids_of [] = []
ids_of ((id, value) ∷ entries) = id ∷ ids_of entries

module _ (redis : RedisStream) where
  open redis use {Stream, entries, xread, xdel}

  -- The flag says that Redis deletes. `delLogsFromStream`, and what `Run` does after it.
  unfoldable pub delete_read : Bool → RedisCntrl × Stream → RedisCntrl × Stream
  delete_read deletes (c, s) =
      if ltb 0 (length c.prev_read_ids) && (c.success_connect && deletes)
      then (record c { prev_read_ids = [] }, xdel c.prev_read_ids s)
      else (c, s)

  abbrev pub send_msgs : List LogMessage → RedisCntrl → RedisCntrl
  send_msgs msgs c =
      if ltb 0 (length msgs) then record c { send_msg_chan = c.send_msg_chan ++ msgs ∷ [] } else c

  unfoldable pub take_entries : List Entry → RedisCntrl → RedisCntrl
  unfolding messages_in
  take_entries vals c = send_msgs (messages_in vals) (record c {
    prev_read_ids = c.prev_read_ids ++ ids_of vals;
    metrics = c.metrics ++ length (messages_in vals) ∷ [];
  })

  -- The flag says that Redis answers; an error comes with no entries. `readLogsFromStream`, and what
  -- `Run` does after it.
  unfoldable pub read_new : Bool → RedisCntrl → Stream → RedisCntrl
  unfolding take_entries
  read_new answers c s =
      if c.success_connect
      then if answers
        then take_entries (xread c.setts.max_read_count s) c
        else record c { metrics = c.metrics ++ 0 ∷ [] }
      else c

  -- The case of `RequestMsgChan`.
  unfoldable pub handle_request : Bool → Bool → RedisCntrl × Stream → RedisCntrl × Stream
  unfolding delete_read read_new
  handle_request deletes answers (c, s) =
      let (after, left) = delete_read deletes (c, s) in (read_new answers after left, left)
