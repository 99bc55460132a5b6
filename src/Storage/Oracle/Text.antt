-- ===== src/Storage/Oracle/Text.antt =====
-- ora_logger/ora_cntrl/ora_queries_text.go: the texts of the queries, and what the string literals in
-- a text are by the rules of SQL.
pub mod Literals
use fmtp.Prelude.{ℕ, ◌+◌, Bool, if◌then◌else◌, ◌==◌, nat_eq, List, [], ◌∷◌, ◌++◌, Bytes, codes, ℤ}
use fmtp.Storage.Decimal.{itoa}
use fmtp.Storage.Parts.{count, total}
use fmtp.Storage.Message.{LogMessage}
use fmtp.Storage.Oracle.Query.{
  QueryText, ora_check_log_count_query, ora_check_log_livetime_query, ora_insert_log_query,
  ora_heartbeat_query,
}

-- The apostrophe.
abbrev pub quote : ℕ
quote = 39

abbrev pub quoted : Bytes → Bytes
quoted value = quote ∷ (value ++ quote ∷ [])

-- The values of a message, between commas.
unfoldable pub value_list : List Bytes → Bytes
value_list [] = []
value_list (value ∷ []) = quoted value
value_list (value ∷ next ∷ values) = quoted value ++ (codes ", " ++ value_list (next ∷ values))

abbrev pub values_of_msg : LogMessage → List Bytes
values_of_msg val =
    val.controller_ip
    ∷ itoa val.channel_id
    ∷ val.channel_loc_name
    ∷ val.channel_rem_name
    ∷ val.data_type
    ∷ val.source
    ∷ val.severity
    ∷ val.fmtp_type
    ∷ val.direction
    ∷ val.date_time
    ∷ val.text
    ∷ []

abbrev pub new_line : Bytes
new_line = 10 ∷ 9 ∷ 9 ∷ []

abbrev pub columns : Bytes
columns =
    codes
      "(CntrlIP, DaemonID, LocalName, RemoteName, DataType, Source, Severity, FmtpType, Direction, DateTime, Text)"

abbrev pub online_log_into : Bytes
online_log_into =
    codes "INTO fmtp_online" ++ new_line ++ codes " " ++ columns ++ new_line ++ codes " VALUES ("

abbrev pub storage_log_into : Bytes
storage_log_into =
    codes "INTO fmtp_storage " ++ new_line ++ columns ++ codes " " ++ new_line ++ codes "VALUES ("

unfoldable pub insert_into : Bytes → LogMessage → Bytes
unfolding value_list
insert_into into val = into ++ (value_list (values_of_msg val) ++ codes ") ")

unfoldable pub insert_all : List LogMessage → Bytes
unfolding insert_into
insert_all [] = codes " SELECT 1 FROM dual"
insert_all (val ∷ log_msgs) =
    insert_into online_log_into val ++ (insert_into storage_log_into val ++ insert_all log_msgs)

unfoldable pub query_text_of : QueryText → Bytes
unfolding insert_all
query_text_of (ora_check_log_count_query online storage) =
    codes "BEGIN LOG_PROC_PKG.CHECK_LOG_COUNT("
    ++ (itoa online ++ (codes ", " ++ (itoa storage ++ codes "); COMMIT; END;")))
query_text_of (ora_check_log_livetime_query date) =
    codes "BEGIN LOG_PROC_PKG.CHECK_LOG_LIFETIME(" ++ (quoted date ++ codes "); COMMIT; END;")
query_text_of (ora_insert_log_query log_msgs) = codes "INSERT ALL " ++ insert_all log_msgs
query_text_of ora_heartbeat_query =
    codes "SELECT " ++ (quoted (codes "heartbeat") ++ codes " FROM dual")

-- Where a reader of SQL is: outside of a literal, in one that has begun with the given characters,
-- or behind an apostrophe that ends the literal, unless another follows, which is then a character
-- of the literal.
pub data Place : Type 0 where
  outside : Place
  inside closing : Bytes → Place

abbrev pub next_place : ℕ → Place → Place
next_place c outside = if c == quote then inside [] else outside
next_place c (inside read) = if c == quote then closing read else inside (read ++ c ∷ [])
next_place c (closing read) = if c == quote then inside (read ++ c ∷ []) else outside

abbrev pub ended : ℕ → Place → List Bytes
ended c outside = []
ended c (inside read) = []
ended c (closing read) = if c == quote then [] else read ∷ []

abbrev pub ended_last : Place → List Bytes
ended_last outside = []
ended_last (inside read) = []
ended_last (closing read) = read ∷ []

-- The literals of a text.
unfoldable pub literals : Place → Bytes → List Bytes
literals place [] = ended_last place
literals place (c ∷ text) = ended c place ++ literals (next_place c place) text

-- What a query is to say.
abbrev pub values_of_msgs : List LogMessage → List Bytes
values_of_msgs [] = []
values_of_msgs (val ∷ log_msgs) =
    values_of_msg val ++ (values_of_msg val ++ values_of_msgs log_msgs)

abbrev pub values_of : QueryText → List Bytes
values_of (ora_check_log_count_query online storage) = []
values_of (ora_check_log_livetime_query date) = date ∷ []
values_of (ora_insert_log_query log_msgs) = values_of_msgs log_msgs
values_of ora_heartbeat_query = codes "heartbeat" ∷ []

-- The apostrophes in what is put into a query.
abbrev pub quotes_in_msgs : List LogMessage → ℕ
quotes_in_msgs [] = 0
quotes_in_msgs (val ∷ log_msgs) = total quote (values_of_msg val) + quotes_in_msgs log_msgs

abbrev pub quotes_in : QueryText → ℕ
quotes_in (ora_check_log_count_query online storage) = 0
quotes_in (ora_check_log_livetime_query date) = count quote date
quotes_in (ora_insert_log_query log_msgs) = quotes_in_msgs log_msgs
quotes_in ora_heartbeat_query = 0
