-- ===== src/Storage/Oracle/Text/Literals.antt =====
-- The literals in the text of a query.
use fmtp.Prelude.{
  ℕ, ◌≡◌, refl, ap, ◌∙◌, false, ◌==◌, nat_eq, List, [], ◌∷◌, ◌++◌, Bytes, codes, arith, All,
  Bool-cases, inl, inr,
}
use mathlib.Core.List.{append-nil, append_assoc}
use fmtp.Storage.Decimal.{itoa, itoa-IsSigned, IsSigned}
use fmtp.Storage.Parts.{count, total}
use fmtp.Storage.Message.{LogMessage}
use fmtp.Storage.Oracle.Query.{
  QueryText, ora_check_log_count_query, ora_check_log_livetime_query, ora_insert_log_query,
  ora_heartbeat_query,
}
use fmtp.Storage.Oracle.Text.{
  quote, quoted, value_list, values_of_msg, online_log_into, storage_log_into, insert_into,
  insert_all, query_text_of, outside, inside, literals, values_of_msgs, values_of, quotes_in_msgs,
  quotes_in,
}

count_signed : (s : Bytes) → All IsSigned s → count quote s ≡ 0
unfolding count
count_signed [] h = refl
count_signed (c ∷ s) (h, hs) = ground (arith, count_signed s hs)

literals-plain :
    (text rest : Bytes)
    → count quote text ≡ 0
    → literals outside (text ++ rest) ≡ literals outside rest
unfolding literals count
literals-plain [] rest h = refl
literals-plain (c ∷ text) rest h = elim (Bool-cases (c == quote)) [
  | inl here ↦ absurd (omega (arith, rw here at h))
  | inr other ↦ rw other (literals-plain text rest (rw other at h))
]

literals-inside :
    (text rest read : Bytes)
    → count quote text ≡ 0
    → literals (inside read) (text ++ rest) ≡ literals (inside (read ++ text)) rest
unfolding literals count
literals-inside [] rest read h = rw (append-nil read) refl
literals-inside (c ∷ text) rest read h = elim (Bool-cases (c == quote)) [
  | inl here ↦ absurd (omega (arith, rw here at h))
  | inr other ↦ rw other (
      literals-inside text rest (read ++ c ∷ []) (rw other at h)
      ∙ ap (λ all. literals (inside all) rest) (append_assoc read (c ∷ []) text))
]

literals-quoted :
    (value : Bytes) (c : ℕ) (rest : Bytes)
    → count quote value ≡ 0
    → (c == quote) ≡ false
    → literals outside (quoted value ++ c ∷ rest) ≡ value ∷ literals outside rest
unfolding literals
literals-quoted value c rest h other =
    ap (literals (inside [])) (append_assoc value (quote ∷ []) (c ∷ rest))
    ∙ literals-inside value (quote ∷ c ∷ rest) [] h
    ∙ rw other refl

literals-value_list :
    (values : List Bytes) (c : ℕ) (rest : Bytes)
    → total quote values ≡ 0
    → (c == quote) ≡ false
    → literals outside (value_list values ++ c ∷ rest) ≡ values ++ literals outside rest
unfolding value_list literals count
literals-value_list [] c rest h other = rw other refl
literals-value_list (value ∷ []) c rest h other =
    literals-quoted value c rest (omega (arith, h)) other
literals-value_list (value ∷ next ∷ values) c rest h other =
    let others = value_list (next ∷ values) in
    ap (literals outside) (append_assoc (quoted value) (codes ", " ++ others) (c ∷ rest))
    ∙ literals-quoted value b',' (b' ' ∷ (others ++ c ∷ rest)) (omega (arith, h)) refl
    ∙ ap (λ list. value ∷ list)
        (literals-plain (codes " ") (others ++ c ∷ rest) refl
          ∙ literals-value_list (next ∷ values) c rest (omega (arith, h)) other)

literals-insert_into :
    (into : Bytes) (val : LogMessage) (rest : Bytes)
    → count quote into ≡ 0
    → total quote (values_of_msg val) ≡ 0
    → literals outside (insert_into into val ++ rest) ≡ values_of_msg val ++ literals outside rest
unfolding insert_into count
literals-insert_into into val rest plain h =
    ap (literals outside) (append_assoc into (value_list (values_of_msg val) ++ codes ") ") rest)
    ∙ literals-plain into ((value_list (values_of_msg val) ++ codes ") ") ++ rest) plain
    ∙ ap (literals outside) (append_assoc (value_list (values_of_msg val)) (codes ") ") rest)
    ∙ literals-value_list (values_of_msg val) b')' (b' ' ∷ rest) h refl
    ∙ ap (λ list. values_of_msg val ++ list) (literals-plain (codes " ") rest refl)

literals-insert_all :
    (log_msgs : List LogMessage)
    → quotes_in_msgs log_msgs ≡ 0
    → literals outside (insert_all log_msgs) ≡ values_of_msgs log_msgs
unfolding insert_all count literals
literals-insert_all [] h = literals-plain (codes " SELECT 1 FROM dual") [] refl
literals-insert_all (val ∷ log_msgs) h =
    literals-insert_into online_log_into val _ refl (omega (arith, h))
    ∙ ap (λ list. values_of_msg val ++ list)
        (literals-insert_into storage_log_into val _ refl (omega (arith, h))
          ∙ ap (λ list. values_of_msg val ++ list)
              (literals-insert_all log_msgs (omega (arith, h))))

-- Where no apostrophe stands in what is put into a query, the string literals in its text are, in
-- their order, the values that the query is to give the database: those of every message twice, for
-- the two tables, the date, or the text of the heartbeat.
pub literals-query_text_of :
    (query : QueryText)
    → quotes_in query ≡ 0
    → literals outside (query_text_of query) ≡ values_of query
unfolding query_text_of count literals
literals-query_text_of (ora_check_log_count_query online storage) h =
    let last = codes "); COMMIT; END;" in
    let between = codes ", " ++ (itoa storage ++ last) in
    literals-plain (codes "BEGIN LOG_PROC_PKG.CHECK_LOG_COUNT(") (itoa online ++ between) refl
    ∙ literals-plain (itoa online) between (count_signed (itoa online) (itoa-IsSigned online))
    ∙ literals-plain (codes ", ") (itoa storage ++ last) refl
    ∙ literals-plain (itoa storage) last (count_signed (itoa storage) (itoa-IsSigned storage))
    ∙ literals-plain last [] refl
literals-query_text_of (ora_check_log_livetime_query date) h =
    let last = codes "; COMMIT; END;" in
    literals-plain (codes "BEGIN LOG_PROC_PKG.CHECK_LOG_LIFETIME(") (quoted date ++ b')' ∷ last)
      refl
    ∙ literals-quoted date b')' last h refl
    ∙ ap (λ list. date ∷ list) (literals-plain last [] refl)
literals-query_text_of (ora_insert_log_query log_msgs) h =
    literals-plain (codes "INSERT ALL ") (insert_all log_msgs) refl ∙ literals-insert_all log_msgs h
literals-query_text_of ora_heartbeat_query h = refl
