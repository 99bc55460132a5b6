-- ===== src/Storage/Oracle/System/Sound.antt =====
-- The controller keeps all that it has received, in order: what has gone to the database, then what
-- waits. At most one query is under way.
use fmtp.Prelude.{
  ℕ, ◌+◌, ◌≤◌, ◌≡◌, refl, sym, ap, ◌∙◌, Bool, true, false, Option, none, some, List, [], ◌∷◌, ◌++◌,
  length, nat_eq, ltb, arith, All, Bool-cases, inl, inr, take-append-drop,
}
use mathlib.Core.List.{append-nil, append_assoc}
use mathlib.Core.Option.{bind, map as map_option}
use fmtp.Storage.Message.{LogMessage}
use fmtp.Storage.Oracle.Settings.{OraCntrlSettings, SameDb}
use fmtp.Storage.Oracle.Query.{QueueItem, PriorityQueue, logs_in}
use fmtp.Storage.Oracle.Controller.{
  DbResult, OraCntrlr, max_query_exec, cut_batch, write_query, with_item,
}

abbrev pub logs_of : List QueueItem → List LogMessage
logs_of [] = []
logs_of (item ∷ items) = logs_in item.query_text ++ logs_of items

pub logs_of-append : (xs ys : List QueueItem) → logs_of (xs ++ ys) ≡ logs_of xs ++ logs_of ys
logs_of-append [] ys = refl
logs_of-append (x ∷ xs) ys =
    ap (λ logs. logs_in x.query_text ++ logs) (logs_of-append xs ys)
    ∙ sym (append_assoc (logs_in x.query_text) (logs_of xs) (logs_of ys))

abbrev pub queries_of : List (QueueItem × DbResult) → List QueueItem
queries_of [] = []
queries_of ((item, result) ∷ others) = item ∷ queries_of others

abbrev pub Holds {ℓ} : {A : Type ℓ} → (A → Type 0) → Option A → Type 0
Holds P none = ⊥
Holds P (some a) = P a

module _ {ℓ κ} {A : Type ℓ} {B : Type κ} (P : A → Type 0) (Q : B → Type 0) where
  pub Holds-bind :
      (o : Option A) (f : A → Option B)
      → Holds P o
      → ((a : A) → P a → Holds Q (f a))
      → Holds Q (bind o f)
  unfolding bind
  Holds-bind none f h k = absurd h
  Holds-bind (some a) f h k = k a h

  pub Holds-map :
      (f : A → B) (o : Option A) → Holds P o → ((a : A) → P a → Q (f a)) → Holds Q (map_option f o)
  Holds-map f none h k = absurd h
  Holds-map f (some a) h k = k a h

module _ {ℓ} {A : Type ℓ} (P Q : A → Type 0) where
  pub Holds-weaken : (o : Option A) → Holds P o → ((a : A) → P a → Q a) → Holds Q o
  Holds-weaken none h k = h
  Holds-weaken (some a) h k = k a h

abbrev pub bit : Bool → ℕ
bit true = 1
bit false = 0

abbrev pub IsCheck : QueueItem → Type 0
IsCheck item = logs_in item.query_text ≡ []

pub no_length {ℓ} : {A : Type ℓ} (list : List A) → length list ≡ 0 → list ≡ []
no_length [] h = refl
no_length (x ∷ xs) h = absurd (omega (arith, h))

pub cut_batch-append :
    (buffer : List LogMessage) → (cut_batch buffer).0 ++ (cut_batch buffer).1 ≡ buffer
unfolding cut_batch
cut_batch-append buffer = elim (Bool-cases (ltb max_query_exec (length buffer))) [
  | inl over ↦ rw over (take-append-drop max_query_exec buffer)
  | inr few ↦ rw few (append-nil buffer)
]

module _ (pq : PriorityQueue) where
  -- All the messages that have left the buffer, in the order of the queries.
  abbrev pub sent : OraCntrlr pq → List LogMessage
  sent c = logs_of (queries_of c.executed ++ (c.executing ++ c.exec_query_chan))

  -- The queries that are under way, their results, the wish to disconnect, and the readiness for the
  -- next query.
  abbrev pub tokens : OraCntrlr pq → ℕ
  tokens c =
      c.exec_term_chan
      + length c.exec_query_chan
      + length c.executing
      + length c.exec_result_chan
      + bit c.can_execute

module _ (pq : PriorityQueue) (setts : OraCntrlSettings) where
  open pq use {
    Queue, put, get, contents, len, len-contents, length-put, put-All, get-none, get-some,
  }

  -- The database has been opened, and it is the one of `setts`.
  abbrev pub Opened : OraCntrlr pq → Type 0
  Opened c = (c.has_db ≡ true) × SameDb setts c.cur_setts

  pub record IsSound (received : List LogMessage) (c : OraCntrlr pq) : Type 0 where
    pub opened : Opened c
    pub one_token : tokens pq c ≤ 1
    pub checks : All IsCheck (contents c.query_queue)
    pub in_order : sent pq c ++ c.log_msg_buffer ≡ received

  -- A controller that may execute has nothing under way.
  ready_sent :
      (c : OraCntrlr pq)
      → c.can_execute ≡ true
      → tokens pq c ≤ 1
      → (c.exec_query_chan ≡ [])
        × (c.executing ≡ [])
        × (sent pq c ≡ logs_of (queries_of c.executed))
  ready_sent c can one =
      let no_query = no_length c.exec_query_chan (ground (arith, can, one)) in
      let none_runs = no_length c.executing (ground (arith, can, one)) in
      (
        no_query,
        none_runs,
        rw (no_query, none_runs) (ap logs_of (append-nil (queries_of c.executed))),
      )

  sent_with :
      (c : OraCntrlr pq) (item : QueueItem)
      → c.can_execute ≡ true
      → tokens pq c ≤ 1
      → logs_of (queries_of c.executed ++ (c.executing ++ item ∷ []))
        ≡ sent pq c ++ logs_in item.query_text
  sent_with c item can one =
      let (no_query, none_runs, only_executed) = ready_sent c can one in
      rw (only_executed, none_runs)
        (logs_of-append (queries_of c.executed) (item ∷ [])
          ∙ ap (λ logs. logs_of (queries_of c.executed) ++ logs)
              (append-nil (logs_in item.query_text)))

  pub given :
      (c : OraCntrlr pq) (received : List LogMessage) (item : QueueItem) (rest : Queue)
      → c.can_execute ≡ true
      → Opened c
      → tokens pq c ≤ 1
      → All IsCheck (contents rest)
      → sent pq c ++ (logs_in item.query_text ++ c.log_msg_buffer) ≡ received
      → Holds (IsSound received) (with_item pq c (some (item, rest)))
  unfolding with_item write_query
  given c received item rest can opened one checks in_order = rw (ready_sent c can one).0 (record {
    opened = opened;
    one_token = ground (arith, can, one);
    checks = checks;
    in_order =
        ap (λ logs. logs ++ c.log_msg_buffer) (sent_with c item can one)
        ∙ append_assoc (sent pq c) (logs_in item.query_text) c.log_msg_buffer
        ∙ in_order;
  })
