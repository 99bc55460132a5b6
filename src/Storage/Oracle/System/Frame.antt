-- ===== src/Storage/Oracle/System/Frame.antt =====
-- What looking for a query leaves alone.
use fmtp.Prelude.{
  ℕ, ◌≡◌, refl, sym, ap, ◌∙◌, subst, Bool, true, false, Option, none, some, List, [], length, ◌==◌,
  nat_eq, ltb, if◌then◌else◌, Bool-cases, inl, inr, Bytes,
}
use mathlib.Core.Option.{bind, map as map_option}
use fmtp.Storage.Message.{LogMessage}
use fmtp.Storage.Oracle.Settings.{OraCntrlSettings}
use fmtp.Storage.Oracle.Query.{QueueItem, PriorityQueue}
use fmtp.Storage.Oracle.Controller.{
  DbResult, OraCntrlr, fill_queue, write_query, with_item, hand_over, put_query, check_query_queue,
  check_log_count, check_log_livetime, request_if_idle, put_heartbeat, check_heartbeat,
  check_storage, receive_msgs, append_msgs, reset_count, ping_tick, insert_count_check,
}

-- What holds of the result, if there is one.
abbrev pub IfSome {ℓ} : {A : Type ℓ} → (A → Type 0) → Option A → Type 0
IfSome P none = Unit
IfSome P (some a) = P a

module _ {ℓ κ} {A : Type ℓ} {B : Type κ} (P : A → Type 0) (Q : B → Type 0) where
  pub IfSome-bind :
      (o : Option A) (f : A → Option B)
      → IfSome P o
      → ((a : A) → P a → IfSome Q (f a))
      → IfSome Q (bind o f)
  unfolding bind
  IfSome-bind none f h k = tt
  IfSome-bind (some a) f h k = k a h

  pub IfSome-map :
      (f : A → B) (o : Option A)
      → IfSome P o
      → ((a : A) → P a → Q (f a))
      → IfSome Q (map_option f o)
  IfSome-map f none h k = tt
  IfSome-map f (some a) h k = k a h

module _ (pq : PriorityQueue) where
  -- The controller hands over no query.
  abbrev pub IsQuiet : OraCntrlr pq → Type 0
  IsQuiet c = (c.can_execute ≡ false) × (c.exec_query_chan ≡ [])

  -- The settings, the executors and what they have done.
  abbrev pub Frame : Type 0
  Frame =
      OraCntrlSettings × ℕ × ℕ × List QueueItem × List DbResult × List (QueueItem × DbResult) × Bool

  abbrev pub frame : OraCntrlr pq → Frame
  frame c = (
    c.cur_setts, c.executors, c.exec_term_chan, c.executing, c.exec_result_chan, c.executed,
    c.db_success,
  )

  -- The frame stays, and a quiet controller stays quiet.
  abbrev pub Same : OraCntrlr pq → OraCntrlr pq → Type 0
  Same c next = (frame next ≡ frame c) × (IsQuiet c → IsQuiet next)

  pub Same-refl : (c : OraCntrlr pq) → Same c c
  Same-refl c = (refl, λ q. q)

  pub Same-trans : (a b c : OraCntrlr pq) → Same a b → Same b c → Same a c
  Same-trans a b c ab bc = (bc.0 ∙ ab.0, λ q. bc.1 (ab.1 q))

  Same-bind :
      (c : OraCntrlr pq) (o : Option (OraCntrlr pq)) (f : OraCntrlr pq → Option (OraCntrlr pq))
      → IfSome (Same c) o
      → ((next : OraCntrlr pq) → IfSome (Same next) (f next))
      → IfSome (Same c) (bind o f)
  Same-bind c o f first then_same =
      IfSome-bind (Same c) (Same c) o f first
        (λ next same. widen c next (f next) same (then_same next))
    where
      widen :
          (c next : OraCntrlr pq) (o : Option (OraCntrlr pq))
          → Same c next
          → IfSome (Same next) o
          → IfSome (Same c) o
      widen c next none same later = tt
      widen c next (some last) same later = Same-trans c next last same later

  abbrev SameFrame : OraCntrlr pq → OraCntrlr pq → Type 0
  SameFrame c next = frame next ≡ frame c

  hand_over-frame : (c : OraCntrlr pq) → IfSome (SameFrame c) (hand_over pq c)
  unfolding hand_over with_item write_query
  hand_over-frame c = elim (Bool-cases (pq.len c.query_queue == 0)) [
    | inl empty ↦ rw empty refl
    | inr more ↦ rw more (given (pq.get c.query_queue))
  ]
    where
      given : (o : Option (QueueItem × pq.Queue)) → IfSome (SameFrame c) (with_item pq c o)
      given none = tt
      given (some (item, rest)) = elim (Bool-cases (length c.exec_query_chan == 0)) [
        | inl room ↦ rw room refl
        | inr full ↦ rw full tt
      ]

  fill_queue-frame : (c : OraCntrlr pq) → SameFrame c (fill_queue pq c)
  unfolding fill_queue
  fill_queue-frame c = elim (Bool-cases (ltb 0 (length c.log_msg_buffer))) [
    | inl some_wait ↦ rw some_wait refl
    | inr none_wait ↦ rw none_wait refl
  ]

  loaded-frame :
      (c : OraCntrlr pq)
      → IfSome
          (SameFrame c)
          (hand_over pq (if pq.len c.query_queue == 0 then fill_queue pq c else c))
  loaded-frame c = elim (Bool-cases (pq.len c.query_queue == 0)) [
    | inr more ↦ rw more (hand_over-frame c)
    | inl empty ↦ rw empty (
        subst (λ f. IfSome (λ next. frame next ≡ f) (hand_over pq (fill_queue pq c)))
          (fill_queue-frame c) (hand_over-frame (fill_queue pq c)))
  ]

  pub check_query_queue-Same : (c : OraCntrlr pq) → IfSome (Same c) (check_query_queue pq c)
  unfolding check_query_queue
  check_query_queue-Same c = elim (Bool-cases c.can_execute) [
    | inr cannot ↦ subst (IfSome (Same c)) (sym (ap choice cannot)) (Same-refl c)
    | inl can ↦
        subst (IfSome (Same c)) (sym (ap choice can)) (busy can (choice true) (loaded-frame c))
  ]
    where
      choice : Bool → Option (OraCntrlr pq)
      choice b =
          if b
          then hand_over pq (if pq.len c.query_queue == 0 then fill_queue pq c else c)
          else some c

      busy :
          c.can_execute ≡ true
          → (o : Option (OraCntrlr pq)) → IfSome (SameFrame c) o
          → IfSome (Same c) o
      busy can none h = tt
      busy can (some next) h = (h, λ q. absurd (cc (can, q.0)))

  put_query-Same : (item : QueueItem) (c : OraCntrlr pq) → Same c (put_query pq item c)
  unfolding put_query
  put_query-Same item c = (refl, λ q. q)

  checked_after :
      (c next : OraCntrlr pq) → Same c next → IfSome (Same c) (check_query_queue pq next)
  unfolding bind
  checked_after c next same =
      Same-bind c (some next) (check_query_queue pq) same check_query_queue-Same

  pub check_storage-Same :
      (date : Bytes) (c : OraCntrlr pq) → IfSome (Same c) (check_storage pq date c)
  unfolding check_storage check_log_count check_log_livetime put_query
  check_storage-Same date c =
      Same-bind c (check_log_count pq c) (check_log_livetime pq date)
        (checked_after c _ (refl, λ q. q)) (λ next. checked_after next _ (refl, λ q. q))

  pub check_log_livetime-Same :
      (date : Bytes) (c : OraCntrlr pq) → IfSome (Same c) (check_log_livetime pq date c)
  unfolding check_log_livetime put_query
  check_log_livetime-Same date c = checked_after c _ (refl, λ q. q)

  pub ping_tick-Same : (c : OraCntrlr pq) → IfSome (Same c) (ping_tick pq c)
  unfolding ping_tick check_heartbeat put_heartbeat put_query
  ping_tick-Same c = elim (Bool-cases c.db_success) [
    | inr down ↦ subst (IfSome (Same c)) (sym (ap choice down)) (Same-refl c)
    | inl up ↦
        subst (IfSome (Same c)) (sym (ap choice up)) (checked_after c (put_heartbeat pq c) beat)
  ]
    where
      choice : Bool → Option (OraCntrlr pq)
      choice b = if b then check_heartbeat pq c else some c

      asked : Same c (request_if_idle pq c)
      asked = elim (Bool-cases (length c.log_msg_buffer == 0)) [
        | inl quiet ↦ rw quiet (refl, λ q. q)
        | inr busy ↦ rw busy (refl, λ q. q)
      ]

      beat : Same c (put_heartbeat pq c)
      beat = elim (Bool-cases (pq.len c.query_queue == 0)) [
        | inl empty ↦ rw empty (asked.0, asked.1)
        | inr more ↦ rw more (Same-refl c)
      ]

  pub receive_msgs-Same :
      (log_msgs : List LogMessage) (c : OraCntrlr pq) → IfSome (Same c) (receive_msgs pq log_msgs c)
  unfolding receive_msgs check_log_count put_query
  receive_msgs-Same log_msgs c =
      let taken = append_msgs pq log_msgs c in
      Same-bind c _ (check_query_queue pq)
        (elim (Bool-cases (ltb insert_count_check taken.cur_insert_count)) [
          | inl often ↦ rw often (
              IfSome-map (Same c) (Same c) (reset_count pq) (check_log_count pq taken)
                (checked_after c _ (refl, λ q. q)) (λ next same. same))
          | inr seldom ↦ rw seldom (refl, λ q. q)
        ])
        check_query_queue-Same
