-- ===== src/Storage/Oracle/System/Next.antt =====
-- Looking for the next query keeps the account of the messages.
use fmtp.Prelude.{
  ℕ, suc, ◌≤◌, ◌≡◌, ◌≢◌, refl, sym, ap, ◌∙◌, subst, Bool, true, false, Option, some, List, [], ◌++◌,
  length, ◌==◌, nat_eq, nat_beq_iff, ltb, if◌then◌else◌, arith, All, All-map, Bool-cases,
  Option-cases, inl, inr, ◌⊎◌,
}
use fmtp.Storage.Message.{LogMessage}
use fmtp.Storage.Oracle.Settings.{OraCntrlSettings}
use fmtp.Storage.Oracle.Query.{QueueItem, PriorityQueue, logs_in}
use fmtp.Storage.Oracle.Controller.{
  OraCntrlr, cut_batch, insert_item, fill_queue, hand_over, check_query_queue, put_query,
}
use fmtp.Storage.Oracle.System.Sound.{
  Holds, sent, tokens, IsSound, IsCheck, Opened, no_length, given, cut_batch-append,
}

module _ (pq : PriorityQueue) (setts : OraCntrlSettings) where
  open pq use {
    Queue, put, get, contents, len, len-contents, length-put, put-All, get-none, get-some,
  }

  contents_empty : (q : Queue) → (len q == 0) ≡ true → contents q ≡ []
  contents_empty q empty =
      no_length (contents q) (omega (arith, len-contents q, (nat_beq_iff (len q) 0).0 empty))

  contents_some : (q : Queue) → (len q == 0) ≡ false → contents q ≢ []
  contents_some q more none_wait = ground (arith, more, len-contents q, ap {B = ℕ} length none_wait)

  not_empty : (q : Queue) → contents q ≢ [] → (len q == 0) ≡ false
  not_empty q some_wait = elim (Bool-cases (len q == 0)) [
    | inl empty ↦ absurd (some_wait (contents_empty q empty))
    | inr more ↦ more
  ]

  -- Where every query that waits writes the same messages, and either it is the only one or these
  -- are none, handing one over keeps the account.
  hand_over-IsSound :
      (c : OraCntrlr pq) (received logs : List LogMessage)
      → c.can_execute ≡ true
      → Opened pq setts c
      → tokens pq c ≤ 1
      → All (λ item. logs_in item.query_text ≡ logs) (contents c.query_queue)
      → (length (contents c.query_queue) ≡ 1) ⊎ (logs ≡ [])
      → (contents c.query_queue ≢ [])
      → sent pq c ++ (logs ++ c.log_msg_buffer) ≡ received
      → Holds (IsSound pq setts received) (hand_over pq c)
  unfolding hand_over
  hand_over-IsSound c received logs can opened one same alone some_wait in_order =
      rw (not_empty c.query_queue some_wait) (elim (Option-cases (get c.query_queue)) [
        | inl nothing ↦ absurd (some_wait (get-none c.query_queue nothing))
        | inr ((item, rest), got) ↦
            let (shorter, this, others) =
              get-some (λ i. logs_in i.query_text ≡ logs) item c.query_queue rest got same in
            rw got (
              given pq setts c received item rest can opened one
                (checks_left rest alone shorter others) (rw this in_order))
      ])
    where
      checks_left :
          (rest : Queue)
          → (length (contents c.query_queue) ≡ 1) ⊎ (logs ≡ [])
          → length (contents c.query_queue) ≡ suc (length (contents rest))
          → All (λ i. logs_in i.query_text ≡ logs) (contents rest)
          → All IsCheck (contents rest)
      checks_left rest (inl one_waits) shorter others =
          rw (no_length (contents rest) (omega (arith, one_waits, shorter))) tt
      checks_left rest (inr no_logs) shorter others =
          All-map (λ i e. e ∙ no_logs) (contents rest) others

  batch-IsSound :
      (c : OraCntrlr pq) (received : List LogMessage)
      → c.can_execute ≡ true
      → contents c.query_queue ≡ []
      → IsSound pq setts received c
      → Holds (IsSound pq setts received) (
          hand_over pq (record c {
            log_msg_buffer = (cut_batch c.log_msg_buffer).1;
            query_queue = put (insert_item (cut_batch c.log_msg_buffer).0) c.query_queue;
          }))
  batch-IsSound c received can empty sound =
      let item = insert_item (cut_batch c.log_msg_buffer).0 in
      let one_waits : length (contents (put item c.query_queue)) ≡ 1 =
        omega (arith, length-put item c.query_queue, ap {B = ℕ} length empty) in
      hand_over-IsSound
        (record c {
          log_msg_buffer = (cut_batch c.log_msg_buffer).1;
          query_queue = put item c.query_queue;
        })
        received (cut_batch c.log_msg_buffer).0 can sound.opened sound.one_token
        (put-All (λ i. logs_in i.query_text ≡ (cut_batch c.log_msg_buffer).0) item c.query_queue
          refl (rw empty tt))
        (inl one_waits) (λ none_wait. omega (arith, one_waits, ap {B = ℕ} length none_wait))
        (ap (λ logs. sent pq c ++ logs) (cut_batch-append c.log_msg_buffer) ∙ sound.in_order)

  pub asked-IsSound :
      (c : OraCntrlr pq) (received : List LogMessage)
      → IsSound pq setts received c
      → IsSound pq setts received (record c { request_count = suc c.request_count })
  asked-IsSound c received sound = record {
    opened = sound.opened;
    one_token = sound.one_token;
    checks = sound.checks;
    in_order = sound.in_order;
  }

  loaded-IsSound :
      (c : OraCntrlr pq) (received : List LogMessage)
      → c.can_execute ≡ true
      → IsSound pq setts received c
      → Holds
          (IsSound pq setts received)
          (hand_over pq (if len c.query_queue == 0 then fill_queue pq c else c))
  unfolding fill_queue
  loaded-IsSound c received can sound = elim (Bool-cases (len c.query_queue == 0)) [
    | inr more ↦ rw more (
        hand_over-IsSound c received [] can sound.opened sound.one_token sound.checks (inr refl)
          (contents_some c.query_queue more) sound.in_order)
    | inl empty ↦ rw empty (elim (Bool-cases (ltb 0 (length c.log_msg_buffer))) [
      | inl some_wait ↦
          rw some_wait (batch-IsSound c received can (contents_empty c.query_queue empty) sound)
      | inr none_wait ↦ rw none_wait (unfold hand_over in rw empty (asked-IsSound c received sound))
    ])
  ]

  -- Looking for the next query keeps the account, and never writes to a full channel of the executors.
  pub check_query_queue-IsSound :
      (c : OraCntrlr pq) (received : List LogMessage)
      → IsSound pq setts received c
      → Holds (IsSound pq setts received) (check_query_queue pq c)
  unfolding check_query_queue
  check_query_queue-IsSound c received sound = elim (Bool-cases c.can_execute) [
    | inr cannot ↦ subst (Holds (IsSound pq setts received)) (sym (ap choice cannot)) sound
    | inl can ↦
        subst (Holds (IsSound pq setts received)) (sym (ap choice can))
          (loaded-IsSound c received can sound)
  ]
    where
      choice : Bool → Option (OraCntrlr pq)
      choice b =
          if b then hand_over pq (if len c.query_queue == 0 then fill_queue pq c else c) else some c

  -- A query that writes no message may be put to those that wait.
  pub put_query-IsSound :
      (item : QueueItem) (c : OraCntrlr pq) (received : List LogMessage)
      → IsCheck item
      → IsSound pq setts received c
      → IsSound pq setts received (put_query pq item c)
  unfolding put_query
  put_query-IsSound item c received check sound = record {
    opened = sound.opened;
    one_token = sound.one_token;
    checks = put-All IsCheck item c.query_queue check sound.checks;
    in_order = sound.in_order;
  }
