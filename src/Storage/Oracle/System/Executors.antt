-- ===== src/Storage/Oracle/System/Executors.antt =====
-- The results of executions, and the goroutines of `executeQuery`, keep the account of the messages.
use fmtp.Prelude.{
  ℕ, zero, suc, ◌≤◌, ◌≡◌, refl, sym, ap, ◌∙◌, subst, Bool, true, ◌&&◌, Option, none, some, List, [],
  ◌∷◌, ◌++◌, length, ◌==◌, nat_eq, ltb, if◌then◌else◌, arith, Bool-cases, Option-cases, inl, inr,
  Bytes, length-append,
}
use mathlib.Core.List.{append_assoc}
use mathlib.Core.Option.{map as map_option}
use fmtp.Storage.Message.{LogMessage}
use fmtp.Storage.State.{state_error}
use fmtp.Storage.Oracle.Settings.{OraCntrlSettings}
use fmtp.Storage.Oracle.Query.{QueueItem, PriorityQueue}
use fmtp.Storage.Oracle.Controller.{
  DbResult, OraCntrlr, is_gone, write_term, disconnect_from_db, check_query_queue, check_heartbeat,
  set_state, after_result, take_result, take_first, ping_tick,
}
use fmtp.Storage.Oracle.System.{pick, take_query, finish_query, quit_executor}
use fmtp.Storage.Oracle.System.Sound.{Holds, Holds-bind, bit, IsSound, logs_of, queries_of}
use fmtp.Storage.Oracle.System.Next.{check_query_queue-IsSound}
use fmtp.Storage.Oracle.System.Cases.{check_heartbeat-IsSound}

module _ (pq : PriorityQueue) (setts : OraCntrlSettings) where
  -- A result of an execution is there only where nothing else is under way, so the controller may
  -- execute again, or disconnects without waiting.
  after_result-IsSound :
      (result : DbResult) (others : List DbResult) (c : OraCntrlr pq) (received : List LogMessage)
      → c.exec_result_chan ≡ result ∷ others
      → IsSound pq setts received c
      → Holds
          (IsSound pq setts received)
          (after_result pq result (record c { exec_result_chan = others }))
  unfolding after_result disconnect_from_db write_term set_state
  after_result-IsSound result others c received there sound = by_result result
    where
      free :
          (c.exec_term_chan ≡ 0)
          × (bit c.can_execute ≡ 0)
          × (length c.exec_query_chan ≡ 0)
          × (length c.executing ≡ 0)
          × (length others ≡ 0)
      free = omega (arith, sound.one_token, ap {B = ℕ} length there)

      again : IsSound pq setts received (record c { exec_result_chan = others; can_execute = true })
      again = record {
        opened = sound.opened;
        one_token = omega (arith, free);
        checks = sound.checks;
        in_order = sound.in_order;
      }

      left :
          (err : Bytes)
          → Holds (IsSound pq setts received) (
              map_option
                (set_state pq state_error err)
                (disconnect_from_db pq (record c { exec_result_chan = others })))
      left err =
          rw (sound.opened.0, free.0)
            (record {
              opened = (refl, sound.opened.1);
              one_token = omega (arith, free);
              checks = sound.checks;
              in_order = sound.in_order;
            })

      by_result :
          (result : DbResult)
          → Holds
              (IsSound pq setts received)
              (after_result pq result (record c { exec_result_chan = others }))
      by_result none = again
      by_result (some err) = elim (Bool-cases (is_gone err)) [
        | inl gone ↦ rw gone (left err)
        | inr other ↦ rw other again
      ]

  pub take_result-IsSound :
      (c : OraCntrlr pq) (received : List LogMessage)
      → IsSound pq setts received c
      → Holds (IsSound pq setts received) (take_result pq c)
  unfolding take_result take_first
  take_result-IsSound c received sound = by_results c.exec_result_chan refl
    where
      by_results :
          (results : List DbResult)
          → c.exec_result_chan ≡ results
          → Holds (IsSound pq setts received) (take_first pq c results)
      by_results [] there = sound
      by_results (result ∷ others) there =
          Holds-bind (IsSound pq setts received) (IsSound pq setts received) _
            (check_query_queue pq) (after_result-IsSound result others c received there sound)
            (λ next kept. check_query_queue-IsSound pq setts next received kept)

  pub ping_tick-IsSound :
      (c : OraCntrlr pq) (received : List LogMessage)
      → IsSound pq setts received c
      → Holds (IsSound pq setts received) (ping_tick pq c)
  unfolding ping_tick
  ping_tick-IsSound c received sound = elim (Bool-cases c.db_success) [
    | inl up ↦
        subst (Holds (IsSound pq setts received)) (sym (ap choice up))
          (check_heartbeat-IsSound pq setts c received sound)
    | inr down ↦ subst (Holds (IsSound pq setts received)) (sym (ap choice down)) sound
  ]
    where
      choice : Bool → Option (OraCntrlr pq)
      choice b = if b then check_heartbeat pq c else some c

  pub take_query-IsSound :
      (c : OraCntrlr pq) (received : List LogMessage) (queries : List QueueItem)
      → c.exec_query_chan ≡ queries
      → IsSound pq setts received c
      → IsSound pq setts received (take_query pq c queries)
  take_query-IsSound c received [] there sound = sound
  take_query-IsSound c received (item ∷ others) there sound =
      elim (Bool-cases (ltb 0 c.executors)) [
        | inr none_waits ↦ rw none_waits sound
        | inl one_waits ↦ rw one_waits (record {
          opened = sound.opened;
          one_token = omega (
            arith,
            sound.one_token,
            ap {B = ℕ} length there,
            length-append c.executing (item ∷ []),
          );
          checks = sound.checks;
          in_order =
              ap (λ list. logs_of (queries_of c.executed ++ list) ++ c.log_msg_buffer)
                (append_assoc c.executing (item ∷ []) others
                  ∙ ap (λ list. c.executing ++ list) (sym there))
              ∙ sound.in_order;
        })
      ]

  -- Where at most one query is executed, the one that ends is that one.
  pick_only :
      (n : ℕ) (items : List QueueItem) (item : QueueItem) (others : List QueueItem)
      → length items ≤ 1
      → pick n items ≡ some (item, others)
      → items ≡ item ∷ others
  pick_only n [] item others few e = cc
  pick_only zero (first ∷ more) item others few e = cc
  pick_only (suc n) (first ∷ []) item others few e = cc
  pick_only (suc n) (first ∷ second ∷ more) item others few e = absurd (omega (arith, few))

  queries_of-append :
      (xs : List (QueueItem × DbResult)) (item : QueueItem) (result : DbResult)
      → queries_of (xs ++ (item, result) ∷ []) ≡ queries_of xs ++ item ∷ []
  queries_of-append [] item result = refl
  queries_of-append ((x, r) ∷ xs) item result =
      ap (λ list. x ∷ list) (queries_of-append xs item result)

  pub finish_query-IsSound :
      (n : ℕ) (result : DbResult) (c : OraCntrlr pq) (received : List LogMessage)
      → IsSound pq setts received c
      → IsSound pq setts received (finish_query pq n result c)
  unfolding finish_query
  finish_query-IsSound n result c received sound = elim (Option-cases (pick n c.executing)) [
    | inl nothing ↦ rw nothing sound
    | inr ((item, others), picked) ↦ rw picked (elim (Bool-cases (length c.exec_result_chan == 0)) [
      | inr full ↦ rw full sound
      | inl room ↦ rw room (
          ended item others
            (pick_only n c.executing item others (omega (arith, sound.one_token)) picked))
    ])
  ]
    where
      ended :
          (item : QueueItem) (others : List QueueItem)
          → c.executing ≡ item ∷ others
          → IsSound pq setts received (record c {
            executing = others;
            exec_result_chan = result ∷ [];
            executors = suc c.executors;
            executed = c.executed ++ (item, result) ∷ [];
          })
      ended item others runs = record {
        opened = sound.opened;
        one_token = omega (arith, sound.one_token, ap {B = ℕ} length runs);
        checks = sound.checks;
        in_order =
            ap (λ list. logs_of list ++ c.log_msg_buffer)
              (ap (λ list. list ++ (others ++ c.exec_query_chan))
                  (queries_of-append c.executed item result)
                ∙ append_assoc (queries_of c.executed) (item ∷ []) (others ++ c.exec_query_chan)
                ∙ ap (λ list. queries_of c.executed ++ (list ++ c.exec_query_chan)) (sym runs))
            ∙ sound.in_order;
      }

  pub quit_executor-IsSound :
      (c : OraCntrlr pq) (received : List LogMessage)
      → IsSound pq setts received c
      → IsSound pq setts received (quit_executor pq c)
  unfolding quit_executor
  quit_executor-IsSound c received sound =
      elim (Bool-cases (ltb 0 c.executors && ltb 0 c.exec_term_chan)) [
        | inr stays ↦ rw stays sound
        | inl quits ↦ rw quits (record {
          opened = sound.opened;
          one_token = omega (arith, sound.one_token);
          checks = sound.checks;
          in_order = sound.in_order;
        })
      ]
