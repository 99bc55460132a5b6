-- ===== src/Storage/Oracle/System/Cases.antt =====
-- The cases of `Run` that look for the next query keep the account of the messages, as long as the
-- settings name one database.
use fmtp.Prelude.{
  ℕ, ◌+◌, ◌%◌, ◌^◌, refl, sym, ap, ◌∙◌, List, ◌++◌, length, ◌==◌, nat_eq, ltb, Bool-cases, inl, inr,
  Bytes,
}
use mathlib.Core.List.{append_assoc}
use mathlib.Core.Option.{bind}
use fmtp.Storage.Message.{LogMessage}
use fmtp.Storage.Oracle.Settings.{OraCntrlSettings, equal, SameDb, SameDb-via, equal-SameDb}
use fmtp.Storage.Oracle.Query.{PriorityQueue}
use fmtp.Storage.Oracle.Controller.{
  OraCntrlr, OpenResult, check_query_queue, check_log_count, check_log_livetime, request_if_idle,
  put_heartbeat, check_heartbeat, check_storage, change_settings, receive_msgs, reset_count,
  insert_count_check,
}
use fmtp.Storage.Oracle.System.Sound.{Holds, Holds-bind, Holds-map, sent, IsSound}
use fmtp.Storage.Oracle.System.Next.{asked-IsSound, check_query_queue-IsSound, put_query-IsSound}

module _ (pq : PriorityQueue) (setts : OraCntrlSettings) where
  pub check_log_count-IsSound :
      (c : OraCntrlr pq) (received : List LogMessage)
      → IsSound pq setts received c
      → Holds (IsSound pq setts received) (check_log_count pq c)
  unfolding check_log_count
  check_log_count-IsSound c received sound =
      check_query_queue-IsSound pq setts _ received
        (put_query-IsSound pq setts _ c received refl sound)

  pub check_log_livetime-IsSound :
      (date : Bytes) (c : OraCntrlr pq) (received : List LogMessage)
      → IsSound pq setts received c
      → Holds (IsSound pq setts received) (check_log_livetime pq date c)
  unfolding check_log_livetime
  check_log_livetime-IsSound date c received sound =
      check_query_queue-IsSound pq setts _ received
        (put_query-IsSound pq setts _ c received refl sound)

  pub check_heartbeat-IsSound :
      (c : OraCntrlr pq) (received : List LogMessage)
      → IsSound pq setts received c
      → Holds (IsSound pq setts received) (check_heartbeat pq c)
  unfolding check_heartbeat put_heartbeat
  check_heartbeat-IsSound c received sound =
      check_query_queue-IsSound pq setts (put_heartbeat pq c) received
        (elim (Bool-cases (pq.len c.query_queue == 0)) [
          | inr more ↦ rw more sound
          | inl empty ↦
              rw empty
                (put_query-IsSound pq setts _ (request_if_idle pq c) received refl (idle c sound))
        ])
    where
      idle :
          (c : OraCntrlr pq)
          → IsSound pq setts received c
          → IsSound pq setts received (request_if_idle pq c)
      idle c sound = elim (Bool-cases (length c.log_msg_buffer == 0)) [
        | inl quiet ↦ rw quiet (asked-IsSound pq setts c received sound)
        | inr busy ↦ rw busy sound
      ]

  pub check_storage-IsSound :
      (date : Bytes) (c : OraCntrlr pq) (received : List LogMessage)
      → IsSound pq setts received c
      → Holds (IsSound pq setts received) (check_storage pq date c)
  unfolding check_storage
  check_storage-IsSound date c received sound =
      Holds-bind (IsSound pq setts received) (IsSound pq setts received) (check_log_count pq c)
        (check_log_livetime pq date) (check_log_count-IsSound c received sound)
        (λ next kept. check_log_livetime-IsSound date next received kept)

  -- New settings of the same database change nothing but the limits of the storage.
  pub change_settings-IsSound :
      (others : OraCntrlSettings) (result : OpenResult) (date : Bytes) (c : OraCntrlr pq)
      (received : List LogMessage)
      → SameDb setts others
      → IsSound pq setts received c
      → Holds (IsSound pq setts received) (change_settings pq others result date c)
  unfolding change_settings bind
  change_settings-IsSound others result date c received same sound =
      rw (equal-SameDb c.cur_setts others (SameDb-via setts c.cur_setts others sound.opened.1 same))
        (elim (Bool-cases (equal c.cur_setts others).1) [
          | inl kept ↦ rw kept sound
          | inr stor ↦ rw stor (check_storage-IsSound date _ received (renamed c same sound))
        ])
    where
      renamed :
          (c : OraCntrlr pq)
          → SameDb setts others
          → IsSound pq setts received c
          → IsSound pq setts received (record c { cur_setts = others })
      renamed c same sound = record {
        opened = (sound.opened.0, same);
        one_token = sound.one_token;
        checks = sound.checks;
        in_order = sound.in_order;
      }

  pub receive_msgs-IsSound :
      (log_msgs : List LogMessage) (c : OraCntrlr pq) (received : List LogMessage)
      → IsSound pq setts received c
      → Holds (IsSound pq setts (received ++ log_msgs)) (receive_msgs pq log_msgs c)
  unfolding receive_msgs
  receive_msgs-IsSound log_msgs c received sound =
      let now = received ++ log_msgs in
      let count = (c.cur_insert_count + 1) % 2 ^ 64 in
      Holds-bind (IsSound pq setts now) (IsSound pq setts now) _ (check_query_queue pq)
        (elim (Bool-cases (ltb insert_count_check count)) [
          | inl often ↦ rw often (
              Holds-map (IsSound pq setts now) (IsSound pq setts now) (reset_count pq) _
                (check_log_count-IsSound (taken c count) now grown) reset)
          | inr seldom ↦ rw seldom grown
        ])
        (λ next kept. check_query_queue-IsSound pq setts next now kept)
    where
      taken : OraCntrlr pq → ℕ → OraCntrlr pq
      taken c count = record c {
        log_msg_buffer = c.log_msg_buffer ++ log_msgs;
        cur_insert_count = count;
      }

      grown : IsSound pq setts (received ++ log_msgs) (taken c ((c.cur_insert_count + 1) % 2 ^ 64))
      grown = record {
        opened = sound.opened;
        one_token = sound.one_token;
        checks = sound.checks;
        in_order =
            sym (append_assoc (sent pq c) c.log_msg_buffer log_msgs)
            ∙ ap (λ logs. logs ++ log_msgs) sound.in_order;
      }

      reset :
          (next : OraCntrlr pq)
          → IsSound pq setts (received ++ log_msgs) next
          → IsSound pq setts (received ++ log_msgs) (reset_count pq next)
      reset next kept = record {
        opened = kept.opened;
        one_token = kept.one_token;
        checks = kept.checks;
        in_order = kept.in_order;
      }
