-- ===== src/Storage/Oracle/System/Stalled.antt =====
-- When the controller executes no further query: after the database is gone, and after a connection
-- that failed.
use fmtp.Prelude.{
  ℕ, ◌≡◌, refl, sym, ap, ◌∙◌, subst, true, false, ◌&&◌, Option, none, some, List, [], ◌∷◌, length,
  nat_eq, ltb, arith, All, Bool-cases, inl, inr, ◌⊎◌, Bytes,
}
use mathlib.Core.Option.{bind}
use fmtp.Storage.Message.{LogMessage}
use fmtp.Storage.State.{state_error, set_ora_state}
use fmtp.Storage.Oracle.Settings.{OraCntrlSettings, equal, SameDb, SameDb-via, equal-SameDb}
use fmtp.Storage.Oracle.Query.{QueueItem, PriorityQueue}
use fmtp.Storage.Oracle.Controller.{
  DbResult, OraCntrlr, OpenResult, is_gone, write_term, disconnect_from_db, check_query_queue,
  check_log_livetime, set_state, check_storage, change_settings, receive_msgs, after_result,
  take_result, take_first, ping_tick,
}
use fmtp.Storage.Oracle.System.{
  OraEvent, new_settings, log_msgs_received, exec_result, ping_ticked, livetime_ticked, query_taken,
  query_finished, executor_quit, pick, take_query, finish_picked, finish_query, quit_executor, step,
  run,
}
use fmtp.Storage.Oracle.System.Sound.{IsSound, no_length}
use fmtp.Storage.Oracle.System.Frame.{
  IfSome, IfSome-bind, IsQuiet, Same, check_query_queue-Same, check_storage-Same,
  check_log_livetime-Same, ping_tick-Same, receive_msgs-Same,
}
use fmtp.Storage.Oracle.System.InOrder.{KeepsDb}

module _ (pq : PriorityQueue) (setts : OraCntrlSettings) where
  -- Nothing is executed, no result is on its way, and either no executor is there or the controller
  -- hands over no query.
  pub record IsStalled (past : List (QueueItem × DbResult)) (c : OraCntrlr pq) : Type 0 where
    pub done : c.executed ≡ past
    pub none_runs : c.executing ≡ []
    pub no_result : c.exec_result_chan ≡ []
    pub halted : (c.executors ≡ 0) ⊎ IsQuiet pq c
    pub same_db : SameDb setts c.cur_setts

  Same-IsStalled :
      (past : List (QueueItem × DbResult)) (c next : OraCntrlr pq)
      → IsStalled past c
      → Same pq c next
      → IsStalled past next
  Same-IsStalled past c next stalled (same, quiet) = record {
    done = ap (λ f. f.5) same ∙ stalled.done;
    none_runs = ap (λ f. f.3) same ∙ stalled.none_runs;
    no_result = ap (λ f. f.4) same ∙ stalled.no_result;
    halted = elim stalled.halted [
      | inl nobody ↦ inl (ap (λ f. f.1) same ∙ nobody)
      | inr still ↦ inr (quiet still)
    ];
    same_db = subst (SameDb setts) (sym (ap (λ f. f.0) same)) stalled.same_db;
  }

  IfSome-IsStalled :
      (past : List (QueueItem × DbResult)) (c : OraCntrlr pq) (o : Option (OraCntrlr pq))
      → IsStalled past c
      → IfSome (Same pq c) o
      → IfSome (IsStalled past) o
  IfSome-IsStalled past c none stalled same = tt
  IfSome-IsStalled past c (some next) stalled same = Same-IsStalled past c next stalled same

  change_settings-IsStalled :
      (others : OraCntrlSettings) (result : OpenResult) (date : Bytes)
      (past : List (QueueItem × DbResult)) (c : OraCntrlr pq)
      → SameDb setts others
      → IsStalled past c
      → IfSome (IsStalled past) (change_settings pq others result date c)
  unfolding change_settings bind
  change_settings-IsStalled others result date past c same stalled =
      let changed : OraCntrlr pq = record c { cur_setts = others } in
      rw
        (equal-SameDb c.cur_setts others (SameDb-via setts c.cur_setts others stalled.same_db same))
        (elim (Bool-cases (equal c.cur_setts others).1) [
          | inl kept ↦ rw kept stalled
          | inr stor ↦ rw stor (
              IfSome-IsStalled past changed (check_storage pq date changed) (renamed same stalled)
                (check_storage-Same pq date changed))
        ])
    where
      renamed :
          SameDb setts others → IsStalled past c → IsStalled past (record c { cur_setts = others })
      renamed same stalled = record {
        done = stalled.done;
        none_runs = stalled.none_runs;
        no_result = stalled.no_result;
        halted = stalled.halted;
        same_db = same;
      }

  take_result-IsStalled :
      (past : List (QueueItem × DbResult)) (c : OraCntrlr pq)
      → IsStalled past c
      → IfSome (IsStalled past) (take_result pq c)
  unfolding take_result take_first
  take_result-IsStalled past c stalled =
      subst (λ results. IfSome (IsStalled past) (take_first pq c results)) (sym stalled.no_result)
        stalled

  take_query-IsStalled :
      (past : List (QueueItem × DbResult)) (c : OraCntrlr pq)
      → IsStalled past c
      → IsStalled past (take_query pq c c.exec_query_chan)
  take_query-IsStalled past c stalled = by_halt stalled.halted
    where
      idle : (queries : List QueueItem) → c.executors ≡ 0 → take_query pq c queries ≡ c
      idle [] nobody = refl
      idle (item ∷ others) nobody = rw nobody refl

      by_halt :
          (c.executors ≡ 0) ⊎ IsQuiet pq c → IsStalled past (take_query pq c c.exec_query_chan)
      by_halt (inl nobody) = subst (IsStalled past) (sym (idle c.exec_query_chan nobody)) stalled
      by_halt (inr (cannot, empty)) =
          subst (λ queries. IsStalled past (take_query pq c queries)) (sym empty) stalled

  finish_query-IsStalled :
      (n : ℕ) (result : DbResult) (past : List (QueueItem × DbResult)) (c : OraCntrlr pq)
      → IsStalled past c
      → IsStalled past (finish_query pq n result c)
  unfolding finish_query
  finish_query-IsStalled n result past c stalled =
      subst (λ items. IsStalled past (finish_picked pq c result (pick n items)))
        (sym stalled.none_runs) stalled

  quit_executor-IsStalled :
      (past : List (QueueItem × DbResult)) (c : OraCntrlr pq)
      → IsStalled past c
      → IsStalled past (quit_executor pq c)
  unfolding quit_executor
  quit_executor-IsStalled past c stalled =
      elim (Bool-cases (ltb 0 c.executors && ltb 0 c.exec_term_chan)) [
        | inr stays ↦ rw stays stalled
        | inl quits ↦ rw quits (record {
          done = stalled.done;
          none_runs = stalled.none_runs;
          no_result = stalled.no_result;
          halted = elim stalled.halted [
            | inl nobody ↦ inl (omega (arith, nobody))
            | inr still ↦ inr still
          ];
          same_db = stalled.same_db;
        })
      ]

  step-IsStalled :
      (past : List (QueueItem × DbResult)) (event : OraEvent) (c : OraCntrlr pq)
      → KeepsDb pq setts event
      → IsStalled past c
      → IfSome (IsStalled past) (step pq event c)
  unfolding step
  step-IsStalled past (new_settings others result date) c keeps stalled =
      change_settings-IsStalled others result date past c keeps stalled
  step-IsStalled past (log_msgs_received log_msgs) c keeps stalled =
      IfSome-IsStalled past c (receive_msgs pq log_msgs c) stalled (receive_msgs-Same pq log_msgs c)
  step-IsStalled past exec_result c keeps stalled = take_result-IsStalled past c stalled
  step-IsStalled past ping_ticked c keeps stalled =
      IfSome-IsStalled past c (ping_tick pq c) stalled (ping_tick-Same pq c)
  step-IsStalled past (livetime_ticked date) c keeps stalled =
      IfSome-IsStalled past c (check_log_livetime pq date c) stalled
        (check_log_livetime-Same pq date c)
  step-IsStalled past query_taken c keeps stalled = take_query-IsStalled past c stalled
  step-IsStalled past (query_finished n result) c keeps stalled =
      finish_query-IsStalled n result past c stalled
  step-IsStalled past executor_quit c keeps stalled = quit_executor-IsStalled past c stalled

  pub run-IsStalled :
      (past : List (QueueItem × DbResult)) (events : List OraEvent) (c : OraCntrlr pq)
      → All (KeepsDb pq setts) events
      → IsStalled past c
      → IfSome (λ last. last.executed ≡ past) (run pq events c)
  unfolding run
  run-IsStalled past [] c keeps stalled = stalled.done
  run-IsStalled past (event ∷ events) c (keeps, all_keep) stalled =
      IfSome-bind (IsStalled past) (λ last. last.executed ≡ past) (step pq event c) (run pq events)
        (step-IsStalled past event c keeps stalled)
        (λ next still. run-IsStalled past events next all_keep still)

  gone-IsStalled :
      (err : Bytes) (others : List DbResult) (received : List LogMessage) (c : OraCntrlr pq)
      → IsSound pq setts received c
      → c.exec_result_chan ≡ some err ∷ others
      → is_gone err ≡ true
      → IfSome (IsStalled c.executed) (take_first pq c (some err ∷ others))
  unfolding take_first after_result disconnect_from_db write_term set_state
  gone-IsStalled err others received c sound there gone =
      let left : OraCntrlr pq = record c { exec_result_chan = others } in
      IfSome-bind (IsStalled c.executed) (IsStalled c.executed) (after_result pq (some err) left)
        (check_query_queue pq) (rw (gone, sound.opened.0, free.0) disconnected)
        (λ next stalled.
          IfSome-IsStalled c.executed next (check_query_queue pq next) stalled
            (check_query_queue-Same pq next))
    where
      free :
          (c.exec_term_chan ≡ 0)
          × (length c.exec_query_chan ≡ 0)
          × (length c.executing ≡ 0)
          × (length others ≡ 0)
      free = omega (arith, sound.one_token, ap {B = ℕ} length there)

      disconnected : IsStalled c.executed (record c {
        exec_result_chan = others;
        can_execute = false;
        db_success = false;
        has_db = true;
        exec_term_chan = 1;
        logger_state = set_ora_state state_error err c.logger_state;
      })
      disconnected = record {
        done = refl;
        none_runs = no_length c.executing free.2;
        no_result = no_length others free.3;
        halted = inr (refl, no_length c.exec_query_chan free.1);
        same_db = sound.opened.1;
      }

  -- Once an error says that the database is gone, no further query is executed, whatever happens,
  -- as long as the settings name the same database: only other settings connect again.
  pub run-gone :
      (err : Bytes) (others : List DbResult) (received : List LogMessage) (events : List OraEvent)
      (c : OraCntrlr pq)
      → IsSound pq setts received c
      → c.exec_result_chan ≡ some err ∷ others
      → is_gone err ≡ true
      → All (KeepsDb pq setts) events
      → IfSome (λ last. last.executed ≡ c.executed) (run pq (exec_result ∷ events) c)
  unfolding run step take_result
  run-gone err others received events c sound there gone keeps =
      IfSome-bind (IsStalled c.executed) (λ last. last.executed ≡ c.executed) (take_result pq c)
        (run pq events)
        (subst (λ results. IfSome (IsStalled c.executed) (take_first pq c results)) (sym there)
          (gone-IsStalled err others received c sound there gone))
        (λ next stalled. run-IsStalled c.executed events next keeps stalled)
