-- ===== src/Storage/Oracle/System/StaleTerm.antt =====
-- A connection that fails leaves a request to end behind, which the executor of the next connection
-- reads.
use fmtp.Prelude.{
  suc, ◌≡◌, refl, sym, ap, ◌∙◌, subst, Bool, true, false, ◌&&◌, Option, none, some, List, [], ◌∷◌,
  nat_eq, ltb, if◌then◌else◌, arith, All, inl, Bytes,
}
use mathlib.Core.Option.{bind}
use fmtp.Storage.State.{LoggerState, state_ok}
use fmtp.Storage.Oracle.Settings.{OraCntrlSettings, no_setts, equal, SameDb, SameDb-refl}
use fmtp.Storage.Oracle.Query.{PriorityQueue}
use fmtp.Storage.Oracle.Controller.{
  OraCntrlr, ping_failed, connected, new_ora_controller, write_term, disconnect_from_db,
  check_query_queue, set_state, connect_to_db, reconnect, check_storage, change_settings,
}
use fmtp.Storage.Oracle.System.{OraEvent, new_settings, executor_quit, quit_executor, step, run}
use fmtp.Storage.Oracle.System.Frame.{
  IfSome, IfSome-bind, IfSome-map, Frame, frame, Same, check_query_queue-Same, check_storage-Same,
}
use fmtp.Storage.Oracle.System.InOrder.{KeepsDb}
use fmtp.Storage.Oracle.System.Stalled.{IsStalled, run-IsStalled}

module _ (pq : PriorityQueue) (setts others : OraCntrlSettings) where
  -- After a failed connection, and after the successful one that follows.
  abbrev failed_frame : Frame pq
  failed_frame = (setts, 0, 1, [], [], [], false)

  abbrev joined_frame : Frame pq
  joined_frame = (others, 1, 1, [], [], [], true)

  Same-frame :
      (f : Frame pq) (c : OraCntrlr pq) (o : Option (OraCntrlr pq))
      → frame pq c ≡ f
      → IfSome (Same pq c) o
      → IfSome (λ next. frame pq next ≡ f) o
  Same-frame f c none e same = tt
  Same-frame f c (some next) e same = same.0 ∙ e

  storage-frame :
      (f : Frame pq) (same_stor : Bool) (date : Bytes) (c : OraCntrlr pq)
      → frame pq c ≡ f
      → IfSome (λ next. frame pq next ≡ f) (if same_stor then some c else check_storage pq date c)
  storage-frame f true date c e = e
  storage-frame f false date c e =
      Same-frame f c (check_storage pq date c) e (check_storage-Same pq date c)

  failed :
      (err date : Bytes) (state : LoggerState)
      → (equal no_setts setts).0 ≡ false
      → IfSome
          (λ c. frame pq c ≡ failed_frame)
          (change_settings pq setts (ping_failed err) date (new_ora_controller pq state))
  unfolding change_settings reconnect connect_to_db new_ora_controller disconnect_from_db write_term
      set_state bind
  failed err date state fresh =
      rw fresh (storage-frame failed_frame (equal no_setts setts).1 date _ refl)

  connected-frame :
      (c : OraCntrlr pq)
      → frame pq c ≡ failed_frame
      → IfSome
          (λ next. frame pq next ≡ joined_frame)
          (connect_to_db pq connected (record c { cur_setts = others }))
  unfolding connect_to_db set_state
  connected-frame c e =
      IfSome-map (λ next. frame pq next ≡ joined_frame) (λ next. frame pq next ≡ joined_frame)
        (set_state pq state_ok []) (check_query_queue pq ready)
        (Same-frame joined_frame ready (check_query_queue pq ready)
          (ap (λ f. (others, suc f.1, f.2, f.3, f.4, f.5, true)) e)
          (check_query_queue-Same pq ready))
        (λ next same. same)
    where
      ready : OraCntrlr pq
      ready = record c {
        cur_setts = others;
        has_db = true;
        db_success = true;
        can_execute = true;
        executors = suc c.executors;
      }

  joined :
      (date : Bytes) (c : OraCntrlr pq)
      → (equal setts others).0 ≡ false
      → frame pq c ≡ failed_frame
      → IfSome (λ next. frame pq next ≡ joined_frame) (change_settings pq others connected date c)
  unfolding change_settings reconnect bind
  joined date c differ e = rw differs (
      IfSome-bind (λ next. frame pq next ≡ joined_frame) (λ next. frame pq next ≡ joined_frame)
        (bind (if c.db_success then disconnect_from_db pq changed else some changed)
          (connect_to_db pq connected))
        (λ next. if (equal c.cur_setts others).1 then some next else check_storage pq date next)
        (subst
          (λ (up : Bool).
            IfSome (λ next. frame pq next ≡ joined_frame)
              (bind (if up then disconnect_from_db pq changed else some changed)
                (connect_to_db pq connected)))
          (sym (ap (λ f. f.6) e)) opened)
        (λ next same. storage-frame joined_frame (equal c.cur_setts others).1 date next same))
    where
      changed : OraCntrlr pq
      changed = record c { cur_setts = others }

      differs : (equal c.cur_setts others).0 ≡ false
      differs = subst (λ s. (equal s others).0 ≡ false) (sym (ap (λ f. f.0) e)) differ

      opened : IfSome (λ next. frame pq next ≡ joined_frame) (connect_to_db pq connected changed)
      opened = connected-frame c e

  quit-IsStalled :
      (c : OraCntrlr pq) → frame pq c ≡ joined_frame → IsStalled pq others [] (quit_executor pq c)
  unfolding quit_executor
  quit-IsStalled c e = rw quits (record {
    done = ap (λ f. f.5) e;
    none_runs = ap (λ f. f.3) e;
    no_result = ap (λ f. f.4) e;
    halted = inl (omega (arith, one));
    same_db = subst (SameDb others) (sym (ap (λ f. f.0) e)) (SameDb-refl others);
  })
    where
      one : c.executors ≡ 1
      one = ap (λ f. f.1) e

      term : c.exec_term_chan ≡ 1
      term = ap (λ f. f.2) e

      quits : (ltb 0 c.executors && ltb 0 c.exec_term_chan) ≡ true
      quits = rw (one, term) refl

  -- A connection that failed leaves the request to end behind. Where the database of the next
  -- settings is another one and they connect, the new executor may read that request before any
  -- query: then nothing is ever executed, whatever happens, until the settings name yet another
  -- database.
  pub run-stale_term :
      (err date next_date : Bytes) (state : LoggerState) (events : List OraEvent)
      → (equal no_setts setts).0 ≡ false
      → (equal setts others).0 ≡ false
      → All (KeepsDb pq others) events
      → IfSome
          (λ last. last.executed ≡ [])
          (run pq
            (new_settings setts (ping_failed err) date
              ∷ new_settings others connected next_date
              ∷ executor_quit
              ∷ events)
            (new_ora_controller pq state))
  unfolding run step bind
  run-stale_term err date next_date state events fresh differ keeps =
      IfSome-bind (λ c. frame pq c ≡ failed_frame) (λ last. last.executed ≡ []) _ _
        (failed err date state fresh)
        (λ first e.
          IfSome-bind (λ c. frame pq c ≡ joined_frame) (λ last. last.executed ≡ [])
            (change_settings pq others connected next_date first)
            (λ second. run pq events (quit_executor pq second)) (joined next_date first differ e)
            (λ second same.
              run-IsStalled pq others [] events (quit_executor pq second) keeps
                (quit-IsStalled second same)))
