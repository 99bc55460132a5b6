-- ===== src/Storage/Oracle/System/InOrder.antt =====
-- Whatever happens in whatever order, the controller keeps the account of the messages.
use fmtp.Prelude.{
  ℕ, ◌+◌, ◌≤◌, ◌≡◌, refl, Bool, true, false, Option, some, List, [], ◌∷◌, ◌++◌, nat_eq, arith,
  Bool-cases, inl, inr, Bytes,
}
use mathlib.Core.List.{append-nil}
use mathlib.Core.Option.{bind, map as map_option}
use fmtp.Storage.Message.{LogMessage}
use fmtp.Storage.State.{LoggerState, state_ok, state_error}
use fmtp.Storage.Oracle.Settings.{OraCntrlSettings, no_setts, equal, SameDb, SameDb-refl}
use fmtp.Storage.Oracle.Query.{PriorityQueue}
use fmtp.Storage.Oracle.Controller.{
  OraCntrlr, OpenResult, open_failed, ping_failed, connected, new_ora_controller, write_term,
  disconnect_from_db, check_query_queue, set_state, connect_to_db, reconnect, change_settings,
}
use fmtp.Storage.Oracle.System.{
  OraEvent, new_settings, log_msgs_received, exec_result, ping_ticked, livetime_ticked, query_taken,
  query_finished, executor_quit, step,
}
use fmtp.Storage.Oracle.System.Sound.{Holds, Holds-bind, Holds-map, bit, IsSound}
use fmtp.Storage.Oracle.System.Next.{check_query_queue-IsSound}
use fmtp.Storage.Oracle.System.Cases.{
  check_log_livetime-IsSound, check_storage-IsSound, change_settings-IsSound, receive_msgs-IsSound,
}
use fmtp.Storage.Oracle.System.Executors.{
  take_result-IsSound, ping_tick-IsSound, take_query-IsSound, finish_query-IsSound,
  quit_executor-IsSound,
}

-- The messages that the events bring.
abbrev pub arrivals : List OraEvent → List LogMessage
arrivals [] = []
arrivals (log_msgs_received log_msgs ∷ events) = log_msgs ++ arrivals events
arrivals (new_settings setts result date ∷ events) = arrivals events
arrivals (exec_result ∷ events) = arrivals events
arrivals (ping_ticked ∷ events) = arrivals events
arrivals (livetime_ticked date ∷ events) = arrivals events
arrivals (query_taken ∷ events) = arrivals events
arrivals (query_finished n result ∷ events) = arrivals events
arrivals (executor_quit ∷ events) = arrivals events

module _ (pq : PriorityQueue) (setts : OraCntrlSettings) where
  -- New settings name the same database.
  abbrev pub KeepsDb : OraEvent → Type 0
  KeepsDb (new_settings others result date) = SameDb setts others
  KeepsDb event = Unit

  -- One step, and the messages that it brings.
  pub step-IsSound :
      (event : OraEvent) (c : OraCntrlr pq) (received : List LogMessage)
      → KeepsDb event
      → IsSound pq setts received c
      → Holds (IsSound pq setts (received ++ arrivals (event ∷ []))) (step pq event c)
  unfolding step
  step-IsSound (new_settings others result date) c received keeps sound =
      rw (append-nil received)
        (change_settings-IsSound pq setts others result date c received keeps sound)
  step-IsSound (log_msgs_received log_msgs) c received keeps sound =
      rw (append-nil log_msgs) (receive_msgs-IsSound pq setts log_msgs c received sound)
  step-IsSound exec_result c received keeps sound =
      rw (append-nil received) (take_result-IsSound pq setts c received sound)
  step-IsSound ping_ticked c received keeps sound =
      rw (append-nil received) (ping_tick-IsSound pq setts c received sound)
  step-IsSound (livetime_ticked date) c received keeps sound =
      rw (append-nil received) (check_log_livetime-IsSound pq setts date c received sound)
  step-IsSound query_taken c received keeps sound =
      rw (append-nil received) (take_query-IsSound pq setts c received c.exec_query_chan refl sound)
  step-IsSound (query_finished n result) c received keeps sound =
      rw (append-nil received) (finish_query-IsSound pq setts n result c received sound)
  step-IsSound executor_quit c received keeps sound =
      rw (append-nil received) (quit_executor-IsSound pq setts c received sound)

  -- The database has been opened, whether or not it answered the ping.
  abbrev pub IsOpened : OpenResult → Type 0
  IsOpened (open_failed err) = ⊥
  IsOpened (ping_failed err) = Unit
  IsOpened connected = Unit

  set_state-IsSound :
      (conn err : Bytes) (received : List LogMessage) (o : Option (OraCntrlr pq))
      → Holds (IsSound pq setts received) o
      → Holds (IsSound pq setts received) (map_option (set_state pq conn err) o)
  unfolding set_state
  set_state-IsSound conn err received o sound =
      Holds-map (IsSound pq setts received) (IsSound pq setts received) (set_state pq conn err) o
        sound
        (λ c kept. record {
          opened = kept.opened;
          one_token = kept.one_token;
          checks = kept.checks;
          in_order = kept.in_order;
        })

  -- The controller after the first connection, before it looks for a query.
  abbrev opened_with : Bool → ℕ → LoggerState → OraCntrlr pq
  unfolding new_ora_controller
  opened_with up term state = record (new_ora_controller pq state) {
    cur_setts = setts;
    has_db = true;
    db_success = up;
    can_execute = up;
    executors = bit up;
    exec_term_chan = term;
  }

  opened_with-IsSound :
      (up : Bool) (term : ℕ) (state : LoggerState)
      → term + bit up ≤ 1
      → IsSound pq setts [] (opened_with up term state)
  unfolding opened_with new_ora_controller
  opened_with-IsSound up term state one = record {
    opened = (refl, SameDb-refl setts);
    one_token = omega (arith, one);
    checks = rw pq.contents-new tt;
    in_order = refl;
  }

  first_connection-IsSound :
      (result : OpenResult) (state : LoggerState)
      → IsOpened result
      → Holds
          (IsSound pq setts [])
          (connect_to_db pq result (record (new_ora_controller pq state) { cur_setts = setts }))
  unfolding connect_to_db new_ora_controller disconnect_from_db write_term opened_with
  first_connection-IsSound (open_failed err) state opened = absurd opened
  first_connection-IsSound (ping_failed err) state opened =
      set_state-IsSound state_error err [] (some (opened_with false 1 state))
        (opened_with-IsSound false 1 state (omega arith))
  first_connection-IsSound connected state opened =
      set_state-IsSound state_ok [] [] (check_query_queue pq (opened_with true 0 state)) (
        check_query_queue-IsSound pq setts (opened_with true 0 state) []
          (opened_with-IsSound true 0 state (omega arith)))

  pub first_settings-IsSound :
      (result : OpenResult) (date : Bytes) (state : LoggerState)
      → (equal no_setts setts).0 ≡ false
      → IsOpened result
      → Holds
          (IsSound pq setts [])
          (change_settings pq setts result date (new_ora_controller pq state))
  unfolding change_settings reconnect new_ora_controller bind
  first_settings-IsSound result date state fresh opened = rw fresh (
      Holds-bind (IsSound pq setts []) (IsSound pq setts []) _ _
        (first_connection-IsSound result state opened)
        (λ next kept. elim (Bool-cases (equal no_setts setts).1) [
          | inl same ↦ rw same kept
          | inr stor ↦ rw stor (check_storage-IsSound pq setts date next [] kept)
        ]))
