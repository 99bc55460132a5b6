-- ===== src/Storage/Oracle/Bounded/InOrder.antt =====
-- Whatever happens in whatever order, the controller keeps the account of the messages.
use fmtp.Prelude.{
  ◌+◌, ◌≤◌, ◌≡◌, refl, subst, Bool, true, false, Option, none, some, List, [], ◌∷◌, ◌++◌, length,
  All, Bytes, if◌then◌else◌, if_holds, ltb, arith,
}
use mathlib.Core.List.{append-nil, append_assoc}
use mathlib.Core.Option.{bind, map as map_option}
use fmtp.Storage.Message.{LogMessage}
use fmtp.Storage.State.{LoggerState}
use fmtp.Storage.Oracle.Settings.{OraCntrlSettings, no_setts, equal}
use fmtp.Storage.Oracle.Query.{PriorityQueue}
use fmtp.Storage.Oracle.Controller.{OpenResult, new_ora_controller, change_settings}
use fmtp.Storage.Oracle.System.{OraEvent, new_settings, step}
use fmtp.Storage.Oracle.System.Sound.{Holds, Holds-map, Holds-weaken, sent, IsSound}
use fmtp.Storage.Oracle.System.InOrder.{
  KeepsDb, IsOpened, arrivals, step-IsSound, first_settings-IsSound,
}
use fmtp.Storage.Oracle.Bounded.{
  OraRun, new_ora_run, run_waits, is_blocked, with_cntrl, step_if_free, read_request, BoundedEvent,
  ora_stepped, request_read, metrics_read, bounded_step, bounded_run,
}

module _ (pq : PriorityQueue) where
  -- The messages that an event brings to the controller, if it is not blocked.
  abbrev pub brought : OraEvent → OraRun pq → List LogMessage
  brought event b = if is_blocked pq event b then [] else arrivals (event ∷ [])

  abbrev pub brought_by : BoundedEvent → OraRun pq → List LogMessage
  brought_by (ora_stepped event) b = brought event b
  brought_by request_read b = []
  brought_by metrics_read b = []

  -- The messages that the events bring in a run.
  unfoldable pub arrived : List BoundedEvent → OraRun pq → List LogMessage
  unfolding bounded_step
  arrived [] b = []
  arrived (event ∷ events) b =
      brought_by event b
      ++ elim (bounded_step pq event b) [ none ↦ [] | some next ↦ arrived events next ]

  module _ (setts : OraCntrlSettings) where
    abbrev pub KeepsBoundedDb : BoundedEvent → Type 0
    KeepsBoundedDb (ora_stepped event) = KeepsDb pq setts event
    KeepsBoundedDb request_read = Unit
    KeepsBoundedDb metrics_read = Unit

    abbrev pub IsRunSound : List LogMessage → OraRun pq → Type 0
    IsRunSound received b = IsSound pq setts received b.ora_cntrl

    pub step_if_free-IsRunSound :
        (event : OraEvent) (b : OraRun pq) (received : List LogMessage)
        → KeepsDb pq setts event
        → IsRunSound received b
        → Holds (IsRunSound (received ++ brought event b)) (step_if_free pq event b)
    unfolding step_if_free
    step_if_free-IsRunSound event b received keeps sound = stepped (is_blocked pq event b)
      where
        stepped :
            (blocked : Bool)
            → Holds (IsRunSound (received ++ (if blocked then [] else arrivals (event ∷ [])))) (
                if blocked
                then some b
                else map_option (with_cntrl pq b) (step pq event b.ora_cntrl))
        stepped true = rw (append-nil received) sound
        stepped false =
            Holds-map (IsSound pq setts (received ++ arrivals (event ∷ [])))
              (IsRunSound (received ++ arrivals (event ∷ []))) (with_cntrl pq b)
              (step pq event b.ora_cntrl)
              (step-IsSound pq setts event b.ora_cntrl received keeps sound) (λ c kept. kept)

    bounded_step-IsRunSound :
        (event : BoundedEvent) (b : OraRun pq) (received : List LogMessage)
        → KeepsBoundedDb event
        → IsRunSound received b
        → Holds (IsRunSound (received ++ brought_by event b)) (bounded_step pq event b)
    unfolding bounded_step read_request
    bounded_step-IsRunSound (ora_stepped event) b received keeps sound =
        step_if_free-IsRunSound event b received keeps sound
    bounded_step-IsRunSound request_read b received keeps sound = rw (append-nil received) (
        if_holds (IsRunSound received) (ltb b.requests_read b.ora_cntrl.request_count) _ b
          (λ some_wait. sound) (λ none_wait. sound))
    bounded_step-IsRunSound metrics_read b received keeps sound = rw (append-nil received) sound

    bounded_run-IsRunSound :
        (events : List BoundedEvent) (b : OraRun pq) (received : List LogMessage)
        → All KeepsBoundedDb events
        → IsRunSound received b
        → Holds (IsRunSound (received ++ arrived events b)) (bounded_run pq events b)
    unfolding bounded_run bind arrived
    bounded_run-IsRunSound [] b received keeps sound = rw (append-nil received) sound
    bounded_run-IsRunSound (event ∷ events) b received (keeps, all_keep) sound =
        go_on (bounded_step pq event b) (bounded_step-IsRunSound event b received keeps sound)
          (λ next kept.
            bounded_run-IsRunSound events next (received ++ brought_by event b) all_keep kept)
      where
        go_on :
            (o : Option (OraRun pq))
            → Holds (IsRunSound (received ++ brought_by event b)) o
            → ((next : OraRun pq)
                → IsRunSound (received ++ brought_by event b) next
                → Holds
                    (IsRunSound ((received ++ brought_by event b) ++ arrived events next))
                    (bounded_run pq events next))
            → Holds
                (IsRunSound (
                  received
                  ++ (brought_by event b
                      ++ elim o [ none ↦ [] | some next ↦ arrived events next ])))
                (bind o (bounded_run pq events))
        go_on none h later = h
        go_on (some next) h later =
            subst (λ logs. Holds (IsRunSound logs) (bounded_run pq events next))
              (append_assoc received (brought_by event b) (arrived events next)) (later next h)

    pub first_step-IsRunSound :
        (result : OpenResult) (date : Bytes) (state : LoggerState)
        → (equal no_setts setts).0 ≡ false
        → IsOpened pq setts result
        → Holds
            (IsRunSound [])
            (step_if_free pq (new_settings setts result date) (new_ora_run pq state))
    unfolding step_if_free is_blocked run_waits new_ora_run new_ora_controller step
    first_step-IsRunSound result date state fresh opened =
        Holds-map (IsSound pq setts []) (IsRunSound []) (with_cntrl pq (new_ora_run pq state))
          (change_settings pq setts result date (new_ora_controller pq state))
          (first_settings-IsSound pq setts result date state fresh opened) (λ c kept. kept)

    -- After the first settings, where the database they name is not the empty one and opening it does
    -- not fail, and as long as later settings name the same one, whatever happens in whatever order,
    -- with `Run` and the executors waiting where ten requests or ten metrics wait to be read: the
    -- controller does not panic and does not write to a full one of the three channels between its
    -- goroutines, the messages that have gone out in queries, in the order of the queries, and the
    -- buffer are together all the messages that it has taken, each once and in order, and at most one
    -- query is under way.
    pub bounded_run-in_order :
        (result : OpenResult) (date : Bytes) (state : LoggerState) (events : List BoundedEvent)
        → (equal no_setts setts).0 ≡ false
        → IsOpened pq setts result
        → All KeepsBoundedDb events
        → Holds
            (λ b.
              (sent pq b.ora_cntrl ++ b.ora_cntrl.log_msg_buffer
                ≡ arrived
                    (ora_stepped (new_settings setts result date) ∷ events)
                    (new_ora_run pq state))
              × (length b.ora_cntrl.exec_query_chan + length b.ora_cntrl.executing ≤ 1))
            (bounded_run pq
              (ora_stepped (new_settings setts result date) ∷ events)
              (new_ora_run pq state))
    unfolding bounded_run bounded_step bind arrived
    bounded_run-in_order result date state events fresh opened keeps =
        Holds-weaken
          (IsRunSound (
            arrived (ora_stepped (new_settings setts result date) ∷ events) (new_ora_run pq state)))
          _ _
          (first (step_if_free pq (new_settings setts result date) (new_ora_run pq state))
            (first_step-IsRunSound result date state fresh opened))
          (λ b sound. (sound.in_order, omega (arith, sound.one_token)))
      where
        none_brought : brought (new_settings setts result date) (new_ora_run pq state) ≡ []
        none_brought =
            if_holds (λ logs. logs ≡ [])
              (is_blocked pq (new_settings setts result date) (new_ora_run pq state)) [] []
              (λ blocked. refl) (λ free. refl)

        first :
            (o : Option (OraRun pq))
            → Holds (IsRunSound []) o
            → Holds
                (IsRunSound (
                  brought (new_settings setts result date) (new_ora_run pq state)
                  ++ elim o [ none ↦ [] | some next ↦ arrived events next ]))
                (bind o (bounded_run pq events))
        first none h = h
        first (some next) h = rw none_brought (bounded_run-IsRunSound events next [] keeps h)
