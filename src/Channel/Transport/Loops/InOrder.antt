-- ===== src/Channel/Transport/Loops/InOrder.antt =====
-- The sending loops of a client keep the account of the packets.
use fmtp.Prelude.{
  ℕ, zero, suc, ◌≤◌, ◌≡◌, refl, ap, ◌∙◌, sym, subst, true, false, some, List, [], ◌∷◌, ◌++◌, Bytes,
  ◌==◌, ltb, if_holds, Bool-cases, inl, inr, length, arith,
}
use mathlib.Core.List.{append-nil, append_assoc}
use fmtp.Protocol.Event.{FmtpEvent, none_event, event_eq}
use fmtp.Channel.Core.{DataAndEvent}
use fmtp.Channel.Transport.Wire.Account.{
  packets, raised, event_of, packets-append, raised-append_true, raised-append_false,
}
use fmtp.Channel.Transport.Client.{new_fmtp_tcp_client}
use fmtp.Channel.Transport.Loops.{
  SendingClient, new_sending_client, sending_loops, LoopEvent, client_went_on, packet_taken,
  put_done, put_failed, event_raised, pick, take_cur_data, end_put, fail_put, raise_event,
  loop_step, loop_run, OneLoop,
}
use fmtp.Channel.Transport.Loops.Kept.{Accounts, queued_by_client, move_client-Accounts}

abbrev pub queued_by_loop : LoopEvent → List DataAndEvent
queued_by_loop (client_went_on event) = queued_by_client event
queued_by_loop packet_taken = []
queued_by_loop (put_done n) = []
queued_by_loop (put_failed n err) = []
queued_by_loop (event_raised n) = []

abbrev pub queued_in : List LoopEvent → List DataAndEvent
queued_in [] = []
queued_in (event ∷ events) = queued_by_loop event ++ queued_in events

take_cur_data-Accounts :
    (queued : List DataAndEvent) (s : SendingClient) (list : List DataAndEvent)
    → s.ftc.wire.to_send_data_chan ≡ list
    → Accounts queued s
    → Accounts queued (take_cur_data s list)
unfolding take_cur_data
take_cur_data-Accounts queued s [] e h = h
take_cur_data-Accounts queued s (cur_data ∷ others) e (counted, events) =
    if_holds (Accounts queued) (ltb 0 s.ftc.wire.waiting) _ s
      (λ ready. (
        ap (λ list. packets s.ftc.wire.taken ++ list)
              (append_assoc s.writing (cur_data ∷ []) others
                ∙ ap (λ list. s.writing ++ list) (sym e))
            ∙ counted,
        events,
      ))
      (λ none_free. (counted, events))

-- The only loop that writes has written its packet, and none waits to raise an event.
written :
    (queued : List DataAndEvent) (s : SendingClient) (cur_data : DataAndEvent)
    → s.writing ≡ cur_data ∷ []
    → s.raising ≡ []
    → Accounts queued s
    → Accounts queued (end_put s (some (cur_data, [])))
unfolding end_put
written queued s cur_data e none_raises (counted, events) =
    elim (Bool-cases (cur_data.event_after_send == none_event)) [
      | inl silent ↦ rw silent (all_taken, so_far ∙ raised_by [] (rw silent refl))
      | inr loud ↦ rw loud (
        all_taken,
        ap (λ list. s.ftc.wire.event_chan ++ (list ++ cur_data.event_after_send ∷ [])) none_raises
            ∙ ap (λ list. list ++ cur_data.event_after_send ∷ []) before
            ∙ raised_by (cur_data.event_after_send ∷ []) (rw loud refl),
      )
    ]
  where
    all_taken :
        packets (s.ftc.wire.taken ++ (cur_data, true) ∷ []) ++ s.ftc.wire.to_send_data_chan ≡ queued
    all_taken =
        ap (λ list. list ++ s.ftc.wire.to_send_data_chan)
          (packets-append s.ftc.wire.taken cur_data true)
        ∙ append_assoc (packets s.ftc.wire.taken) (cur_data ∷ []) _
        ∙ ap (λ list. packets s.ftc.wire.taken ++ (list ++ s.ftc.wire.to_send_data_chan)) (sym e)
        ∙ counted

    before : s.ftc.wire.event_chan ≡ raised s.ftc.wire.taken
    before =
        sym (append-nil s.ftc.wire.event_chan)
        ∙ ap (λ list. s.ftc.wire.event_chan ++ list) (sym none_raises)
        ∙ events

    so_far : s.ftc.wire.event_chan ++ s.raising ≡ raised s.ftc.wire.taken ++ []
    so_far = events ∙ sym (append-nil (raised s.ftc.wire.taken))

    raised_by :
        (list : List FmtpEvent)
        → event_of cur_data.event_after_send ≡ list
        → raised s.ftc.wire.taken ++ list ≡ raised (s.ftc.wire.taken ++ (cur_data, true) ∷ [])
    raised_by list f =
        ap (λ l. raised s.ftc.wire.taken ++ l) (sym f)
        ∙ sym (raised-append_true s.ftc.wire.taken cur_data)

end_put-Accounts :
    (queued : List DataAndEvent) (s : SendingClient) (n : ℕ) (writing : List DataAndEvent)
    (raising : List FmtpEvent)
    → s.writing ≡ writing
    → s.raising ≡ raising
    → sending_loops s ≤ 1
    → Accounts queued s
    → Accounts queued (end_put s (pick writing n))
unfolding end_put
end_put-Accounts queued s n [] raising e f one h = h
end_put-Accounts queued s zero (cur_data ∷ []) [] e f one h = written queued s cur_data e f h
end_put-Accounts queued s (suc n) (cur_data ∷ []) raising e f one h = h
end_put-Accounts queued s zero (cur_data ∷ []) (event ∷ events) e f one h =
    absurd (omega (arith, one, ap length e, ap length f))
end_put-Accounts queued s n (cur_data ∷ other ∷ others) raising e f one h =
    absurd (omega (arith, one, ap length e))

fail_put-Accounts :
    (queued : List DataAndEvent) (err : Bytes) (s : SendingClient) (n : ℕ)
    (writing : List DataAndEvent)
    → s.writing ≡ writing
    → sending_loops s ≤ 1
    → Accounts queued s
    → Accounts queued (fail_put err s (pick writing n))
unfolding fail_put
fail_put-Accounts queued err s n [] e one h = h
fail_put-Accounts queued err s zero (cur_data ∷ []) e one (counted, events) = (
  ap (λ list. list ++ s.ftc.wire.to_send_data_chan) (packets-append s.ftc.wire.taken cur_data false)
      ∙ append_assoc (packets s.ftc.wire.taken) (cur_data ∷ []) _
      ∙ ap (λ list. packets s.ftc.wire.taken ++ (list ++ s.ftc.wire.to_send_data_chan)) (sym e)
      ∙ counted,
  events ∙ sym (raised-append_false s.ftc.wire.taken cur_data),
)
fail_put-Accounts queued err s (suc n) (cur_data ∷ []) e one h = h
fail_put-Accounts queued err s n (cur_data ∷ other ∷ others) e one h =
    absurd (omega (arith, one, ap length e))

raise_event-Accounts :
    (queued : List DataAndEvent) (s : SendingClient) (n : ℕ) (raising : List FmtpEvent)
    → s.raising ≡ raising
    → sending_loops s ≤ 1
    → Accounts queued s
    → Accounts queued (raise_event s (pick raising n))
unfolding raise_event
raise_event-Accounts queued s n [] e one h = h
raise_event-Accounts queued s zero (event ∷ []) e one (counted, events) = (
  counted,
  append-nil (s.ftc.wire.event_chan ++ event ∷ [])
      ∙ ap (λ list. s.ftc.wire.event_chan ++ list) (sym e)
      ∙ events,
)
raise_event-Accounts queued s (suc n) (event ∷ []) e one h = h
raise_event-Accounts queued s n (event ∷ other ∷ others) e one h =
    absurd (omega (arith, one, ap length e))

loop_step-Accounts :
    (queued : List DataAndEvent) (event : LoopEvent) (s : SendingClient)
    → sending_loops s ≤ 1
    → Accounts queued s
    → Accounts (queued ++ queued_by_loop event) (loop_step event s)
unfolding loop_step
loop_step-Accounts queued (client_went_on event) s one h = move_client-Accounts queued event s h
loop_step-Accounts queued packet_taken s one h =
    rw (append-nil queued) (take_cur_data-Accounts queued s s.ftc.wire.to_send_data_chan refl h)
loop_step-Accounts queued (put_done n) s one h =
    rw (append-nil queued) (end_put-Accounts queued s n s.writing s.raising refl refl one h)
loop_step-Accounts queued (put_failed n err) s one h =
    rw (append-nil queued) (fail_put-Accounts queued err s n s.writing refl one h)
loop_step-Accounts queued (event_raised n) s one h =
    rw (append-nil queued) (raise_event-Accounts queued s n s.raising refl one h)

loop_run-kept :
    (events : List LoopEvent) (queued : List DataAndEvent) (s : SendingClient)
    → OneLoop events s
    → Accounts queued s
    → Accounts (queued ++ queued_in events) (loop_run events s)
unfolding loop_run
loop_run-kept [] queued s one h = rw (append-nil queued) h
loop_run-kept (event ∷ events) queued s (one, ones) h =
    subst (λ list. Accounts list (loop_run events (loop_step event s)))
      (append_assoc queued (queued_by_loop event) (queued_in events))
      (loop_run-kept events (queued ++ queued_by_loop event) (loop_step event s) ones
        (loop_step-Accounts queued event s one h))

-- As long as at most one sending loop of a client lives at a time, whatever happens to it and to its
-- connections, in whatever order, with taking a packet, writing it and raising its event as steps of
-- their own: the packets that have been written or failed, the one that is being written, and those
-- that wait are together all that were queued, each once and in order, and the events that were raised
-- or wait for that are those of the packets that were written, in order, where a packet with no event
-- raises none.
pub loop_run-Accounts :
    (events : List LoopEvent)
    → OneLoop events new_sending_client
    → Accounts (queued_in events) (loop_run events new_sending_client)
unfolding new_sending_client new_fmtp_tcp_client
loop_run-Accounts events one = loop_run-kept events [] new_sending_client one (refl, refl)
