-- ===== src/Storage/Logger/Kept.antt =====
-- Each step but those of the database's controller keeps every message of the journal.
use fmtp.Prelude.{
  ◌≡◌, sym, ap, ◌∙◌, subst, Bool, true, not, ◌&&◌, List, [], ◌∷◌, ◌++◌, bytes_eq, if_holds, ltb,
  arith, suc, take, drop, take-append-drop,
}
use mathlib.Core.List.{append_assoc}
use fmtp.Storage.Message.{LogMessage}
use fmtp.Storage.Redis.{RedisStream, Entry, mem, without, messages_in, ids_of}
use fmtp.Storage.Redis.Entries.{Distinct, messages_in-append}
use fmtp.Storage.Redis.Once.{concat, concat-append, account, handle_request-IsAccounted}
use fmtp.Storage.Oracle.Settings.{OraCntrlSettings}
use fmtp.Storage.Oracle.Query.{PriorityQueue}
use fmtp.Storage.Oracle.Controller.{OraCntrlr}
use fmtp.Storage.Oracle.System.{
  OraEvent, new_settings, log_msgs_received, exec_result, ping_ticked, livetime_ticked, query_taken,
  query_finished, executor_quit,
}
use fmtp.Storage.Oracle.System.Sound.{sent, IsSound}
use fmtp.Storage.Oracle.System.InOrder.{KeepsDb}
use fmtp.Storage.Oracle.Bounded.{read_request}
use fmtp.Storage.Logger.Holding.{
  without-last, Distinct-last, Distinct-drop, without-append, Holding, Holding-moved,
  Holding-renamed, Holding-lost,
}
use fmtp.Storage.Logger.{
  StreamWriter, OraLogger, LoggerEvent, request_passed, msgs_passed, request_handled, msgs_received,
  metrics_passed, ora_went_on, entry_written, main_waits, reader_waits, pass_request, pass_msgs,
  pass_metrics, take_request, write_entry,
}

module _ (pq : PriorityQueue) (redis : RedisStream) (writer : StreamWriter redis) where
  open redis use {entries}
  open writer use {entries-xadd, trimmed}

  -- The messages that the controller of the database has taken, in their order.
  abbrev pub handed : OraCntrlr pq → List LogMessage
  handed c = sent pq c ++ c.log_msg_buffer

  -- The messages between the stream and that controller, those of the stream included.
  abbrev pub on_way : OraLogger pq redis writer → List LogMessage
  on_way g = concat g.receive_msg_chan ++ account redis (g.redis_cntrl, g.stream)

  -- Each message in its one place.
  abbrev pub places : OraLogger pq redis writer → List LogMessage
  places g = handed g.ora.ora_cntrl ++ on_way g

  -- Every message of an entry that has been in the stream has one place or was lost.
  abbrev pub IsComplete : OraLogger pq redis writer → Type 0
  IsComplete g = Holding (places g) (messages_in g.lost) (messages_in g.written)

  module _ (setts : OraCntrlSettings) where
    -- The events are the logger's own: messages come only from the reader, and new settings name the
    -- same database.
    abbrev pub IsOwn : OraEvent → Type 0
    IsOwn (log_msgs_received msgs) = ⊥
    IsOwn (new_settings others result date) = KeepsDb pq setts (new_settings others result date)
    IsOwn exec_result = Unit
    IsOwn ping_ticked = Unit
    IsOwn (livetime_ticked date) = Unit
    IsOwn query_taken = Unit
    IsOwn (query_finished n result) = Unit
    IsOwn executor_quit = Unit

    abbrev pub IsOwnEvent : LoggerEvent pq redis writer → Type 0
    IsOwnEvent (ora_went_on event) = IsOwn event
    IsOwnEvent (request_handled deletes answers) = deletes ≡ true
    IsOwnEvent request_passed = Unit
    IsOwnEvent msgs_passed = Unit
    IsOwnEvent metrics_passed = Unit
    IsOwnEvent msgs_received = Unit
    IsOwnEvent (entry_written entry) = Unit

    pub record IsKept (g : OraLogger pq redis writer) : Type 0 where
      pub sound : IsSound pq setts (handed g.ora.ora_cntrl) g.ora.ora_cntrl
      pub connected : g.redis_cntrl.success_connect ≡ true
      pub distinct : Distinct (entries g.stream)
      pub complete : IsComplete g

    pub pass_request-IsKept :
        (g : OraLogger pq redis writer) → IsKept g → IsKept (pass_request pq redis writer g)
    unfolding pass_request read_request
    pass_request-IsKept g kept =
        if_holds IsKept
          (not (main_waits pq redis writer g)
            && ltb g.ora.requests_read g.ora.ora_cntrl.request_count)
          _ g
          (λ wanted.
            if_holds (λ b. IsKept (record g { ora = b; request_msg_chan = suc g.request_msg_chan }))
              (ltb g.ora.requests_read g.ora.ora_cntrl.request_count)
              (record g.ora { requests_read = suc g.ora.requests_read }) g.ora
              (λ some_wait. record {
                sound = kept.sound;
                connected = kept.connected;
                distinct = kept.distinct;
                complete = kept.complete;
              })
              (λ none_wait. record {
                sound = kept.sound;
                connected = kept.connected;
                distinct = kept.distinct;
                complete = kept.complete;
              }))
          (λ not_wanted. kept)

    pub pass_metrics-IsKept :
        (g : OraLogger pq redis writer) → IsKept g → IsKept (pass_metrics pq redis writer g)
    unfolding pass_metrics
    pass_metrics-IsKept g kept =
        if_holds IsKept (main_waits pq redis writer g) g _ (λ waits. kept)
          (λ free. record {
            sound = kept.sound;
            connected = kept.connected;
            distinct = kept.distinct;
            complete = kept.complete;
          })

    pub pass_msgs-IsKept :
        (g : OraLogger pq redis writer) (waiting : List (List LogMessage))
        → g.redis_cntrl.send_msg_chan ≡ waiting
        → IsKept g
        → IsKept (pass_msgs pq redis writer g waiting)
    unfolding pass_msgs
    pass_msgs-IsKept g [] e kept = kept
    pass_msgs-IsKept g (msgs ∷ others) e kept =
        let unread = messages_in (without g.redis_cntrl.prev_read_ids (entries g.stream)) in
        if_holds IsKept (main_waits pq redis writer g) g _ (λ waits. kept)
          (λ free. record {
            sound = kept.sound;
            connected = kept.connected;
            distinct = kept.distinct;
            complete =
                Holding-moved (places g) _ (messages_in g.lost) (messages_in g.written)
                  (ap (λ logs. handed g.ora.ora_cntrl ++ logs)
                    (ap (λ logs. logs ++ (concat others ++ unread))
                        (concat-append g.receive_msg_chan msgs)
                      ∙ append_assoc (concat g.receive_msg_chan) msgs (concat others ++ unread)
                      ∙ ap (λ logs. concat g.receive_msg_chan ++ logs)
                          (sym (append_assoc msgs (concat others) unread)
                            ∙ ap (λ waiting. concat waiting ++ unread) (sym e))))
                  kept.complete;
          })

    pub take_request-IsKept :
        (answers : Bool) (g : OraLogger pq redis writer)
        → IsKept g
        → IsKept (take_request pq redis writer true answers g)
    unfolding take_request
    take_request-IsKept answers g kept =
        let ((counted, connected), distinct) =
          handle_request-IsAccounted redis answers g.redis_cntrl g.stream kept.connected
            kept.distinct in
        if_holds IsKept (ltb 0 g.request_msg_chan && not (reader_waits pq redis writer g)) _ g
          (λ some_request. record {
            sound = kept.sound;
            connected = connected;
            distinct = distinct;
            complete =
                Holding-moved (places g) _ (messages_in g.lost) (messages_in g.written)
                  (ap (λ logs. handed g.ora.ora_cntrl ++ (concat g.receive_msg_chan ++ logs))
                    counted)
                  kept.complete;
          })
          (λ no_request. kept)

    pub write_entry-IsKept :
        (entry : Entry) (g : OraLogger pq redis writer)
        → IsKept g
        → IsKept (write_entry pq redis writer entry g)
    unfolding write_entry
    write_entry-IsKept entry g kept =
        let longer = entries g.stream ++ entry ∷ [] in
        let ids = g.redis_cntrl.prev_read_ids in
        let n = trimmed entry g.stream in
        let gone = without ids (take n longer) in
        let rest = without ids (drop n longer) in
        let passed = concat g.receive_msg_chan ++ concat g.redis_cntrl.send_msg_chan in
        let old = without ids (entries g.stream) in
        if_holds IsKept (not (mem entry.0 ids) && not (mem entry.0 (ids_of (entries g.stream)))) _ g
          (λ new. record {
            sound = kept.sound;
            connected = kept.connected;
            distinct = subst Distinct (sym (entries-xadd entry g.stream)) (
                Distinct-drop n longer
                  (Distinct-last (entries g.stream) entry (ground (arith, new)) kept.distinct));
            complete =
                Holding-renamed _ _ _ _ _ (messages_in-append g.lost gone)
                  (messages_in-append g.written (entry ∷ []))
                  (Holding-lost (handed g.ora.ora_cntrl) (on_way g)
                    (on_way (record g { stream = writer.xadd entry g.stream }))
                    (messages_in (entry ∷ [])) passed (messages_in gone) (messages_in rest)
                    (messages_in g.lost) (messages_in g.written)
                    (ap (λ logs. logs ++ messages_in (entry ∷ []))
                        (sym (append_assoc (concat g.receive_msg_chan) _ (messages_in old)))
                      ∙ append_assoc passed (messages_in old) (messages_in (entry ∷ []))
                      ∙ ap (λ logs. passed ++ logs)
                          (sym (messages_in-append old (entry ∷ []))
                            ∙ ap messages_in (
                                sym
                                  (without-last ids (entries g.stream) entry (ground (arith, new)))
                                ∙ ap (without ids) (sym (take-append-drop n longer))
                                ∙ without-append ids (take n longer) (drop n longer))
                            ∙ messages_in-append gone rest))
                    (ap
                        (λ list.
                          concat g.receive_msg_chan
                          ++ (concat g.redis_cntrl.send_msg_chan ++ messages_in (without ids list)))
                        (entries-xadd entry g.stream)
                      ∙ sym (append_assoc (concat g.receive_msg_chan) _ (messages_in rest)))
                    kept.complete);
          })
          (λ known. kept)
