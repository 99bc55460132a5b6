-- ===== src/Storage/Redis/Once.antt =====
-- Every message of the stream is handed on once.
use fmtp.Prelude.{
  ℕ, suc, ◌≡◌, refl, sym, ap, ◌∙◌, subst, Bool, true, false, List, [], ◌∷◌, ◌++◌, length, Bytes,
  bytes_eq, ltb, if◌then◌else◌, arith, Bool-cases, inl, inr,
}
use mathlib.Core.List.{append-nil, append_assoc}
use fmtp.Storage.Message.{LogMessage}
use fmtp.Storage.Redis.{
  Entry, without, RedisStream, RedisCntrl, messages_in, ids_of, delete_read, send_msgs,
  take_entries, read_new, handle_request,
}
use fmtp.Storage.Redis.Entries.{
  Distinct, none_read, without-others, Distinct-without, without-prefix, messages_in-append,
}

abbrev pub concat : List (List LogMessage) → List LogMessage
concat [] = []
concat (msgs ∷ others) = msgs ++ concat others

pub concat-append :
    (xs : List (List LogMessage)) (msgs : List LogMessage)
    → concat (xs ++ msgs ∷ []) ≡ concat xs ++ msgs
concat-append [] msgs = append-nil msgs
concat-append (first ∷ xs) msgs =
    ap (λ list. first ++ list) (concat-append xs msgs) ∙ sym (append_assoc first (concat xs) msgs)

module _ (redis : RedisStream) where
  open redis use {Stream, entries, xread, xdel, xread-entries, entries-xdel}

  -- The messages handed on, then those that no request has read.
  abbrev pub account : RedisCntrl × Stream → List LogMessage
  account (c, s) = concat c.send_msg_chan ++ messages_in (without c.prev_read_ids (entries s))

  -- The ids of the entries that were read are gone, with these entries.
  abbrev IsCleared : RedisCntrl → Stream → RedisCntrl × Stream → Type 0
  IsCleared c s (after, left) =
      (after.prev_read_ids ≡ [])
      × (after.success_connect ≡ true)
      × (after.send_msg_chan ≡ c.send_msg_chan)
      × (entries left ≡ without c.prev_read_ids (entries s))

  delete_read-IsCleared :
      (c : RedisCntrl) (s : Stream)
      → c.success_connect ≡ true
      → IsCleared c s (delete_read redis true (c, s))
  unfolding delete_read
  delete_read-IsCleared c s up = elim (Bool-cases (ltb 0 (length c.prev_read_ids))) [
    | inl some_read ↦
        subst (IsCleared c s) (sym (ap choice {y = true} (rw (some_read, up) refl)))
          (refl, up, refl, entries-xdel c.prev_read_ids s)
    | inr nothing ↦ subst (IsCleared c s) (sym (ap choice {y = false} (rw nothing refl))) (
      no_ids c.prev_read_ids nothing,
      up,
      refl,
      sym (rw (no_ids c.prev_read_ids nothing) (without_nil (entries s))),
    )
  ]
    where
      choice : Bool → RedisCntrl × Stream
      choice b = if b then (record c { prev_read_ids = [] }, xdel c.prev_read_ids s) else (c, s)

      no_ids : (ids : List Bytes) → ltb 0 (length ids) ≡ false → ids ≡ []
      no_ids [] h = refl
      no_ids (id ∷ ids) h = absurd (ground (arith, h))

      without_nil : (es : List Entry) → without [] es ≡ es
      without_nil es = without-others [] es (none_read es)

  -- Sending changes the list of what was sent, and no empty list is sent.
  send_msgs-concat :
      (msgs : List LogMessage) (c : RedisCntrl)
      → (concat (send_msgs redis msgs c).send_msg_chan ≡ concat c.send_msg_chan ++ msgs)
        × ((send_msgs redis msgs c).prev_read_ids ≡ c.prev_read_ids)
        × ((send_msgs redis msgs c).success_connect ≡ c.success_connect)
  send_msgs-concat [] c = (sym (append-nil (concat c.send_msg_chan)), refl, refl)
  send_msgs-concat (msg ∷ msgs) c =
      rw (some_msgs (length msgs)) (concat-append c.send_msg_chan (msg ∷ msgs), refl, refl)
    where
      some_msgs : (n : ℕ) → ltb 0 (suc n) ≡ true
      some_msgs n = ground arith

  -- The account is as given, and the connection stands.
  abbrev pub IsAccounted : List LogMessage → Stream → RedisCntrl → Type 0
  IsAccounted logs s c = (account (c, s) ≡ logs) × (c.success_connect ≡ true)

  take_entries-IsAccounted :
      (vals rest : List Entry) (c : RedisCntrl) (s : Stream)
      → c.prev_read_ids ≡ []
      → c.success_connect ≡ true
      → entries s ≡ vals ++ rest
      → Distinct (entries s)
      → IsAccounted
          (concat c.send_msg_chan ++ messages_in (entries s))
          s
          (take_entries redis vals c)
  unfolding take_entries
  take_entries-IsAccounted vals rest c s none_left up split distinct =
      let noted : RedisCntrl = record c {
        prev_read_ids = c.prev_read_ids ++ ids_of vals;
        metrics = c.metrics ++ length (messages_in vals) ∷ [];
      } in
      let (sent, kept, still_up) = send_msgs-concat (messages_in vals) noted in
      (
        rw (sent, kept, none_left, split)
            (ap (λ list. concat c.send_msg_chan ++ messages_in vals ++ messages_in list)
                (without-prefix vals rest (subst Distinct split distinct))
              ∙ append_assoc (concat c.send_msg_chan) (messages_in vals) (messages_in rest)
              ∙ ap (λ list. concat c.send_msg_chan ++ list) (sym (messages_in-append vals rest))),
        still_up ∙ up,
      )

  read_new-IsAccounted :
      (answers : Bool) (c : RedisCntrl) (s : Stream)
      → c.prev_read_ids ≡ []
      → c.success_connect ≡ true
      → Distinct (entries s)
      → IsAccounted
          (concat c.send_msg_chan ++ messages_in (entries s))
          s
          (read_new redis answers c s)
  unfolding read_new
  read_new-IsAccounted answers c s none_left up distinct =
      subst (IsAccounted (concat c.send_msg_chan ++ messages_in (entries s)) s) (sym (ap choice up))
        (answered answers)
    where
      asked : Bool → RedisCntrl
      asked b =
          if b
          then take_entries redis (xread c.setts.max_read_count s) c
          else record c { metrics = c.metrics ++ 0 ∷ [] }

      choice : Bool → RedisCntrl
      choice b = if b then asked answers else c

      unread : without c.prev_read_ids (entries s) ≡ entries s
      unread = rw none_left (without-others [] (entries s) (none_read (entries s)))

      answered :
          (b : Bool) → IsAccounted (concat c.send_msg_chan ++ messages_in (entries s)) s (asked b)
      answered true =
          let (rest, split) = xread-entries c.setts.max_read_count s in
          take_entries-IsAccounted (xread c.setts.max_read_count s) rest c s none_left up split
            distinct
      answered false = (ap (λ list. concat c.send_msg_chan ++ messages_in list) unread, up)

  pub handle_request-IsAccounted :
      (answers : Bool) (c : RedisCntrl) (s : Stream)
      → c.success_connect ≡ true
      → Distinct (entries s)
      → let (after, left) = handle_request redis true answers (c, s) in
        IsAccounted (account (c, s)) left after × Distinct (entries left)
  unfolding handle_request
  handle_request-IsAccounted answers c s up distinct =
      let (emptied, still_up, sent, gone) = delete_read-IsCleared c s up in
      let left = (delete_read redis true (c, s)).1 in
      let now_distinct : Distinct (entries left) =
        subst Distinct (sym gone) (Distinct-without c.prev_read_ids (entries s) distinct) in
      let (counted, connected) =
        read_new-IsAccounted answers (delete_read redis true (c, s)).0 left emptied still_up
          now_distinct in
      ((counted ∙ rw (sent, gone) refl, connected), now_distinct)

  -- One request after another; the flags say whether Redis answers.
  abbrev pub handle_requests : List Bool → RedisCntrl × Stream → RedisCntrl × Stream
  unfolding handle_request
  handle_requests [] system = system
  handle_requests (answers ∷ others) system =
      handle_requests others (handle_request redis true answers system)

  -- Where the controller is connected, no two entries have one id, and Redis deletes what it is told
  -- to, requests neither lose nor repeat nor reorder a message, whether or not Redis answers them:
  -- the messages handed on and those not yet read are together as before.
  pub handle_requests-account :
      (answers : List Bool) (c : RedisCntrl) (s : Stream)
      → c.success_connect ≡ true
      → Distinct (entries s)
      → account (handle_requests answers (c, s)) ≡ account (c, s)
  unfolding handle_requests
  handle_requests-account [] c s up distinct = refl
  handle_requests-account (answer ∷ answers) c s up distinct =
      let ((counted, still_up), still_distinct) =
        handle_request-IsAccounted answer c s up distinct in
      let (after, left) = handle_request redis true answer (c, s) in
      handle_requests-account answers after left still_up still_distinct ∙ counted
