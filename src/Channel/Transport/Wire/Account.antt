-- ===== src/Channel/Transport/Wire/Account.antt =====
-- What the steps of a connection do to the packets.
use fmtp.Prelude.{
  ◌≡◌, refl, sym, ap, ◌∙◌, Bool, true, false, not, ◌&&◌, Option, none, some, List, [], ◌∷◌, ◌++◌,
  Bytes, ◌==◌, ltb, if◌then◌else◌, Bool-cases, inl, inr,
}
use mathlib.Core.List.{append-nil, append_assoc}
use fmtp.Protocol.Event.{FmtpEvent, none_event, event_eq}
use fmtp.Channel.Core.{DataAndEvent}
use fmtp.Channel.Transport.Wire.{
  Wire, WireEvent, packet_queued, read_begun, bytes_read, read_failed, packet_written, write_failed,
  read_error_taken, write_error_taken, receiver_cancelled, sender_cancelled, begin_read, end_read,
  log_read_error, fail_read, take_read_error, take_write_error, cancel_receiver, cancel_sender,
  wire_step,
}

abbrev pub packets : List (DataAndEvent × Bool) → List DataAndEvent
packets [] = []
packets ((cur_data, done) ∷ others) = cur_data ∷ packets others

abbrev pub event_of : FmtpEvent → List FmtpEvent
event_of event = if event == none_event then [] else event ∷ []

-- The events of the packets that could be written.
abbrev pub raised : List (DataAndEvent × Bool) → List FmtpEvent
raised [] = []
raised ((cur_data, true) ∷ others) = event_of cur_data.event_after_send ++ raised others
raised ((cur_data, false) ∷ others) = raised others

pub packets-append :
    (xs : List (DataAndEvent × Bool)) (cur_data : DataAndEvent) (done : Bool)
    → packets (xs ++ (cur_data, done) ∷ []) ≡ packets xs ++ cur_data ∷ []
packets-append [] cur_data done = refl
packets-append ((x, d) ∷ xs) cur_data done = ap (λ list. x ∷ list) (packets-append xs cur_data done)

pub raised-append_true :
    (xs : List (DataAndEvent × Bool)) (cur_data : DataAndEvent)
    → raised (xs ++ (cur_data, true) ∷ []) ≡ raised xs ++ event_of cur_data.event_after_send
raised-append_true [] cur_data = append-nil (event_of cur_data.event_after_send)
raised-append_true ((x, true) ∷ xs) cur_data =
    ap (λ list. event_of x.event_after_send ++ list) (raised-append_true xs cur_data)
    ∙ sym (
        append_assoc (event_of x.event_after_send) (raised xs) (event_of cur_data.event_after_send))
raised-append_true ((x, false) ∷ xs) cur_data = raised-append_true xs cur_data

pub raised-append_false :
    (xs : List (DataAndEvent × Bool)) (cur_data : DataAndEvent)
    → raised (xs ++ (cur_data, false) ∷ []) ≡ raised xs
raised-append_false [] cur_data = refl
raised-append_false ((x, true) ∷ xs) cur_data =
    ap (λ list. event_of x.event_after_send ++ list) (raised-append_false xs cur_data)
raised-append_false ((x, false) ∷ xs) cur_data = raised-append_false xs cur_data

-- The packets and the events as a step finds them.
abbrev pub Ledger : Type 0
Ledger = List (DataAndEvent × Bool) × List DataAndEvent × List FmtpEvent

abbrev pub ledger : Wire → Ledger
ledger w = (w.taken, w.to_send_data_chan, w.event_chan)

-- Reading, and passing on an error, leave the packets alone.
begin_read-ledger : (w : Wire) → ledger (begin_read w) ≡ ledger w
unfolding begin_read
begin_read-ledger w = elim (Bool-cases (ltb 0 w.polling)) [
  | inl polls ↦ rw polls refl
  | inr other ↦ rw other refl
]

end_read-ledger : (buffer : Bytes) (w : Wire) → ledger (end_read buffer w) ≡ ledger w
unfolding end_read
end_read-ledger buffer w = elim (Bool-cases (ltb 0 w.reading)) [
  | inl reads ↦ rw reads refl
  | inr other ↦ rw other refl
]

fail_read-ledger : (err : Option Bytes) (w : Wire) → ledger (fail_read err w) ≡ ledger w
unfolding fail_read log_read_error
fail_read-ledger none w = elim (Bool-cases (ltb 0 w.reading)) [
  | inl reads ↦ rw reads refl
  | inr other ↦ rw other refl
]
fail_read-ledger (some err) w = elim (Bool-cases (ltb 0 w.reading)) [
  | inl reads ↦ rw reads refl
  | inr other ↦ rw other refl
]

take_read_error-ledger : (w : Wire) → ledger (take_read_error w) ≡ ledger w
unfolding take_read_error
take_read_error-ledger w = elim (Bool-cases (not w.stopping && ltb 0 w.read_failing)) [
  | inl taken ↦ rw taken refl
  | inr other ↦ rw other refl
]

take_write_error-ledger : (w : Wire) → ledger (take_write_error w) ≡ ledger w
unfolding take_write_error
take_write_error-ledger w = elim (Bool-cases (not w.stopping && ltb 0 w.write_failing)) [
  | inl taken ↦ rw taken refl
  | inr other ↦ rw other refl
]

-- The packet that an event queues.
abbrev pub queued_by : WireEvent → List DataAndEvent
queued_by (packet_queued cur_data) = cur_data ∷ []
queued_by event = []

-- The steps that neither queue a packet nor write one.
abbrev pub IsQuiet : WireEvent → Type 0
IsQuiet (packet_queued cur_data) = ⊥
IsQuiet packet_written = ⊥
IsQuiet (write_failed err) = ⊥
IsQuiet read_begun = Unit
IsQuiet (bytes_read buffer) = Unit
IsQuiet (read_failed err) = Unit
IsQuiet read_error_taken = Unit
IsQuiet write_error_taken = Unit
IsQuiet (receiver_cancelled err) = Unit
IsQuiet (sender_cancelled err) = Unit

module _ (close_client : Option Bytes → Wire → Wire)
    (close_client-ledger : (err : Option Bytes) (w : Wire)
      → ledger (close_client err w) ≡ ledger w) where
  cancel_receiver-ledger :
      (err : Option Bytes) (w : Wire) → ledger (cancel_receiver close_client err w) ≡ ledger w
  unfolding cancel_receiver
  cancel_receiver-ledger err w = elim (Bool-cases (w.stopping && ltb 0 w.polling)) [
    | inl ends ↦ rw ends (close_client-ledger err _)
    | inr other ↦ rw other refl
  ]

  cancel_sender-ledger :
      (err : Option Bytes) (w : Wire) → ledger (cancel_sender close_client err w) ≡ ledger w
  unfolding cancel_sender
  cancel_sender-ledger err w = elim (Bool-cases (w.stopping && ltb 0 w.waiting)) [
    | inl ends ↦ rw ends (close_client-ledger err _)
    | inr other ↦ rw other refl
  ]

  pub wire_step-ledger :
      (event : WireEvent) (w : Wire)
      → IsQuiet event
      → ledger (wire_step close_client event w) ≡ ledger w
  unfolding wire_step
  wire_step-ledger (packet_queued cur_data) w quiet = absurd quiet
  wire_step-ledger packet_written w quiet = absurd quiet
  wire_step-ledger (write_failed err) w quiet = absurd quiet
  wire_step-ledger read_begun w quiet = begin_read-ledger w
  wire_step-ledger (bytes_read buffer) w quiet = end_read-ledger buffer w
  wire_step-ledger (read_failed err) w quiet = fail_read-ledger err w
  wire_step-ledger read_error_taken w quiet = take_read_error-ledger w
  wire_step-ledger write_error_taken w quiet = take_write_error-ledger w
  wire_step-ledger (receiver_cancelled err) w quiet = cancel_receiver-ledger err w
  wire_step-ledger (sender_cancelled err) w quiet = cancel_sender-ledger err w
