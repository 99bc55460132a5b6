-- ===== src/Channel/Transport/Loops/Kept.antt =====
-- What a client does beside its sending loops keeps the account of the packets.
use fmtp.Prelude.{
  ◌≡◌, refl, ap, ◌∙◌, sym, Bool, true, false, not, ◌&&◌, Option, List, [], ◌∷◌, ◌++◌, Bytes,
  if◌then◌else◌,
}
use mathlib.Core.List.{append-nil, append_assoc}
use fmtp.Protocol.Event.{event_eq}
use fmtp.Channel.Core.{DataAndEvent}
use fmtp.Channel.Transport.Settings.{same_settings}
use fmtp.Channel.Transport.Wire.{
  WireEvent, packet_queued, read_begun, bytes_read, read_failed, packet_written, write_failed,
  read_error_taken, write_error_taken, receiver_cancelled, sender_cancelled, wire_step,
}
use fmtp.Channel.Transport.Wire.Account.{
  ledger, packets, raised, queued_by, IsQuiet, wire_step-ledger,
}
use fmtp.Channel.Transport.Client.{
  TcpTransportClient, ClientEvent, settings_given, reconnect_signalled, wire_went_on, start_client,
  close_client, client_step,
}
use fmtp.Channel.Transport.Client.Ledger.{close_client-ledger, start_client-ledger}
use fmtp.Channel.Transport.Loops.{SendingClient, move_client}

-- All the packets that were queued have been written, failed, are being written or wait, in order, and
-- the events that were raised or wait for that are those of the packets that were written, in order.
abbrev pub Accounts : List DataAndEvent → SendingClient → Type 0
Accounts queued s =
    (packets s.ftc.wire.taken ++ (s.writing ++ s.ftc.wire.to_send_data_chan) ≡ queued)
    × (s.ftc.wire.event_chan ++ s.raising ≡ raised s.ftc.wire.taken)

abbrev pub queued_by_client : ClientEvent → List DataAndEvent
queued_by_client (wire_went_on event) = queued_by event
queued_by_client (settings_given setts dial alive) = []
queued_by_client (reconnect_signalled dial alive) = []

same-Accounts :
    (queued : List DataAndEvent) (s : SendingClient) (next : TcpTransportClient)
    → ledger next.wire ≡ ledger s.ftc.wire
    → Accounts queued s
    → Accounts (queued ++ []) (record s { ftc = next })
same-Accounts queued s next same (counted, events) = (
  ap (λ l. packets l.0 ++ (s.writing ++ l.1)) same ∙ counted ∙ sym (append-nil queued),
  ap (λ l. l.2 ++ s.raising) same ∙ events ∙ sym (ap (λ l. raised l.0) same),
)

started-ledger :
    (now : Bool) (dial alive : Option Bytes) (ftc next : TcpTransportClient)
    → ledger next.wire ≡ ledger ftc.wire
    → ledger (if now then start_client dial alive next else ftc).wire ≡ ledger ftc.wire
started-ledger true dial alive ftc next same = start_client-ledger dial alive next ∙ same
started-ledger false dial alive ftc next same = refl

quiet-Accounts :
    (queued : List DataAndEvent) (event : WireEvent) (s : SendingClient)
    → IsQuiet event
    → Accounts queued s
    → Accounts
        (queued ++ [])
        (record s { ftc = record s.ftc { wire = wire_step close_client event s.ftc.wire } })
quiet-Accounts queued event s quiet h =
    same-Accounts queued s (record s.ftc { wire = wire_step close_client event s.ftc.wire })
      (wire_step-ledger close_client close_client-ledger event s.ftc.wire quiet) h

wire-Accounts :
    (queued : List DataAndEvent) (event : WireEvent) (s : SendingClient)
    → Accounts queued s
    → Accounts (queued ++ queued_by event) (move_client (wire_went_on event) s)
unfolding client_step wire_step
wire-Accounts queued (packet_queued cur_data) s (counted, events) = (
  ap (λ list. packets s.ftc.wire.taken ++ list)
        (sym (append_assoc s.writing s.ftc.wire.to_send_data_chan (cur_data ∷ [])))
      ∙ sym (append_assoc (packets s.ftc.wire.taken) _ (cur_data ∷ []))
      ∙ ap (λ list. list ++ cur_data ∷ []) counted,
  events,
)
wire-Accounts queued packet_written s h = rw (append-nil queued) h
wire-Accounts queued (write_failed err) s h = rw (append-nil queued) h
wire-Accounts queued read_begun s h = quiet-Accounts queued read_begun s tt h
wire-Accounts queued (bytes_read buffer) s h = quiet-Accounts queued (bytes_read buffer) s tt h
wire-Accounts queued (read_failed err) s h = quiet-Accounts queued (read_failed err) s tt h
wire-Accounts queued read_error_taken s h = quiet-Accounts queued read_error_taken s tt h
wire-Accounts queued write_error_taken s h = quiet-Accounts queued write_error_taken s tt h
wire-Accounts queued (receiver_cancelled err) s h =
    quiet-Accounts queued (receiver_cancelled err) s tt h
wire-Accounts queued (sender_cancelled err) s h =
    quiet-Accounts queued (sender_cancelled err) s tt h

pub move_client-Accounts :
    (queued : List DataAndEvent) (event : ClientEvent) (s : SendingClient)
    → Accounts queued s
    → Accounts (queued ++ queued_by_client event) (move_client event s)
unfolding client_step
move_client-Accounts queued (wire_went_on event) s h = wire-Accounts queued event s h
move_client-Accounts queued (settings_given setts dial alive) s h =
    let now = not s.ftc.wire.stopping && not (same_settings s.ftc.cur_sett setts) in
    let given : TcpTransportClient = record s.ftc { cur_sett = setts } in
    same-Accounts queued s (if now then start_client dial alive given else s.ftc)
      (started-ledger now dial alive s.ftc given refl) h
move_client-Accounts queued (reconnect_signalled dial alive) s h =
    same-Accounts queued s
      (if not s.ftc.wire.stopping then start_client dial alive s.ftc else s.ftc)
      (started-ledger (not s.ftc.wire.stopping) dial alive s.ftc s.ftc refl) h
