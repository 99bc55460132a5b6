-- ===== src/Channel/Transport/Client/Stuck.antt =====
-- Two loops that fail one after the other leave the client without a goroutine that goes on.
use fmtp.Prelude.{
  ℕ, ◌≡◌, refl, ap, ◌∙◌, Bool, true, false, not, ◌&&◌, Option, none, some, List, [], ◌∷◌, ◌++◌,
  Bytes, bytes_eq, ltb, if_false,
}
use fmtp.Protocol.Event.{FmtpEvent}
use fmtp.Channel.Core.{DataAndEvent}
use fmtp.Channel.Transport.Wire.{
  Wire, WireEvent, packet_queued, read_begun, bytes_read, read_failed, packet_written, write_failed,
  read_error_taken, write_error_taken, receiver_cancelled, sender_cancelled, begin_read, end_read,
  log_read_error, fail_read, write_first, fail_first, take_read_error, take_write_error,
  cancel_receiver, cancel_sender, wire_step,
}
use fmtp.Channel.Transport.Client.{
  TcpTransportClient, close_client, ClientEvent, settings_given, reconnect_signalled, wire_went_on,
  client_step, client_run,
}

-- `Work` waits for a loop to cancel, and none is left that could read the signal.
record IsStuck (w : Wire) : Type 0 where
  stops : w.stopping ≡ true
  none_polls : w.polling ≡ 0
  none_reads : w.reading ≡ 0
  none_waits : w.waiting ≡ 0

none_of : (n : ℕ) → n ≡ 0 → ltb 0 n ≡ false
none_of n e = rw e refl

not_now : (a b : Bool) → a ≡ true → (not a && b) ≡ false
not_now a b e = rw e refl

neither : (a b : Bool) → b ≡ false → (a && b) ≡ false
neither true b e = e
neither false b e = refl

write_first_idle : (w : Wire) (list : List DataAndEvent) → w.waiting ≡ 0 → write_first w list ≡ w
unfolding write_first
write_first_idle w [] idle = refl
write_first_idle w (cur_data ∷ others) idle = if_false _ _ w (none_of w.waiting idle)

fail_first_idle :
    (err : Bytes) (w : Wire) (list : List DataAndEvent) → w.waiting ≡ 0 → fail_first err w list ≡ w
unfolding fail_first
fail_first_idle err w [] idle = refl
fail_first_idle err w (cur_data ∷ others) idle = if_false _ _ w (none_of w.waiting idle)

-- A stuck client only takes packets into its queue.
abbrev only_queues : WireEvent → Wire → Wire
only_queues (packet_queued cur_data) w = record w {
  to_send_data_chan = w.to_send_data_chan ++ cur_data ∷ [];
}
only_queues event w = w

wire_step-IsStuck :
    (event : WireEvent) (w : Wire)
    → IsStuck w
    → wire_step close_client event w ≡ only_queues event w
unfolding wire_step begin_read end_read fail_read take_read_error take_write_error cancel_receiver
    cancel_sender
wire_step-IsStuck (packet_queued cur_data) w stuck = refl
wire_step-IsStuck read_begun w stuck = if_false _ _ w (none_of w.polling stuck.none_polls)
wire_step-IsStuck (bytes_read buffer) w stuck = if_false _ _ w (none_of w.reading stuck.none_reads)
wire_step-IsStuck (read_failed err) w stuck = if_false _ _ w (none_of w.reading stuck.none_reads)
wire_step-IsStuck packet_written w stuck = write_first_idle w w.to_send_data_chan stuck.none_waits
wire_step-IsStuck (write_failed err) w stuck =
    fail_first_idle err w w.to_send_data_chan stuck.none_waits
wire_step-IsStuck read_error_taken w stuck = if_false _ _ w (not_now w.stopping _ stuck.stops)
wire_step-IsStuck write_error_taken w stuck = if_false _ _ w (not_now w.stopping _ stuck.stops)
wire_step-IsStuck (receiver_cancelled err) w stuck =
    if_false _ _ w (neither w.stopping _ (none_of w.polling stuck.none_polls))
wire_step-IsStuck (sender_cancelled err) w stuck =
    if_false _ _ w (neither w.stopping _ (none_of w.waiting stuck.none_waits))

-- What the controller of the channel sees of the transport.
abbrev pub Seen : Type 0
Seen = List Bool × List Bytes × List FmtpEvent

abbrev pub seen : TcpTransportClient → Seen
seen ftc = (ftc.wire.conn_state_chan, ftc.wire.received_data_chan, ftc.wire.event_chan)

abbrev Frame : Type 0
Frame = Bool × ℕ × ℕ × ℕ × List Bool × List Bytes × List FmtpEvent

abbrev frame : Wire → Frame
frame w = (
  w.stopping, w.polling, w.reading, w.waiting, w.conn_state_chan, w.received_data_chan,
  w.event_chan,
)

only_queues-frame : (event : WireEvent) (w : Wire) → frame (only_queues event w) ≡ frame w
only_queues-frame (packet_queued cur_data) w = refl
only_queues-frame read_begun w = refl
only_queues-frame (bytes_read buffer) w = refl
only_queues-frame (read_failed err) w = refl
only_queues-frame packet_written w = refl
only_queues-frame (write_failed err) w = refl
only_queues-frame read_error_taken w = refl
only_queues-frame write_error_taken w = refl
only_queues-frame (receiver_cancelled err) w = refl
only_queues-frame (sender_cancelled err) w = refl

frame-IsStuck : (w next : Wire) → frame next ≡ frame w → IsStuck w → IsStuck next
frame-IsStuck w next same stuck = record {
  stops = ap (λ f. f.0) same ∙ stuck.stops;
  none_polls = ap (λ f. f.1) same ∙ stuck.none_polls;
  none_reads = ap (λ f. f.2) same ∙ stuck.none_reads;
  none_waits = ap (λ f. f.3) same ∙ stuck.none_waits;
}

client_step-frame :
    (event : ClientEvent) (ftc : TcpTransportClient)
    → IsStuck ftc.wire
    → frame (client_step event ftc).wire ≡ frame ftc.wire
unfolding client_step
client_step-frame (settings_given setts dial alive) ftc stuck =
    ap {B = Frame} (λ next. frame next.wire)
      (if_false _ _ ftc (not_now ftc.wire.stopping _ stuck.stops))
client_step-frame (reconnect_signalled dial alive) ftc stuck =
    ap {B = Frame} (λ next. frame next.wire) (if_false _ _ ftc (ap not stuck.stops))
client_step-frame (wire_went_on event) ftc stuck =
    ap {B = Frame} frame (wire_step-IsStuck event ftc.wire stuck) ∙ only_queues-frame event ftc.wire

run-frame :
    (events : List ClientEvent) (ftc : TcpTransportClient)
    → IsStuck ftc.wire
    → frame (client_run events ftc).wire ≡ frame ftc.wire
unfolding client_run
run-frame [] ftc stuck = refl
run-frame (event ∷ events) ftc stuck =
    let same = client_step-frame event ftc stuck in
    run-frame events (client_step event ftc) (frame-IsStuck ftc.wire _ same stuck) ∙ same

-- A client with one connection, whose receiving loop is in a read, and with a packet to send.
abbrev pub one_connection :
    TcpTransportClient → DataAndEvent → List DataAndEvent → TcpTransportClient
one_connection ftc cur_data others = record ftc {
  wire = record (ftc.wire) {
    stopping = false;
    polling = 0;
    reading = 1;
    read_failing = 0;
    waiting = 1;
    write_failing = 0;
    to_send_data_chan = cur_data ∷ others;
  };
}

abbrev both_fail :
    TcpTransportClient
    → DataAndEvent
    → List DataAndEvent
    → Bytes
    → Option Bytes
    → TcpTransportClient
unfolding client_step wire_step
both_fail ftc cur_data others err read_err =
    client_run
      (wire_went_on (write_failed err)
        ∷ wire_went_on write_error_taken
        ∷ wire_went_on (read_failed read_err)
        ∷ [])
      (one_connection ftc cur_data others)

both_fail-IsStuck :
    (ftc : TcpTransportClient) (cur_data : DataAndEvent) (others : List DataAndEvent) (err : Bytes)
    (read_err : Option Bytes)
    → IsStuck (both_fail ftc cur_data others err read_err).wire
      × (seen (both_fail ftc cur_data others err read_err)
          ≡ seen (one_connection ftc cur_data others))
unfolding both_fail client_run client_step wire_step fail_first take_write_error fail_read
    log_read_error
both_fail-IsStuck ftc cur_data others err none =
    (record { stops = refl; none_polls = refl; none_reads = refl; none_waits = refl }, refl)
both_fail-IsStuck ftc cur_data others err (some read_err) =
    (record { stops = refl; none_polls = refl; none_reads = refl; none_waits = refl }, refl)

-- Where a write of a connected client fails, and after `Work` has taken that error the read that is
-- under way fails too, the client hangs: whatever happens then, signals to reconnect and new settings
-- included, it reports no state of the connection, hands on no bytes and raises no event any more,
-- not even that the connection is lost.
pub client_run-seen :
    (ftc : TcpTransportClient) (cur_data : DataAndEvent) (others : List DataAndEvent) (err : Bytes)
    (read_err : Option Bytes) (events : List ClientEvent)
    → seen (
        client_run
          (wire_went_on (write_failed err)
            ∷ wire_went_on write_error_taken
            ∷ wire_went_on (read_failed read_err)
            ∷ events)
          (one_connection ftc cur_data others))
      ≡ seen (one_connection ftc cur_data others)
unfolding client_run both_fail
client_run-seen ftc cur_data others err read_err events =
    let (stuck, same) = both_fail-IsStuck ftc cur_data others err read_err in
    ap (λ f. (f.4, f.5, f.6)) (run-frame events (both_fail ftc cur_data others err read_err) stuck)
    ∙ same
