-- ===== src/Channel/Transport/Loops.antt =====
-- channel/tcp_transport/tcp_transport_client.go: the client with each sending loop's three waits: it
-- takes a packet, writes it, and raises its event. Several loops may be at it at one time.
pub mod Kept
pub mod InOrder
use fmtp.Prelude.{
  ℕ, zero, suc, ◌+◌, ◌-◌, ◌≤◌, Bool, true, false, Option, none, some, List, [], ◌∷◌, ◌++◌, Bytes,
  ◌==◌, ltb, if◌then◌else◌, length,
}
use mathlib.Core.Option.{map as map_option}
use fmtp.Protocol.Event.{FmtpEvent, none_event, event_eq}
use fmtp.Channel.Core.{DataAndEvent}
use fmtp.Channel.Log.{
  transport_error, log_channel_stdt, severity_error, direction_incoming, none_fmtp_type,
}
use fmtp.Channel.Transport.Wire.{
  WireEvent, packet_queued, read_begun, bytes_read, read_failed, packet_written, write_failed,
  read_error_taken, write_error_taken, receiver_cancelled, sender_cancelled, log_to,
}
use fmtp.Channel.Transport.Client.{
  TcpTransportClient, new_fmtp_tcp_client, ClientEvent, settings_given, reconnect_signalled,
  wire_went_on, client_step,
}

-- `waiting` of the wire counts the loops that wait for a packet.
pub record SendingClient : Type 0 where
  pub ftc : TcpTransportClient
  -- The packets of the loops that write.
  pub writing : List DataAndEvent
  -- The events of the loops that have written and wait to pass them on.
  pub raising : List FmtpEvent

unfoldable pub new_sending_client : SendingClient
unfolding new_fmtp_tcp_client
new_sending_client = record { ftc = new_fmtp_tcp_client; writing = []; raising = [] }

-- How many sending loops live.
abbrev pub sending_loops : SendingClient → ℕ
sending_loops s =
    s.ftc.wire.waiting + s.ftc.wire.write_failing + length s.writing + length s.raising

-- The rest of the client, and what the loops do: the one of a place in the list goes on.
pub data LoopEvent : Type 0 where
  client_went_on : ClientEvent → LoopEvent
  packet_taken : LoopEvent
  put_done : ℕ → LoopEvent
  put_failed : ℕ → Bytes → LoopEvent
  event_raised : ℕ → LoopEvent

-- Writing is not the one step of `Wire`.
abbrev pub writes : WireEvent → Bool
writes packet_written = true
writes (write_failed err) = true
writes (packet_queued cur_data) = false
writes read_begun = false
writes (bytes_read buffer) = false
writes (read_failed err) = false
writes read_error_taken = false
writes write_error_taken = false
writes (receiver_cancelled err) = false
writes (sender_cancelled err) = false

abbrev pub move_client : ClientEvent → SendingClient → SendingClient
unfolding client_step
move_client (wire_went_on event) s =
    if writes event then s else record s { ftc = client_step (wire_went_on event) s.ftc }
move_client (settings_given setts dial alive) s = record s {
  ftc = client_step (settings_given setts dial alive) s.ftc;
}
move_client (reconnect_signalled dial alive) s = record s {
  ftc = client_step (reconnect_signalled dial alive) s.ftc;
}

-- What stands at a place of a list, and the others.
abbrev pub pick : {A : Type 0} → List A → ℕ → Option (A × List A)
pick [] n = none
pick (x ∷ xs) zero = some (x, xs)
pick (x ∷ xs) (suc n) = map_option (λ p. (p.0, x ∷ p.1)) (pick xs n)

unfoldable pub take_cur_data : SendingClient → List DataAndEvent → SendingClient
take_cur_data s [] = s
take_cur_data s (cur_data ∷ others) =
    if ltb 0 s.ftc.wire.waiting
    then record s {
      ftc = record s.ftc {
        wire = record s.ftc.wire { to_send_data_chan = others; waiting = s.ftc.wire.waiting - 1 };
      };
      writing = s.writing ++ cur_data ∷ [];
    }
    else s

-- A loop that has no event to raise waits for the next packet.
unfoldable pub end_put : SendingClient → Option (DataAndEvent × List DataAndEvent) → SendingClient
end_put s none = s
end_put s (some (cur_data, others)) =
    let taken = s.ftc.wire.taken ++ (cur_data, true) ∷ [] in
    if cur_data.event_after_send == none_event
    then record s {
      ftc = record s.ftc {
        wire = record s.ftc.wire { taken = taken; waiting = suc s.ftc.wire.waiting };
      };
      writing = others;
    }
    else record s {
      ftc = record s.ftc { wire = record s.ftc.wire { taken = taken } };
      writing = others;
      raising = s.raising ++ cur_data.event_after_send ∷ [];
    }

unfoldable pub fail_put :
    Bytes → SendingClient → Option (DataAndEvent × List DataAndEvent) → SendingClient
unfolding log_channel_stdt
fail_put err s none = s
fail_put err s (some (cur_data, others)) = record s {
  ftc = record s.ftc {
    wire =
        log_to
          (record s.ftc.wire {
            taken = s.ftc.wire.taken ++ (cur_data, false) ∷ [];
            write_failing = suc s.ftc.wire.write_failing;
          })
          (log_channel_stdt severity_error none_fmtp_type direction_incoming
            (transport_error "Ошибка отправки данных в FMTP канала. Ошибка: <%s>." err));
  };
  writing = others;
}

unfoldable pub raise_event : SendingClient → Option (FmtpEvent × List FmtpEvent) → SendingClient
raise_event s none = s
raise_event s (some (event, others)) = record s {
  ftc = record s.ftc {
    wire = record s.ftc.wire {
      event_chan = s.ftc.wire.event_chan ++ event ∷ [];
      waiting = suc s.ftc.wire.waiting;
    };
  };
  raising = others;
}

unfoldable pub loop_step : LoopEvent → SendingClient → SendingClient
unfolding move_client take_cur_data end_put fail_put raise_event
loop_step (client_went_on event) s = move_client event s
loop_step packet_taken s = take_cur_data s s.ftc.wire.to_send_data_chan
loop_step (put_done n) s = end_put s (pick s.writing n)
loop_step (put_failed n err) s = fail_put err s (pick s.writing n)
loop_step (event_raised n) s = raise_event s (pick s.raising n)

unfoldable pub loop_run : List LoopEvent → SendingClient → SendingClient
unfolding loop_step
loop_run [] s = s
loop_run (event ∷ events) s = loop_run events (loop_step event s)

-- At every moment of the run at most one sending loop lives.
abbrev pub OneLoop : List LoopEvent → SendingClient → Type 0
OneLoop [] s = sending_loops s ≤ 1
OneLoop (event ∷ events) s = (sending_loops s ≤ 1) × OneLoop events (loop_step event s)
