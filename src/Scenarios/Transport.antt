-- ===== src/Scenarios/Transport.antt =====
-- The theorems about the transport applied to concrete packets and clients.
use fmtp.Prelude.{
  arith, bytes_beq, ◌+◌, ◌*◌, ◌≤◌, ◌≡◌, refl, none, some, List, [], ◌∷◌, codes, true,
}
use fmtp.Protocol.Event.{l_startup, none_event}
use fmtp.Channel.Core.{DataAndEvent}
use fmtp.Channel.Transport.Settings.{TcpTransportSettings, no_settings}
use fmtp.Channel.Transport.Wire.{
  packet_queued, read_begun, receiver_cancelled, read_failed, write_failed, read_error_taken,
  write_error_taken, sender_cancelled,
}
use fmtp.Channel.Transport.Client.{
  settings_given, reconnect_signalled, wire_went_on, new_fmtp_tcp_client, client_run,
}
use fmtp.Channel.Transport.Loops.{
  LoopEvent, client_went_on, packet_taken, put_done, put_failed, event_raised, OneLoop,
  new_sending_client, loop_run,
}
use fmtp.Channel.Transport.Loops.Kept.{Accounts}
use fmtp.Channel.Transport.Loops.InOrder.{queued_in, loop_run-Accounts}
use fmtp.Channel.Transport.Client.Stuck.{seen, one_connection, client_run-seen}
use fmtp.Channel.Transport.Server.{
  ServerEvent, server_settings_given, client_accepted, server_wire_went_on, new_fmtp_tcp_server,
  server_run,
}
use fmtp.Channel.Transport.Server.Accept.{bit, receivers, senders, server_run-IsSingle}

abbrev packet : DataAndEvent
packet = record { data_to_send = codes "S"; event_after_send = l_startup }

abbrev beat : DataAndEvent
beat = record { data_to_send = codes "H"; event_after_send = none_event }

abbrev settings : TcpTransportSettings
settings = record no_settings { server_addr = codes "127.0.0.1" }

-- The first connection fails; the second one ends with a packet that cannot be written.
abbrev loop_events : List LoopEvent
loop_events =
    client_went_on (settings_given settings (some (codes "refused")) none)
    ∷ client_went_on (reconnect_signalled none none)
    ∷ client_went_on (wire_went_on (packet_queued packet))
    ∷ client_went_on (wire_went_on (packet_queued beat))
    ∷ packet_taken
    ∷ put_done 0
    ∷ event_raised 0
    ∷ packet_taken
    ∷ client_went_on (wire_went_on (packet_queued packet))
    ∷ put_failed 0 (codes "broken pipe")
    ∷ client_went_on (wire_went_on write_error_taken)
    ∷ client_went_on (wire_went_on (receiver_cancelled none))
    ∷ client_went_on (reconnect_signalled none none)
    ∷ packet_taken
    ∷ put_done 0
    ∷ []

loop_run-Accounts_example :
    Accounts (queued_in loop_events) (loop_run loop_events new_sending_client)
unfolding loop_run new_sending_client bytes_beq
loop_run-Accounts_example = loop_run-Accounts loop_events one
  where
    one : OneLoop loop_events new_sending_client
    one = ground arith

client_run-seen_example :
    seen (
      client_run
        (wire_went_on (write_failed (codes "broken pipe"))
          ∷ wire_went_on write_error_taken
          ∷ wire_went_on (read_failed (some (codes "reset")))
          ∷ reconnect_signalled none none
          ∷ [])
        (one_connection new_fmtp_tcp_client packet (beat ∷ [])))
    ≡ seen (one_connection new_fmtp_tcp_client packet (beat ∷ []))
client_run-seen_example =
    client_run-seen new_fmtp_tcp_client packet (beat ∷ []) (codes "broken pipe")
      (some (codes "reset")) (reconnect_signalled none none ∷ [])

abbrev server_events : List ServerEvent
server_events =
    server_settings_given settings none
    ∷ client_accepted (codes "10.0.0.1")
    ∷ client_accepted (codes "10.0.0.2")
    ∷ server_wire_went_on read_begun
    ∷ server_wire_went_on (read_failed none)
    ∷ server_wire_went_on read_error_taken
    ∷ server_wire_went_on (sender_cancelled none)
    ∷ client_accepted (codes "10.0.0.2")
    ∷ []

server_run-IsSingle_example :
    let w = (server_run server_events new_fmtp_tcp_server).wire in
    (receivers w ≤ 1)
    × (senders w ≤ 1)
    × (receivers w + senders w + bit w.stopping ≤ 2 * bit w.has_client)
server_run-IsSingle_example = server_run-IsSingle server_events

-- The second client is taken after the first one has gone.
accepts_next : (server_run server_events new_fmtp_tcp_server).wire.has_client ≡ true
unfolding server_run new_fmtp_tcp_server bytes_beq
accepts_next = refl
