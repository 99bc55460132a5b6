-- ===== src/Channel/Core/Buffer.antt =====
-- Sending neither reads nor changes the buffer of received bytes.
use fmtp.Prelude.{String, ◌≡◌, arith, Bytes}
use fmtp.Protocol.Event.{FmtpEvent}
use fmtp.Protocol.Message.{FmtpMessage}
use fmtp.Channel.Core.{Recoding, StateController, send_packet}

abbrev pub with_buffer : Bytes → StateController → StateController
with_buffer b c = record c { received_buffer = b }

pub send_packet-with_buffer :
    (u : Recoding) (c : StateController) (b : Bytes) (msg : FmtpMessage) (e : FmtpEvent)
    (severity : String)
    → send_packet u (with_buffer b c) msg e severity
      ≡ with_buffer b (send_packet u c msg e severity)
unfolding send_packet
send_packet-with_buffer u c b msg e severity = ground arith
