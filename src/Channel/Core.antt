-- ===== src/Channel/Core.antt =====
-- channel/fmtp_states/state_controller.go: the controller's state and `sendPacket`. A Go channel that
-- the controller writes to is the list of what it has written, oldest first.
pub mod Buffer
use fmtp.Prelude.{
  ℕ, String, Bool, ◌&&◌, ◌||◌, not, List, [], ◌∷◌, ◌++◌, ◌==◌, if◌then◌else◌, string_eq, Bytes,
}
use fmtp.Protocol.State.{FmtpState}
use fmtp.Protocol.Event.{FmtpEvent}
use fmtp.Protocol.Message
use fmtp.Protocol.Message.{FmtpMessage}
use fmtp.Protocol.Packet.{make_fmtp_packet}
use fmtp.Protocol.Machine.{FmtpStateMachine}
use fmtp.Channel.Settings.{ChannelSettings, encode1251}
use fmtp.Channel.State.{ChannelState}
use fmtp.Channel.Log.{LogEntry, content, severity_debug, direction_outcoming, log_channel_stdt}
use fmtp.Channel.Timer.{Timer}

-- The recoding functions of the utils package, which is not part of the repository.
pub record Recoding : Type 0 where
  pub utf8_to_win1251 : Bytes → Bytes
  pub win1251_to_utf8 : Bytes → Bytes

-- tcp_transport_interface.go: a packet and the event that its successful sending raises.
pub record DataAndEvent : Type 0 where
  pub data_to_send : Bytes
  pub event_after_send : FmtpEvent

pub record StateController : Type 0 where
  -- The transport's `SendChan`.
  pub send_chan : List DataAndEvent
  pub ti_timer : Timer
  pub ts_timer : Timer
  pub tr_timer : Timer
  pub current_state : FmtpState
  pub fmtp_state_chan : List ChannelState
  pub cur_set : ChannelSettings
  pub state_machine : FmtpStateMachine
  pub own_identification_msg : FmtpMessage
  pub remote_identification_msg : FmtpMessage
  pub log_message_chan : List LogEntry
  pub fmtp_data_receive_chan : List FmtpMessage
  pub received_buffer : Bytes
  -- Calls of `time.AfterFunc` that will signal the transport to reconnect.
  pub reconnects_planned : ℕ

abbrev pub log_entry : StateController → LogEntry → StateController
log_entry c entry = record c { log_message_chan = c.log_message_chan ++ entry ∷ [] }

abbrev pub log_entry_if : Bool → StateController → LogEntry → StateController
log_entry_if logged c entry = record c {
  log_message_chan = if logged then c.log_message_chan ++ entry ∷ [] else c.log_message_chan;
}

-- `(severity == Debug && LogDebug) || severity != Debug`
abbrev pub is_logged : StateController → String → Bool
is_logged c severity =
    severity == severity_debug && c.cur_set.log_debug || not (severity == severity_debug)

abbrev pub recode : (Bytes → Bytes) → String → FmtpMessage → FmtpMessage
recode to encoding msg = if encoding == encode1251 then record msg { text = to msg.text } else msg

abbrev enqueue : StateController → FmtpMessage → FmtpEvent → StateController
enqueue c msg event = record c {
  send_chan =
      c.send_chan ++ record { data_to_send = make_fmtp_packet msg; event_after_send = event } ∷ [];
}

unfoldable pub send_packet :
    Recoding → StateController → FmtpMessage → FmtpEvent → String → StateController
unfolding log_channel_stdt
send_packet u c msg event severity =
    let sent = enqueue c (recode u.utf8_to_win1251 c.cur_set.data_encoding msg) event in
    log_entry_if (is_logged c severity) sent (
      log_channel_stdt severity (Message.to_string msg.type) direction_outcoming (content msg.text))
