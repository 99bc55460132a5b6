-- ===== src/Chief/Protocol.antt =====
-- chief_channel/chief_channel_protocol.go: the messages between the chief and its channels. A message
-- is the value that is marshalled to JSON; its header is its constructor.
use fmtp.Prelude.{Bytes, ℤ}
use fmtp.Protocol.Message.{FmtpMessage, operational}
use fmtp.Channel.Settings.{ChannelSettings}
use fmtp.Channel.State.{ChannelState}
use fmtp.Channel.Log.{LogEntry}

pub record DataMsg : Type 0 where
  pub channel_id : ℤ
  pub fmtp_message : FmtpMessage

-- From a channel. `unreadable` is what has no known header.
pub data ChannelMsg : Type 0 where
  settings_request : ℤ → ChannelMsg
  channel_heartbeat : ChannelState → ChannelMsg
  channel_log : LogEntry → ChannelMsg
  channel_message : DataMsg → ChannelMsg
  unreadable : ChannelMsg

-- To a channel.
pub data ChiefMsg : Type 0 where
  settings_answer : ChannelSettings → ChiefMsg
  fdps_message : DataMsg → ChiefMsg

unfoldable pub create_chief_data_msg : ℤ → Bytes → ChiefMsg
create_chief_data_msg ch_id msg_text =
    fdps_message
      (record { channel_id = ch_id; fmtp_message = record { type = operational; text = msg_text } })
