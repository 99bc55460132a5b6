-- ===== src/Channel/State.antt =====
-- channel/channel_state/channel_state.go: what a channel reports of itself.
use fmtp.Prelude.{String, nat_eq, string_eq, bytes_eq, int_eq, Bytes, ℤ}

abbrev pub channel_state_ok : String
channel_state_ok = "ok"

abbrev pub channel_state_stopped : String
channel_state_stopped = "stopped"

abbrev pub channel_state_error : String
channel_state_error = "error"

-- `http://address:port/path`
pub record ChannelUrl : Type 0 where
  pub address : String
  pub port : ℤ
  pub path : String

pub record ChannelState : Type 0 where
  pub channel_id : ℤ
  pub local_name : Bytes
  pub remote_name : Bytes
  pub daemon_state : String
  pub fmtp_state : String
  pub channel_url : ChannelUrl
  pub state_color : String
