-- ===== src/Channel/Settings.antt =====
-- channel/channel_settings/channel_settings.go. Texts that go on the wire are bytes; texts that are
-- only compared as a whole are native strings.
pub mod Check
use fmtp.Prelude.{
  String, Bool, ◌&&◌, ◌||◌, not, Option, none, some, List, [], ◌==◌, if◌then◌else◌, string_eq,
  bytes_eq, Bytes, ℤ, pos, leb_ℤ,
}
use fmtp.Protocol.State
use fmtp.Protocol.State.{FmtpState}

abbrev pub tcp_server_text : String
tcp_server_text = "server"

abbrev pub tcp_client_text : String
tcp_client_text = "client"

abbrev pub encode1251 : String
encode1251 = "Windows-1251"

pub record ChannelSettings : Type 0 where
  pub id : ℤ
  pub version : String
  pub data_type : String
  pub net_role : String
  pub local_name : Bytes
  pub local_atc : Bytes
  pub remote_name : Bytes
  pub remote_atc : Bytes
  pub interval_ts : ℤ
  pub interval_tr : ℤ
  pub interval_ti : ℤ
  pub reconnect_timeout : ℤ
  pub fmtp_init_state_str : String
  pub fmtp_init_state : FmtpState
  pub remote_address : String
  pub remote_port : ℤ
  pub local_port : ℤ
  pub data_encoding : String
  pub log_debug : Bool
  pub is_working : Bool
  pub url_address : String
  pub url_path : String
  pub url_port : ℤ

-- One constructor for each message of `CheckSettings`.
pub data SettingsError : Type 0 where
  no_data_type no_net_role no_local_name no_local_atc no_remote_name no_remote_atc : SettingsError
  ts_not_below_tr bad_local_port no_remote_address bad_remote_port no_encoding : SettingsError

abbrev bad_port : ℤ → Bool
bad_port port = leb_ℤ port (pos 2000) || leb_ℤ (pos 65535) port

-- The tests in their order; the first that fails is the answer.
settings_error : ChannelSettings → Option SettingsError
settings_error s =
    if s.data_type == ""
    then some no_data_type
    else if not (s.net_role == tcp_server_text) && not (s.net_role == tcp_client_text)
    then some no_net_role
    else if s.local_name == []
    then some no_local_name
    else if s.local_atc == []
    then some no_local_atc
    else if s.remote_name == []
    then some no_remote_name
    else if s.remote_atc == []
    then some no_remote_atc
    else if leb_ℤ s.interval_tr s.interval_ts
    then some ts_not_below_tr
    else if s.net_role == tcp_server_text && bad_port s.local_port
    then some bad_local_port
    else if s.net_role == tcp_client_text && s.remote_address == ""
    then some no_remote_address
    else if s.net_role == tcp_client_text && bad_port s.remote_port
    then some bad_remote_port
    else if s.data_encoding == ""
    then some no_encoding
    else none

abbrev outcome : ChannelSettings → Option SettingsError → ChannelSettings × Option SettingsError
outcome s (some e) = (s, some e)
outcome s none = (record s { fmtp_init_state = State.from_string s.fmtp_init_state_str }, none)

-- The settings after the call, and the error if there is one.
unfoldable pub check_settings : ChannelSettings → ChannelSettings × Option SettingsError
unfolding settings_error
check_settings s = outcome s (settings_error s)

pub record ChannelSettingsWithPort : Type 0 where
  pub ch_settings : List ChannelSettings
  pub ch_port : ℤ
