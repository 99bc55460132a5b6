-- ===== src/Channel/Program.antt =====
-- channel/fmtp_channel.go: the program of a channel, and what it does with the messages of the chief.
-- JSON that cannot be read is `unreadable_from_chief`.
pub mod Args
pub mod Starts
use fmtp.Prelude.{
  ℕ, ◌≡◌, ◌≢◌, ◌↔◌, refl, Bool, true, false, String, All, Option, none, some, List, [], ◌∷◌, ◌++◌,
  length, Bytes, codes, ℤ, pos,
}
use fmtp.Storage.Decimal.{itoa, atoi, atoi-itoa}
use fmtp.Channel.Settings.{ChannelSettings, SettingsError, check_settings}
use fmtp.Channel.ChiefClient.{ClientSettings}
use fmtp.Chief.Protocol.{ChiefMsg, DataMsg, settings_answer, fdps_message}
use fmtp.Channel.State.{ChannelState}
use fmtp.Protocol.Message.{FmtpMessage}
use fmtp.Channel.Log.{
  LogEntry, LogText, transport_text, transport_error, log_channel_st, severity_error,
  severity_debug,
}

abbrev pub fail_to_connect : ℕ
fail_to_connect = 1005

-- A log message with what the program knows of its channel.
pub record CompleteLog : Type 0 where
  pub entry : LogEntry
  pub log_channel_id : ℤ
  pub log_loc_name : Bytes
  pub log_rem_name : Bytes
  pub log_data_type : String

unfoldable pub complete_log_message : ChannelSettings → LogEntry → CompleteLog
complete_log_message channel_setts log_msg = record {
  entry = log_msg;
  log_channel_id = channel_setts.id;
  log_loc_name = channel_setts.local_atc;
  log_rem_name = channel_setts.remote_atc;
  log_data_type = channel_setts.data_type;
}

-- What the program sends to the chief.
pub data ToChief : Type 0 where
  log_sent : CompleteLog → ToChief
  heartbeat_sent : ChannelState → ToChief
  data_sent : DataMsg → ToChief

-- What comes from the chief, from its client, and from the controller of the states.
pub data ProgramInput : Type 0 where
  from_chief : ChiefMsg → ProgramInput
  unreadable_from_chief : Bytes → ProgramInput
  log_given : LogEntry → ProgramInput
  connection_given_up : ProgramInput
  state_given : ChannelState → ProgramInput
  data_given : FmtpMessage → ProgramInput

pub record Program : Type 0 where
  pub channel_setts : ChannelSettings
  pub to_chief : List ToChief
  -- The settings with which `Work` of the controller has been started.
  pub controllers : List ChannelSettings
  -- What has been written to the controller's `FmtpDataSendChan`.
  pub fmtp_data_send_chan : List FmtpMessage
  pub exit_code : Option ℕ

abbrev pub send_to_chief : ToChief → Program → Program
send_to_chief msg p = record p { to_chief = p.to_chief ++ msg ∷ [] }

unfoldable pub create_log_message : String → LogText → Program → Program
unfolding complete_log_message log_channel_st
create_log_message severity text p =
    send_to_chief (log_sent (complete_log_message p.channel_setts (log_channel_st severity text))) p

-- The settings that are refused are kept all the same.
unfoldable pub checked : Option SettingsError → Program → Program
unfolding create_log_message
checked (some error) p =
    create_log_message severity_error
      (transport_text "Получены некорректные настройки. Настройки: <%s>. Ошибка: <%s>") p
checked none p =
    record (create_log_message severity_debug (transport_text "Получены настройки. Настройки: <%s>")
      p) { controllers = p.controllers ++ p.channel_setts ∷ [] }

-- The select of `mainReturnWithCode`.
unfoldable pub program_step : ProgramInput → Program → Program
unfolding check_settings checked create_log_message complete_log_message
program_step (from_chief (settings_answer setts)) p =
    let (kept, error) = check_settings setts in checked error (record p { channel_setts = kept })
program_step (from_chief (fdps_message msg)) p = record p {
  fmtp_data_send_chan = p.fmtp_data_send_chan ++ msg.fmtp_message ∷ [];
}
program_step (unreadable_from_chief cur_data) p =
    create_log_message severity_error
      (transport_error
        "От контроллера получено сообщение неизвестного формата. Сообщение: <%s>. Ошибка: <%s>."
        cur_data)
      p
program_step (log_given entry) p =
    send_to_chief (log_sent (complete_log_message p.channel_setts entry)) p
program_step connection_given_up p = record p { exit_code = some fail_to_connect }
program_step (state_given state) p = send_to_chief (heartbeat_sent state) p
program_step (data_given msg) p =
    send_to_chief (data_sent (record { channel_id = p.channel_setts.id; fmtp_message = msg })) p

unfoldable pub program_run : List ProgramInput → Program → Program
unfolding program_step
program_run [] p = p
program_run (input ∷ inputs) p = program_run inputs (program_step input p)
