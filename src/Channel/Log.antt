-- ===== src/Channel/Log.antt =====
-- The part of fmtp_log/fmtp_logger_message.go by which a channel makes log entries. The time stamp
-- is left out; a text is kept as its format (a constructor) with the values put into it.
use fmtp.Prelude.{String, Bytes, ℤ}
use fmtp.Protocol.State.{FmtpState}
use fmtp.Protocol.Event.{FmtpEvent}

abbrev pub severity_debug : String
severity_debug = "Отладка"

abbrev pub severity_info : String
severity_info = "Информация"

abbrev pub severity_warning : String
severity_warning = "Предупреждение"

abbrev pub severity_error : String
severity_error = "Ошибка"

abbrev pub direction_incoming : String
direction_incoming = "Входящее"

abbrev pub direction_outcoming : String
direction_outcoming = "Исходящее"

abbrev pub direction_unknown : String
direction_unknown = "-"

abbrev pub source_channel : String
source_channel = "FMTP канал"

abbrev pub none_fmtp_type : String
none_fmtp_type = "-"

pub data LogText : Type 0 where
  state_changed : FmtpState → FmtpState → FmtpEvent → LogText
  identification_mismatch : Bytes → Bytes → LogText
  event_content : Bytes → FmtpEvent → LogText
  content : Bytes → LogText
  transport_text : String → LogText
  transport_error : String → Bytes → LogText
  id_text : String → ℤ → LogText
  id_state_text : String → ℤ → String → LogText

pub record LogEntry : Type 0 where
  pub source : String
  pub severity : String
  pub fmtp_type : String
  pub direction : String
  pub text : LogText

unfoldable pub log_channel_st : String → LogText → LogEntry
log_channel_st severity text = record {
  source = source_channel;
  severity = severity;
  fmtp_type = none_fmtp_type;
  direction = direction_unknown;
  text = text;
}

unfoldable pub log_channel_stdt : String → String → String → LogText → LogEntry
log_channel_stdt severity fmtp_type direction text = record {
  source = source_channel;
  severity = severity;
  fmtp_type = fmtp_type;
  direction = direction;
  text = text;
}
