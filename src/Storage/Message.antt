-- ===== src/Storage/Message.antt =====
-- fmtp_log/fmtp_logger_message.go: the messages of the journal, and the text in which they stand in
-- the stream of Redis. A text is the list of its characters. A time stamp is an argument.
pub mod RoundTrip
use fmtp.Prelude.{ℕ, ◌≡◌, refl, Option, none, some, List, [], ◌∷◌, Bytes, codes, ℤ, pos, negsuc}
use fmtp.Storage.Decimal.{itoa, atoi}
use fmtp.Storage.Parts.{join, split}

abbrev pub severity_debug : Bytes
severity_debug = codes "Отладка"

abbrev pub severity_info : Bytes
severity_info = codes "Информация"

abbrev pub severity_warning : Bytes
severity_warning = codes "Предупреждение"

abbrev pub severity_error : Bytes
severity_error = codes "Ошибка"

abbrev pub direction_unknown : Bytes
direction_unknown = codes "-"

abbrev pub source_channel : Bytes
source_channel = codes "FMTP канал"

abbrev pub source_controller : Bytes
source_controller = codes "Контроллер"

abbrev pub no_channel_ident : ℤ
no_channel_ident = negsuc 0

abbrev pub no_channel_loc_name : Bytes
no_channel_loc_name = codes "-"

abbrev pub no_channel_rem_name : Bytes
no_channel_rem_name = codes "-"

abbrev pub none_fmtp_type : Bytes
none_fmtp_type = codes "-"

abbrev pub channel_type_none : Bytes
channel_type_none = codes "-"

pub record LogMessage : Type 0 where
  pub controller_ip : Bytes
  pub source : Bytes
  pub channel_id : ℤ
  pub channel_loc_name : Bytes
  pub channel_rem_name : Bytes
  pub data_type : Bytes
  pub severity : Bytes
  pub fmtp_type : Bytes
  pub direction : Bytes
  pub text : Bytes
  pub date_time : Bytes

abbrev comma : ℕ
comma = b','

unfoldable pub marshal_to_string : LogMessage → Bytes
marshal_to_string lm = join comma (
    lm.controller_ip
    ∷ lm.source
    ∷ itoa lm.channel_id
    ∷ lm.channel_loc_name
    ∷ lm.channel_rem_name
    ∷ lm.data_type
    ∷ lm.severity
    ∷ lm.fmtp_type
    ∷ lm.direction
    ∷ lm.text
    ∷ lm.date_time
    ∷ [])

-- An error of Atoi is ignored, and leaves 0.
abbrev pub channel_id_of : Bytes → ℤ
channel_id_of field = elim (atoi field) [ none ↦ pos 0 | some n ↦ n ]

abbrev pub of_fields : List Bytes → Option LogMessage
of_fields (f0 ∷ f1 ∷ f2 ∷ f3 ∷ f4 ∷ f5 ∷ f6 ∷ f7 ∷ f8 ∷ f9 ∷ f10 ∷ []) = some (record {
  controller_ip = f0;
  source = f1;
  channel_id = channel_id_of f2;
  channel_loc_name = f3;
  channel_rem_name = f4;
  data_type = f5;
  severity = f6;
  fmtp_type = f7;
  direction = f8;
  text = f9;
  date_time = f10;
})
of_fields other = none

-- `none` is the error.
unfoldable pub unmarshal_from_string : Bytes → Option LogMessage
unmarshal_from_string dt = of_fields (split comma dt)

unfoldable pub create_message : Bytes → Bytes → Bytes → Bytes → Bytes → LogMessage
create_message severity packet_type direction text now = record {
  controller_ip = [];
  source = source_channel;
  channel_id = no_channel_ident;
  channel_loc_name = no_channel_loc_name;
  channel_rem_name = no_channel_rem_name;
  data_type = channel_type_none;
  severity = severity;
  fmtp_type = packet_type;
  direction = direction;
  text = text;
  date_time = now;
}

unfoldable pub create_controller_message : Bytes → Bytes → Bytes → LogMessage
create_controller_message severity text now = record {
  controller_ip = [];
  source = source_channel;
  channel_id = no_channel_ident;
  channel_loc_name = no_channel_loc_name;
  channel_rem_name = no_channel_rem_name;
  data_type = channel_type_none;
  severity = severity;
  fmtp_type = none_fmtp_type;
  direction = direction_unknown;
  text = text;
  date_time = now;
}

-- `LogCntrlSDT`
unfoldable pub log_cntrl_sdt : Bytes → Bytes → Bytes → Bytes → LogMessage
log_cntrl_sdt severity dt_type text now = record {
  controller_ip = [];
  source = source_controller;
  channel_id = no_channel_ident;
  channel_loc_name = [];
  channel_rem_name = [];
  data_type = dt_type;
  severity = severity;
  fmtp_type = none_fmtp_type;
  direction = direction_unknown;
  text = text;
  date_time = now;
}
