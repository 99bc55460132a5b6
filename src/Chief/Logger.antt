-- ===== src/Chief/Logger.antt =====
-- chief/chief_logger/chief_logger.go: the logger that writes what the chief's programs log to the
-- journal. A text comes formatted; the severities of the logging library are parameters.
pub mod Severity
use fmtp.Prelude.{
  ℕ, suc, ◌-◌, String, Bool, Option, none, some, List, [], ◌∷◌, ◌++◌, Bytes, codes, ltb,
  if◌then◌else◌, ℤ, pos,
}
use fmtp.Storage.Message.{
  LogMessage, log_cntrl_sdt, severity_debug, severity_info, severity_warning, direction_unknown,
}

pub record RedisLoggerSettings : Type 0 where
  pub hostname : String
  pub port : ℤ
  pub db_id : ℤ
  pub user_name : String
  pub password : String
  pub stream_max_count : ℤ
  pub max_send_count : ℤ

-- The severities of `lemz.com/fdps/logger`.
pub record Severities : Type 0 where
  pub sev_debug : ℕ
  pub sev_info : ℕ
  pub sev_warning : ℕ
  pub sev_error : ℕ

-- The channels to the controller of Redis are the lists of what has been written to them.
pub record ChiefLogger : Type 0 where
  pub setts_changed_chan : ℕ
  pub setts_chan : List RedisLoggerSettings
  pub log_msg_chan : List LogMessage
  pub min_severity : ℕ

-- The first value that is given with a format.
pub data LogArg : Type 0 where
  log_message : LogMessage → LogArg
  other_value : LogArg

abbrev temp_redis_setts : RedisLoggerSettings
temp_redis_setts = record {
  hostname = "192.168.1.24";
  port = pos 6389;
  db_id = pos 0;
  user_name = "";
  password = "";
  stream_max_count = pos 100000;
  max_send_count = pos 1000;
}

-- `none` where the file of the settings cannot be read.
unfoldable pub change_redis_setts : Option RedisLoggerSettings → ChiefLogger → ChiefLogger
change_redis_setts none cl = record cl { setts_chan = cl.setts_chan ++ temp_redis_setts ∷ [] }
change_redis_setts (some setts) cl = record cl { setts_chan = cl.setts_chan ++ setts ∷ [] }

abbrev pub made_msg : Bytes → Bytes → Bytes → Option LogArg → LogMessage
unfolding log_cntrl_sdt
made_msg fmtp_sev text now (some (log_message msg)) = msg
made_msg fmtp_sev text now (some other_value) = log_cntrl_sdt fmtp_sev direction_unknown text now
made_msg fmtp_sev text now none = log_cntrl_sdt fmtp_sev direction_unknown text now

-- A call of one of the methods: the formatted text, its first value, the time and the address of the
-- chief.
pub record LogCall : Type 0 where
  pub text : Bytes
  pub first : Option LogArg
  pub now : Bytes
  pub ip_addr : Bytes

unfoldable pub process_new_log_msg : ℕ → Bytes → LogCall → ChiefLogger → ChiefLogger
unfolding made_msg
process_new_log_msg sev fmtp_sev call cl =
    if ltb cl.min_severity sev
    then record cl {
      log_msg_chan =
          cl.log_msg_chan
          ++ record (made_msg fmtp_sev call.text call.now call.first) {
            controller_ip = call.ip_addr;
          }
            ∷ [];
    }
    else cl

-- The methods of the interface, one constructor each.
pub data LoggerCall : Type 0 where
  printf printf_debug printf_info printf_warn printf_err : LogCall → LoggerCall
  set_min_severity : ℕ → LoggerCall

module _ (sevs : Severities) where
  unfoldable pub new_chief_logger : ChiefLogger
  new_chief_logger = record {
    setts_changed_chan = 0;
    setts_chan = [];
    log_msg_chan = [];
    min_severity = sevs.sev_info;
  }

  unfoldable pub logger_call : LoggerCall → ChiefLogger → ChiefLogger
  unfolding process_new_log_msg
  logger_call (printf call) cl = process_new_log_msg sevs.sev_info severity_info call cl
  logger_call (printf_debug call) cl = process_new_log_msg sevs.sev_debug severity_debug call cl
  logger_call (printf_info call) cl = process_new_log_msg sevs.sev_info severity_info call cl
  logger_call (printf_warn call) cl = process_new_log_msg sevs.sev_warning severity_warning call cl
  logger_call (printf_err call) cl = process_new_log_msg sevs.sev_error severity_info call cl
  logger_call (set_min_severity sev) cl = record cl { min_severity = sev }

  -- From the newest call to the oldest.
  unfoldable pub logger_calls : List LoggerCall → ChiefLogger → ChiefLogger
  unfolding logger_call
  logger_calls [] cl = cl
  logger_calls (call ∷ calls) cl = logger_call call (logger_calls calls cl)
