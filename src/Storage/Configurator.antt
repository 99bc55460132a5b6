-- ===== src/Storage/Configurator.antt =====
-- configurator/logger_configutaror_client.go: the client by which the logger gets its settings, with
-- ora_logger/logger_settings and the case of ora_logger.go that gives them to the controllers. JSON
-- is a library.
pub mod Applied
use fmtp.Prelude.{
  ℕ, zero, suc, ◌-◌, Bool, true, false, not, Option, none, some, List, [], ◌∷◌, ◌++◌, Bytes, codes,
  bytes_eq, ◌==◌, if◌then◌else◌, ℤ, pos, ltb,
}
use fmtp.Storage.State.{LoggerState}
use fmtp.Storage.Oracle.Settings.{OraCntrlSettings}
use fmtp.Storage.Redis.{RedisCntrlSettings}
use fmtp.Chief.Configurator.Post.{HttpResult, http_error, http_body}

abbrev pub loggger_setts_answer_hdr : Bytes
loggger_setts_answer_hdr = codes "LoggerSettingsAnswer"

abbrev pub logger_hbt_answer_hdr : Bytes
logger_hbt_answer_hdr = codes "LoggerStateAnswer"

pub record LoggerSettings : Type 0 where
  pub is_initialised : Bool
  pub ip_addr : Bytes
  pub logger_id : Bytes
  pub timestamp : Bytes
  pub ora_hostname : Bytes
  pub ora_port : ℤ
  pub ora_service_name : Bytes
  pub ora_user : Bytes
  pub ora_password : Bytes
  pub ora_max_log_store_count : ℤ
  pub ora_store_days : ℤ
  pub redis_hostname : Bytes
  pub redis_port : ℤ
  pub redis_db_id : ℤ
  pub redis_user_name : Bytes
  pub redis_password : Bytes
  pub redis_max_read_count : ℤ
  pub metrics_interval_sec : ℤ
  pub metrics_gateway_url : Bytes

abbrev pub set_default : LoggerSettings
set_default = record {
  is_initialised = false;
  ip_addr = codes "127.0.0.1";
  logger_id = codes "-1";
  timestamp = [];
  ora_hostname = codes "192.168.1.30";
  ora_port = pos 1521;
  ora_service_name = codes "metplan";
  ora_user = codes "fmtp_log";
  ora_password = codes "log";
  ora_max_log_store_count = pos 1000000;
  ora_store_days = pos 30;
  redis_hostname = codes "192.168.1.24";
  redis_port = pos 6389;
  redis_db_id = pos 0;
  redis_user_name = [];
  redis_password = [];
  redis_max_read_count = pos 100;
  metrics_interval_sec = pos 1;
  metrics_gateway_url = codes "http://192.168.1.24:9100";
}

-- What `json.Unmarshal` makes of a text. Where it fails on settings, it may have filled some of them.
pub record LoggerJson : Type 0 where
  pub header : Bytes → Option Bytes
  pub config_timestamp : Bytes → Option Bytes
  pub settings : Bytes → LoggerSettings → LoggerSettings × Bool

-- The addresses in a request for settings are left out.
pub data LoggerPosted : Type 0 where
  logger_setts_request : LoggerPosted
  logger_hbt : LoggerState → LoggerPosted

-- What `main` gives the metrics, besides constants.
pub record PusherSettings : Type 0 where
  pub pusher_interval_sec : ℤ
  pub gateway_url : Bytes
  pub host : Bytes

pub record GivenSettings : Type 0 where
  pub pusher : PusherSettings
  pub ora : OraCntrlSettings
  pub redis : RedisCntrlSettings

pub record LoggerConfiguratorClient : Type 0 where
  -- The timer of `readLocalSettingsTimer` is running.
  pub read_local_settings : Bool
  -- The requests that wait for their minute.
  pub delayed : ℕ
  -- The global `LoggerCfg`.
  pub logger_cfg : LoggerSettings
  -- The global `CommonLoggerState`.
  pub logger_state : LoggerState
  -- The values that wait in `LoggerSettChangedChan`.
  pub logger_sett_changed : ℕ
  pub posted : List LoggerPosted
  -- What `SaveToFile` has written, if the file could be written.
  pub saved : List LoggerSettings
  -- What `main` has given the three controllers.
  pub given : List GivenSettings

unfoldable pub new_logger_client : LoggerState → LoggerConfiguratorClient
new_logger_client state = record {
  read_local_settings = true;
  delayed = 0;
  logger_cfg = record {
    is_initialised = false;
    ip_addr = [];
    logger_id = [];
    timestamp = [];
    ora_hostname = [];
    ora_port = pos 0;
    ora_service_name = [];
    ora_user = [];
    ora_password = [];
    ora_max_log_store_count = pos 0;
    ora_store_days = pos 0;
    redis_hostname = [];
    redis_port = pos 0;
    redis_db_id = pos 0;
    redis_user_name = [];
    redis_password = [];
    redis_max_read_count = pos 0;
    metrics_interval_sec = pos 0;
    metrics_gateway_url = [];
  };
  logger_state = state;
  logger_sett_changed = 0;
  posted = [];
  saved = [];
  given = [];
}

abbrev pub post_msg : LoggerPosted → LoggerConfiguratorClient → LoggerConfiguratorClient
post_msg msg c = record c { posted = c.posted ++ msg ∷ [] }

abbrev pub save_to_file : LoggerConfiguratorClient → LoggerConfiguratorClient
save_to_file c = record c { saved = c.saved ++ c.logger_cfg ∷ [] }

-- `sendSettings`
unfoldable pub signal_logger_settings : LoggerConfiguratorClient → LoggerConfiguratorClient
signal_logger_settings c = record c {
  logger_sett_changed = suc c.logger_sett_changed;
  logger_state = record c.logger_state {
    logger_id = c.logger_cfg.logger_id;
    ip_addr = c.logger_cfg.ip_addr;
  };
}

-- The answer with settings: what was read, and whether all could be.
unfoldable pub settings_answered :
    LoggerSettings × Bool → LoggerConfiguratorClient → LoggerConfiguratorClient
unfolding signal_logger_settings
settings_answered (cfg, false) c = record c { logger_cfg = cfg }
settings_answered (cfg, true) c = signal_logger_settings (
    save_to_file
      (record c { logger_cfg = record cfg { is_initialised = true }; read_local_settings = false }))

unfoldable pub timestamp_answered :
    Option Bytes → LoggerConfiguratorClient → LoggerConfiguratorClient
timestamp_answered none c = c
timestamp_answered (some timestamp) c =
    if not (timestamp == c.logger_cfg.timestamp) then post_msg logger_setts_request c else c

-- What `main` makes of `LoggerCfg`.
unfoldable pub settings_for : LoggerSettings → GivenSettings
settings_for cfg = record {
  pusher = record {
    pusher_interval_sec = cfg.metrics_interval_sec;
    gateway_url = cfg.metrics_gateway_url;
    host = cfg.ip_addr;
  };
  ora = record {
    hostname = cfg.ora_hostname;
    port = cfg.ora_port;
    service_name = cfg.ora_service_name;
    user_name = cfg.ora_user;
    password = cfg.ora_password;
    log_store_max_count = cfg.ora_max_log_store_count;
    log_store_days = cfg.ora_store_days;
  };
  redis = record {
    hostname = cfg.redis_hostname;
    port = cfg.redis_port;
    db_id = cfg.redis_db_id;
    user_name = cfg.redis_user_name;
    password = cfg.redis_password;
    max_read_count = cfg.redis_max_read_count;
  };
}

unfoldable pub give_settings : LoggerConfiguratorClient → LoggerConfiguratorClient
unfolding settings_for
give_settings c =
    if ltb 0 c.logger_sett_changed
    then record c {
      logger_sett_changed = c.logger_sett_changed - 1;
      given = c.given ++ settings_for c.logger_cfg ∷ [];
    }
    else c

-- What comes next; the file is `none` where it cannot be read.
pub data LoggerSettingsEvent : Type 0 where
  started minute_over heartbeat_ticked : LoggerSettingsEvent
  post_done : HttpResult → LoggerSettingsEvent
  local_settings_due : Option Bytes → LoggerSettingsEvent
  settings_given : LoggerSettingsEvent

module _ (json : LoggerJson) where
  -- `LoggerCfg` is not emptied before an answer is read into it.
  unfoldable pub logger_answer :
      Bytes → Option Bytes → LoggerConfiguratorClient → LoggerConfiguratorClient
  unfolding settings_answered timestamp_answered
  logger_answer body none c = c
  logger_answer body (some header) c =
      if header == loggger_setts_answer_hdr
      then settings_answered (json.settings body (record c.logger_cfg { is_initialised = false })) c
      else if header == logger_hbt_answer_hdr
      then timestamp_answered (json.config_timestamp body) c
      else c

  abbrev pub file_parsed :
      LoggerSettings × Bool → LoggerConfiguratorClient → LoggerConfiguratorClient
  unfolding signal_logger_settings
  file_parsed (cfg, false) c = record c { logger_cfg = cfg }
  file_parsed (cfg, true) c = signal_logger_settings (record c { logger_cfg = cfg })

  -- Where there is no file, the defaults are kept and written, and nobody is told of them.
  abbrev pub file_read : Option Bytes → LoggerConfiguratorClient → LoggerConfiguratorClient
  file_read none c = save_to_file (record c { logger_cfg = set_default })
  file_read (some text) c = file_parsed (json.settings text c.logger_cfg) c

  unfoldable pub settings_step :
      LoggerSettingsEvent → LoggerConfiguratorClient → LoggerConfiguratorClient
  unfolding logger_answer give_settings
  settings_step started c = post_msg logger_setts_request c
  settings_step (post_done (http_error error)) c = record c {
    logger_cfg = record c.logger_cfg { is_initialised = false };
    delayed = suc c.delayed;
  }
  settings_step (post_done (http_body body)) c = logger_answer body (json.header body) c
  settings_step minute_over c =
      if ltb 0 c.delayed
      then post_msg logger_setts_request (record c { delayed = c.delayed - 1 })
      else c
  settings_step heartbeat_ticked c =
      if c.logger_cfg.is_initialised then post_msg (logger_hbt c.logger_state) c else c
  settings_step (local_settings_due file) c =
      if c.read_local_settings then file_read file (record c { read_local_settings = false }) else c
  settings_step settings_given c = give_settings c

  -- From the newest event to the oldest.
  unfoldable pub settings_run :
      List LoggerSettingsEvent → LoggerConfiguratorClient → LoggerConfiguratorClient
  unfolding settings_step
  settings_run [] c = c
  settings_run (event ∷ events) c = settings_step event (settings_run events c)
