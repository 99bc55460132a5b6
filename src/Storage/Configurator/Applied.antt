-- ===== src/Storage/Configurator/Applied.antt =====
-- What the controllers of the logger have been given while its settings count as initialised.
use fmtp.Prelude.{
  ◌≡◌, ◌∙◌, refl, Bool, true, false, not, ◌⊎◌, inl, inr, ◌==◌, bytes_eq, Option, none, some, List,
  [], ◌∷◌, ◌++◌, All, Bytes, arith, if_holds, ltb, ◌-◌,
}
use fmtp.Chief.Configurator.Post.{http_error, http_body}
use fmtp.Storage.Configurator.{
  LoggerSettings, LoggerJson, GivenSettings, LoggerConfiguratorClient, LoggerSettingsEvent, started,
  minute_over, heartbeat_ticked, post_done, local_settings_due, settings_given, logger_hbt,
  logger_setts_request, loggger_setts_answer_hdr, logger_hbt_answer_hdr, post_msg, save_to_file,
  signal_logger_settings, settings_answered, timestamp_answered, settings_for, give_settings,
  logger_answer, file_parsed, file_read, settings_step, settings_run,
}

-- The three controllers were given the present settings last.
abbrev pub IsLastGiven : LoggerConfiguratorClient → Type 0
IsLastGiven c = (before : List GivenSettings) × (c.given ≡ before ++ settings_for c.logger_cfg ∷ [])

abbrev pub IsInForce : LoggerConfiguratorClient → Type 0
IsInForce c =
    (c.read_local_settings ≡ false)
    × (c.logger_state.logger_id ≡ c.logger_cfg.logger_id)
    × (c.logger_state.ip_addr ≡ c.logger_cfg.ip_addr)
    × ((ltb 0 c.logger_sett_changed ≡ true) ⊎ IsLastGiven c)

abbrev pub IsApplied : LoggerConfiguratorClient → Type 0
IsApplied c = (c.logger_cfg.is_initialised ≡ false) ⊎ IsInForce c

signal_logger_settings-IsInForce :
    (c : LoggerConfiguratorClient)
    → c.read_local_settings ≡ false
    → IsInForce (signal_logger_settings c)
unfolding signal_logger_settings
signal_logger_settings-IsInForce c stopped = (stopped, refl, refl, inl (ground arith))

give_settings-IsApplied : (c : LoggerConfiguratorClient) → IsApplied c → IsApplied (give_settings c)
unfolding give_settings
give_settings-IsApplied c applied =
    if_holds IsApplied (ltb 0 c.logger_sett_changed) _ c (λ waits. given applied) (λ none. applied)
  where
    given :
        IsApplied c
        → IsApplied (record c {
          logger_sett_changed = c.logger_sett_changed - 1;
          given = c.given ++ settings_for c.logger_cfg ∷ [];
        })
    given (inl not_init) = inl not_init
    given (inr (stopped, id, ip, last)) = inr (stopped, id, ip, inr (c.given, refl))

timestamp_answered-IsApplied :
    (timestamp : Option Bytes) (c : LoggerConfiguratorClient)
    → IsApplied c
    → IsApplied (timestamp_answered timestamp c)
unfolding timestamp_answered
timestamp_answered-IsApplied none c applied = applied
timestamp_answered-IsApplied (some timestamp) c applied =
    if_holds IsApplied (not (timestamp == c.logger_cfg.timestamp)) (post_msg logger_setts_request c)
      c (λ other. applied) (λ same. applied)

settings_answered-IsApplied :
    (answer : LoggerSettings × Bool) (c : LoggerConfiguratorClient)
    → (answer.1 ≡ false → answer.0.is_initialised ≡ false)
    → IsApplied (settings_answered answer c)
unfolding settings_answered
settings_answered-IsApplied (cfg, false) c clean = inl (clean refl)
settings_answered-IsApplied (cfg, true) c clean = inr (
    signal_logger_settings-IsInForce
      (save_to_file (record c {
        logger_cfg = record cfg { is_initialised = true };
        read_local_settings = false;
      }))
      refl)

module _ (json : LoggerJson) where
  -- Where a text cannot be read, what was read of it does not change whether the settings count as
  -- initialised.
  abbrev pub IsClean : Bytes → Type 0
  IsClean text =
      (cfg : LoggerSettings)
      → (json.settings text cfg).1 ≡ false
      → (json.settings text cfg).0.is_initialised ≡ cfg.is_initialised

  abbrev pub IsCleanEvent : LoggerSettingsEvent → Type 0
  IsCleanEvent (post_done (http_body body)) = IsClean body
  IsCleanEvent (post_done (http_error error)) = Unit
  IsCleanEvent (local_settings_due (some text)) = IsClean text
  IsCleanEvent (local_settings_due none) = Unit
  IsCleanEvent started = Unit
  IsCleanEvent minute_over = Unit
  IsCleanEvent heartbeat_ticked = Unit
  IsCleanEvent settings_given = Unit

  logger_answer-IsApplied :
      (body : Bytes) (header : Option Bytes) (c : LoggerConfiguratorClient)
      → IsClean body
      → IsApplied c
      → IsApplied (logger_answer json body header c)
  unfolding logger_answer
  logger_answer-IsApplied body none c clean applied = applied
  logger_answer-IsApplied body (some header) c clean applied =
      if_holds IsApplied (header == loggger_setts_answer_hdr) _ _
        (λ settings. settings_answered-IsApplied (json.settings body _) c (clean _))
        (λ other.
          if_holds IsApplied (header == logger_hbt_answer_hdr) _ c
            (λ heartbeat. timestamp_answered-IsApplied (json.config_timestamp body) c applied)
            (λ unknown. applied))

  file_parsed-IsApplied :
      (file : LoggerSettings × Bool) (c : LoggerConfiguratorClient)
      → (file.1 ≡ false → file.0.is_initialised ≡ false)
      → c.read_local_settings ≡ false
      → IsApplied (file_parsed json file c)
  unfolding file_parsed
  file_parsed-IsApplied (cfg, false) c clean stopped = inl (clean refl)
  file_parsed-IsApplied (cfg, true) c clean stopped =
      inr (signal_logger_settings-IsInForce (record c { logger_cfg = cfg }) stopped)

  -- The timer runs only while the settings do not count as initialised.
  file_read-IsApplied :
      (file : Option Bytes) (c : LoggerConfiguratorClient)
      → IsCleanEvent (local_settings_due file)
      → c.read_local_settings ≡ true
      → IsApplied c
      → IsApplied (file_read json file (record c { read_local_settings = false }))
  file_read-IsApplied none c clean running applied = inl refl
  file_read-IsApplied (some text) c clean running (inl not_init) =
      file_parsed-IsApplied (json.settings text c.logger_cfg)
        (record c { read_local_settings = false }) (λ fails. clean c.logger_cfg fails ∙ not_init)
        refl
  file_read-IsApplied (some text) c clean running (inr (stopped, id, ip, last)) =
      absurd (ground (arith, running, stopped))

  settings_step-IsApplied :
      (event : LoggerSettingsEvent) (c : LoggerConfiguratorClient)
      → IsCleanEvent event
      → IsApplied c
      → IsApplied (settings_step json event c)
  unfolding settings_step
  settings_step-IsApplied started c clean applied = applied
  settings_step-IsApplied (post_done (http_error error)) c clean applied = inl refl
  settings_step-IsApplied (post_done (http_body body)) c clean applied =
      logger_answer-IsApplied body (json.header body) c clean applied
  settings_step-IsApplied minute_over c clean applied =
      if_holds IsApplied (ltb 0 c.delayed)
        (post_msg logger_setts_request (record c { delayed = c.delayed - 1 })) c (λ due. applied)
        (λ none. applied)
  settings_step-IsApplied heartbeat_ticked c clean applied =
      if_holds IsApplied c.logger_cfg.is_initialised (post_msg (logger_hbt c.logger_state) c) c
        (λ ready. applied) (λ not_ready. applied)
  settings_step-IsApplied (local_settings_due file) c clean applied =
      if_holds IsApplied c.read_local_settings _ c
        (λ running. file_read-IsApplied file c clean running applied) (λ stopped. applied)
  settings_step-IsApplied settings_given c clean applied = give_settings-IsApplied c applied

  -- Where no text that comes both cannot be read and changes whether the settings count as
  -- initialised: whatever comes in whatever order keeps this. The settings of the logger do not count
  -- as initialised, or the timer of the file is stopped, the state of the logger has the identifier
  -- and the address of the settings, and the settings that the controllers of the metrics, of the
  -- database and of Redis were given last are made of these, unless a signal to give them waits.
  pub settings_run-IsApplied :
      (events : List LoggerSettingsEvent) (c : LoggerConfiguratorClient)
      → All IsCleanEvent events
      → IsApplied c
      → IsApplied (settings_run json events c)
  unfolding settings_run
  settings_run-IsApplied [] c clean applied = applied
  settings_run-IsApplied (event ∷ events) c (clean, all_clean) applied =
      settings_step-IsApplied event _ clean (settings_run-IsApplied events c all_clean applied)
