-- ===== src/Scenarios/Settings.antt =====
-- The client by which the logger gets its settings at concrete inputs.
use fmtp.Prelude.{
  ◌≡◌, refl, inl, true, none, some, List, [], ◌∷◌, Bytes, bytes_beq, bytes_eq, codes, ◌==◌,
}
use fmtp.Chief.Configurator.Post.{http_error, http_body}
use fmtp.Storage.Configurator.{
  LoggerJson, LoggerSettingsEvent, started, minute_over, post_done, heartbeat_ticked,
  local_settings_due, settings_given, loggger_setts_answer_hdr, new_logger_client, settings_run,
}
use fmtp.Storage.Configurator.Applied.{IsApplied, settings_run-IsApplied}
use fmtp.Scenarios.Storage.{logger}

abbrev logger_answer_text : Bytes
logger_answer_text = codes "{ora}"

-- Every text has an answer's header; one text has settings.
abbrev json : LoggerJson
json = record {
  header = λ body. some loggger_setts_answer_hdr;
  config_timestamp = λ body. none;
  settings = λ body cfg. (
    record cfg { logger_id = codes "7"; ora_hostname = codes "10.0.0.3" },
    body == logger_answer_text,
  );
}

-- From the newest to the oldest.
abbrev events : List LoggerSettingsEvent
events =
    heartbeat_ticked
    ∷ settings_given
    ∷ post_done (http_body logger_answer_text)
    ∷ minute_over
    ∷ local_settings_due none
    ∷ post_done (http_error (codes "no route to host"))
    ∷ started
    ∷ []

settings_run-IsApplied_example : IsApplied (settings_run json events (new_logger_client logger))
unfolding new_logger_client
settings_run-IsApplied_example =
    settings_run-IsApplied json events (new_logger_client logger)
      (tt, (tt, ((λ cfg fails. refl), (tt, (tt, (tt, (tt, tt))))))) (inl refl)

settings_are_read :
    (settings_run json events (new_logger_client logger)).logger_cfg.is_initialised ≡ true
unfolding settings_run new_logger_client bytes_beq
settings_are_read = refl
