-- ===== src/Scenarios/Configurator.antt =====
-- The client of the configurator at concrete inputs.
use fmtp.Prelude.{
  refl, inl, true, none, some, List, [], ◌∷◌, Bytes, codes, bytes_eq, ◌==◌, if◌then◌else◌, pos,
}
use fmtp.Chief.Settings.{oldi_provider}
use fmtp.Chief.Configurator.Post.{http_error, http_body}
use fmtp.Chief.Configurator.{
  Json, ConfiguratorEvent, post_done, minute_over, heartbeat_ticked, local_settings_due,
  chief_setts_answer_hdr, new_chief_client, configurator_run,
}
use fmtp.Chief.Configurator.Ready.{IsReady, configurator_run-IsReady}

abbrev answer : Bytes
answer = codes "{settings}"

-- It reads one text only.
abbrev json : Json
json = record {
  header = λ body. if body == answer then some chief_setts_answer_hdr else none;
  config_timestamp = λ body. none;
  settings = λ body settings. (
    record settings {
      ip_addr = "10.0.0.2";
      cntrl_id = pos 1;
      oldi_provider_port = pos 13200;
      providers_setts =
          record {
            id = pos 1;
            ip_addresses = [];
            status = "primary";
            data_type = oldi_provider;
            provider_encoding = "";
            local_port = pos 0;
          }
          ∷ [];
    },
    body == answer,
  );
}

abbrev events : List ConfiguratorEvent
events =
    heartbeat_ticked
    ∷ local_settings_due (some answer)
    ∷ post_done (http_body answer) (some (some ("1.0.0" ∷ [])))
    ∷ minute_over
    ∷ post_done (http_error (codes "no route to host")) none
    ∷ []

configurator_run-IsReady_example :
    IsReady (pos 15100) (configurator_run json (pos 15100) events (new_chief_client true))
unfolding new_chief_client
configurator_run-IsReady_example =
    configurator_run-IsReady (pos 15100) json (λ text s. refl) events (new_chief_client true)
      (inl refl)
