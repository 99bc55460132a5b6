-- ===== src/Chief/Configurator.antt =====
-- configurator/chief_configutaror_client.go: the client by which the chief gets its settings. JSON is
-- a library; so are the list of docker images and the first port of the pages of the channels.
pub mod Post
pub mod Ready
use fmtp.Prelude.{
  ℕ, zero, suc, ◌+◌, ◌-◌, String, Bool, true, false, not, ◌&&◌, Option, none, some, List, [], ◌∷◌,
  ◌++◌, map, Bytes, string_eq, ◌==◌, if◌then◌else◌, ℤ, pos, negsuc, ◌+ℤ◌, ltb,
}
use fmtp.Channel.Settings.{ChannelSettings}
use fmtp.Chief.Settings.{ChiefSettings, ProviderSettings, aodb_provider, oldi_provider}
use fmtp.Chief.Configurator.Post.{HttpResult, http_error, http_body}

abbrev pub chief_setts_answer_hdr : String
chief_setts_answer_hdr = "SettingsAnswer"

abbrev pub chief_hbt_answer_hdr : String
chief_hbt_answer_hdr = "WebServerState"

-- A slice of texts, `none` where it is nil.
abbrev pub Versions : Type 0
Versions = Option (List String)

-- What `json.Unmarshal` makes of a text. Where it fails on settings, it may have filled some of them.
pub record Json : Type 0 where
  pub header : Bytes → Option String
  pub config_timestamp : Bytes → Option String
  pub settings : Bytes → ChiefSettings → ChiefSettings × Bool

-- A heartbeat carries the state of the chief, of which the identifier and the address are kept here.
pub data Posted : Type 0 where
  chief_setts_request : Versions → Posted
  chief_hbt : ℤ → String → Posted

pub record ChiefConfiguratorClient : Type 0 where
  pub with_docker : Bool
  pub channel_versions : Versions
  -- The timer of `readLocalSettingsTimer` is running.
  pub read_local_settings : Bool
  -- The requests that wait for their minute.
  pub delayed : ℕ
  pub chief_cfg : ChiefSettings
  -- The identifier and the address in `CommonChiefState`.
  pub state_cntrl_id : ℤ
  pub state_ip_addr : String
  pub chief_sett_changed : ℕ
  pub posted : List Posted

-- `ChiefCfg` before an answer is read into it.
abbrev pub empty_settings : ChiefSettings
empty_settings = record {
  ip_addr = "";
  cntrl_id = negsuc 0;
  timestamp = "";
  channels_port = pos 0;
  oldi_provider_port = pos 0;
  oldi_provider_encoding = "";
  aodb_provider_port = pos 0;
  docker_registry = "";
  channel_setts = [];
  providers_setts = [];
  is_initialised = false;
}

unfoldable pub new_chief_client : Bool → ChiefConfiguratorClient
new_chief_client work_with_docker = record {
  with_docker = work_with_docker;
  channel_versions = none;
  read_local_settings = true;
  delayed = 0;
  chief_cfg = record empty_settings { ip_addr = "127.0.0.1" };
  state_cntrl_id = pos 0;
  state_ip_addr = "";
  chief_sett_changed = 0;
  posted = [];
}

abbrev post : Posted → ChiefConfiguratorClient → ChiefConfiguratorClient
post msg c = record c { posted = c.posted ++ msg ∷ [] }

unfoldable pub request_setts : ChiefConfiguratorClient → ChiefConfiguratorClient
request_setts c = post (chief_setts_request c.channel_versions) c

module _ (start_web_port : ℤ) where
  abbrev pub with_url : String → ChannelSettings → ChannelSettings
  with_url ip_addr sett = record sett {
    url_address = ip_addr;
    url_path = "channel";
    url_port = start_web_port +ℤ sett.id;
  }

-- The second loop over the providers, after the first.
abbrev pub with_encoding : ChiefSettings → ProviderSettings → ProviderSettings
with_encoding cfg val =
    if val.data_type == oldi_provider
    then record val { provider_encoding = cfg.oldi_provider_encoding }
    else val

abbrev pub with_local_port : ChiefSettings → ProviderSettings → ProviderSettings
with_local_port cfg val =
    if val.data_type == aodb_provider
    then record val { local_port = cfg.aodb_provider_port }
    else if val.data_type == oldi_provider
    then record val { local_port = cfg.oldi_provider_port }
    else val

abbrev same_texts : List String → List String → Bool
same_texts [] [] = true
same_texts [] (y ∷ ys) = false
same_texts (x ∷ xs) [] = false
same_texts (x ∷ xs) (y ∷ ys) = x == y && same_texts xs ys

abbrev same_versions : Versions → Versions → Bool
same_versions none none = true
same_versions none (some ys) = false
same_versions (some xs) none = false
same_versions (some xs) (some ys) = same_texts xs ys

-- `none` is the error of the docker images. The images are fetched by docker.
unfoldable pub init_after_get_settings :
    Option Versions → ChiefConfiguratorClient → ChiefConfiguratorClient
unfolding request_setts
init_after_get_settings none c = c
init_after_get_settings (some new_versions) c =
    if c.with_docker && not (same_versions c.channel_versions new_versions)
    then request_setts (record c { channel_versions = new_versions })
    else c

-- What comes next. A result of a request comes with what the list of docker images would be; the
-- file of the settings is `none` where it cannot be read.
pub data ConfiguratorEvent : Type 0 where
  post_done : HttpResult → Option Versions → ConfiguratorEvent
  minute_over : ConfiguratorEvent
  heartbeat_ticked : ConfiguratorEvent
  local_settings_due : Option Bytes → ConfiguratorEvent
  urls_given : ConfiguratorEvent

module _ (json : Json) (start_web_port : ℤ) where
  unfoldable pub send_settings : ChiefConfiguratorClient → ChiefConfiguratorClient
  send_settings c =
      let cfg = c.chief_cfg in
      record c {
        chief_cfg = record cfg {
          channel_setts = map (with_url start_web_port cfg.ip_addr) cfg.channel_setts;
          providers_setts =
              map (λ val. with_local_port cfg (with_encoding cfg val)) cfg.providers_setts;
        };
        chief_sett_changed = suc c.chief_sett_changed;
        state_cntrl_id = cfg.cntrl_id;
        state_ip_addr = cfg.ip_addr;
      }

  unfoldable pub settings_read :
      Option Versions → ChiefSettings × Bool → ChiefConfiguratorClient → ChiefConfiguratorClient
  unfolding send_settings init_after_get_settings
  settings_read versions (cfg, false) c = record c { chief_cfg = cfg }
  settings_read versions (cfg, true) c = send_settings (
      init_after_get_settings versions (record c {
        chief_cfg = record cfg { is_initialised = true };
        read_local_settings = false;
      }))

  unfoldable pub timestamp_read : Option String → ChiefConfiguratorClient → ChiefConfiguratorClient
  unfolding request_setts
  timestamp_read none c = c
  timestamp_read (some timestamp) c =
      if not (timestamp == c.chief_cfg.timestamp) then request_setts c else c

  unfoldable pub handle_answer :
      Option Versions → Bytes → Option String → ChiefConfiguratorClient → ChiefConfiguratorClient
  unfolding settings_read timestamp_read
  handle_answer versions body none c = c
  handle_answer versions body (some header) c =
      if header == chief_setts_answer_hdr
      then settings_read versions (json.settings body empty_settings) c
      else if header == chief_hbt_answer_hdr
      then timestamp_read (json.config_timestamp body) c
      else c

  -- Settings that the file gives only in part are kept, and not sent.
  unfoldable pub read_from_file :
      ChiefSettings × Bool → ChiefConfiguratorClient → ChiefConfiguratorClient
  unfolding send_settings
  read_from_file (cfg, false) c = record c { chief_cfg = cfg }
  read_from_file (cfg, true) c = send_settings (record c { chief_cfg = cfg })

  unfoldable pub configurator_step :
      ConfiguratorEvent → ChiefConfiguratorClient → ChiefConfiguratorClient
  unfolding handle_answer read_from_file request_setts
  configurator_step (post_done (http_error error) versions) c = record c {
    chief_cfg = record c.chief_cfg { is_initialised = false };
    delayed = suc c.delayed;
  }
  configurator_step (post_done (http_body body) versions) c =
      handle_answer versions body (json.header body) c
  configurator_step minute_over c =
      if ltb 0 c.delayed then request_setts (record c { delayed = c.delayed - 1 }) else c
  configurator_step heartbeat_ticked c =
      if c.chief_cfg.is_initialised then post (chief_hbt c.state_cntrl_id c.state_ip_addr) c else c
  configurator_step (local_settings_due file) c =
      if c.read_local_settings
      then elim file [
        | none ↦ record c { read_local_settings = false }
        | some text ↦
            read_from_file (json.settings text c.chief_cfg)
              (record c { read_local_settings = false })
      ]
      else c
  configurator_step urls_given c = c

  -- From the newest event to the oldest.
  unfoldable pub configurator_run :
      List ConfiguratorEvent → ChiefConfiguratorClient → ChiefConfiguratorClient
  unfolding configurator_step
  configurator_run [] c = c
  configurator_run (event ∷ events) c = configurator_step event (configurator_run events c)
