-- ===== src/Chief/Configurator/Ready.antt =====
-- What the chief's settings are while they count as initialised.
use fmtp.Prelude.{
  ◌≡◌, refl, ◌∙◌, Bool, true, false, ◌⊎◌, inl, inr, ◌==◌, string_eq, if◌then◌else◌, Option, none,
  some, List, [], ◌∷◌, map, All, not, ◌-◌, ◌++◌, ltb, String, Bytes, ℤ, ◌+ℤ◌, arith,
}
use fmtp.Channel.Settings.{ChannelSettings}
use fmtp.Chief.Settings.{ChiefSettings, ProviderSettings, aodb_provider, oldi_provider}
use fmtp.Chief.Configurator.Post.{http_error, http_body}
use fmtp.Chief.Configurator.{
  Json, Versions, chief_hbt, empty_settings, chief_setts_answer_hdr, chief_hbt_answer_hdr,
  ChiefConfiguratorClient, ConfiguratorEvent, post_done, minute_over, heartbeat_ticked,
  local_settings_due, urls_given, with_url, with_encoding, with_local_port, send_settings,
  init_after_get_settings, settings_read, timestamp_read, handle_answer, read_from_file,
  request_setts, configurator_step, configurator_run,
}

abbrev pub HasUrl : ℤ → String → ChannelSettings → Type 0
HasUrl start_web_port ip_addr sett =
    (sett.url_address ≡ ip_addr)
    × (sett.url_path ≡ "channel")
    × (sett.url_port ≡ start_web_port +ℤ sett.id)

-- A provider of another type keeps the port it came with.
abbrev pub HasPort : ChiefSettings → ProviderSettings → Type 0
HasPort cfg val =
    ((val.data_type ≡ aodb_provider) × (val.local_port ≡ cfg.aodb_provider_port))
    ⊎ (((val.data_type ≡ oldi_provider)
          × (val.local_port ≡ cfg.oldi_provider_port)
          × (val.provider_encoding ≡ cfg.oldi_provider_encoding))
        ⊎ (((val.data_type == aodb_provider) ≡ false) × ((val.data_type == oldi_provider) ≡ false)))

by_type :
    (cfg : ChiefSettings) (val : ProviderSettings) (aodb oldi : Bool)
    → (val.data_type == aodb_provider) ≡ aodb
    → (val.data_type == oldi_provider) ≡ oldi
    → (val.data_type ≡ oldi_provider → val.provider_encoding ≡ cfg.oldi_provider_encoding)
    → HasPort cfg (
        if aodb
        then record val { local_port = cfg.aodb_provider_port }
        else if oldi
        then record val { local_port = cfg.oldi_provider_port }
        else val)
by_type cfg val true oldi a o h = inl ((string_eq.beq_iff _ _).0 a, refl)
by_type cfg val false true a o h =
    let same = (string_eq.beq_iff val.data_type oldi_provider).0 o in inr (inl (same, refl, h same))
by_type cfg val false false a o h = inr (inr (a, o))

encoding_filled :
    (cfg : ChiefSettings) (val : ProviderSettings) (oldi : Bool)
    → (val.data_type == oldi_provider) ≡ oldi
    → let filled : ProviderSettings =
        if oldi then record val { provider_encoding = cfg.oldi_provider_encoding } else val in
      filled.data_type ≡ oldi_provider → filled.provider_encoding ≡ cfg.oldi_provider_encoding
encoding_filled cfg val true o same = refl
encoding_filled cfg val false o same =
    absurd (ground (arith, o, (string_eq.beq_iff val.data_type oldi_provider).1 same))

port_filled :
    (cfg : ChiefSettings) (val : ProviderSettings)
    → HasPort cfg (with_local_port cfg (with_encoding cfg val))
port_filled cfg val =
    by_type cfg (with_encoding cfg val) _ _ refl refl (encoding_filled cfg val _ refl)

if-local :
    (b : Bool) (x y : ChiefConfiguratorClient)
    → x.read_local_settings ≡ y.read_local_settings
    → (if b then x else y).read_local_settings ≡ y.read_local_settings
if-local true x y e = e
if-local false x y e = refl

module _ (start_web_port : ℤ) where
  -- What `sendSettings` has filled in, with the timer of the file stopped.
  abbrev pub IsFilled : ChiefConfiguratorClient → Type 0
  IsFilled c =
      (c.read_local_settings ≡ false)
      × All (HasUrl start_web_port c.chief_cfg.ip_addr) c.chief_cfg.channel_setts
      × All (HasPort c.chief_cfg) c.chief_cfg.providers_setts
      × (c.state_cntrl_id ≡ c.chief_cfg.cntrl_id)
      × (c.state_ip_addr ≡ c.chief_cfg.ip_addr)

  abbrev pub IsReady : ChiefConfiguratorClient → Type 0
  IsReady c = (c.chief_cfg.is_initialised ≡ false) ⊎ IsFilled c

  urls_filled :
      (ip_addr : String) (setts : List ChannelSettings)
      → All (HasUrl start_web_port ip_addr) (map (with_url start_web_port ip_addr) setts)
  urls_filled ip_addr [] = tt
  urls_filled ip_addr (sett ∷ setts) = ((refl, refl, refl), urls_filled ip_addr setts)

  ports_filled :
      (cfg : ChiefSettings) (vals : List ProviderSettings)
      → All (HasPort cfg) (map (λ val. with_local_port cfg (with_encoding cfg val)) vals)
  ports_filled cfg [] = tt
  ports_filled cfg (val ∷ vals) = (port_filled cfg val, ports_filled cfg vals)

  if-IsReady :
      (b : Bool) (x y : ChiefConfiguratorClient)
      → IsReady x
      → IsReady y
      → IsReady (if b then x else y)
  if-IsReady true x y hx hy = hx
  if-IsReady false x y hx hy = hy

  init_after_get_settings-local :
      (versions : Option Versions) (c : ChiefConfiguratorClient)
      → (init_after_get_settings versions c).read_local_settings ≡ c.read_local_settings
  unfolding init_after_get_settings request_setts
  init_after_get_settings-local none c = refl
  init_after_get_settings-local (some new_versions) c = if-local _ _ _ refl

  module _ (json : Json)
      (keeps : (text : Bytes) (s : ChiefSettings)
        → (json.settings text s).0.is_initialised ≡ s.is_initialised) where
    send_settings-IsFilled :
        (c : ChiefConfiguratorClient)
        → c.read_local_settings ≡ false
        → IsFilled (send_settings json start_web_port c)
    unfolding send_settings
    send_settings-IsFilled c h =
        (h, urls_filled _ c.chief_cfg.channel_setts, ports_filled c.chief_cfg _, refl, refl)

    settings_read-IsReady :
        (versions : Option Versions) (answer : ChiefSettings × Bool) (c : ChiefConfiguratorClient)
        → answer.0.is_initialised ≡ false
        → IsReady (settings_read json start_web_port versions answer c)
    unfolding settings_read
    settings_read-IsReady versions (cfg, false) c h = inl h
    settings_read-IsReady versions (cfg, true) c h =
        let got : ChiefConfiguratorClient = record c {
          chief_cfg = record cfg { is_initialised = true };
          read_local_settings = false;
        } in
        inr (
          send_settings-IsFilled (init_after_get_settings versions got)
            (init_after_get_settings-local versions got))

    timestamp_read-IsReady :
        (timestamp : Option String) (c : ChiefConfiguratorClient)
        → IsReady c
        → IsReady (timestamp_read json start_web_port timestamp c)
    unfolding timestamp_read request_setts
    timestamp_read-IsReady none c h = h
    timestamp_read-IsReady (some timestamp) c h =
        if-IsReady (not (timestamp == c.chief_cfg.timestamp)) (request_setts c) c h h

    handle_answer-IsReady :
        (versions : Option Versions) (body : Bytes) (header : Option String)
        (c : ChiefConfiguratorClient)
        → IsReady c
        → IsReady (handle_answer json start_web_port versions body header c)
    unfolding handle_answer
    handle_answer-IsReady versions body none c h = h
    handle_answer-IsReady versions body (some header) c h =
        let answer = json.settings body empty_settings in
        let timestamp = json.config_timestamp body in
        let seen = timestamp_read json start_web_port timestamp c in
        if-IsReady (header == chief_setts_answer_hdr)
          (settings_read json start_web_port versions answer c)
          (if header == chief_hbt_answer_hdr then seen else c)
          (settings_read-IsReady versions answer c (keeps body empty_settings))
          (if-IsReady (header == chief_hbt_answer_hdr) seen c (timestamp_read-IsReady timestamp c h)
            h)

    read_from_file-IsReady :
        (file : ChiefSettings × Bool) (c : ChiefConfiguratorClient)
        → file.0.is_initialised ≡ false
        → IsReady (read_from_file json start_web_port file c)
    unfolding read_from_file send_settings
    read_from_file-IsReady (cfg, false) c h = inl h
    read_from_file-IsReady (cfg, true) c h = inl h

    due-IsReady :
        (file : Option Bytes) (c : ChiefConfiguratorClient) (running : Bool)
        → c.read_local_settings ≡ running
        → IsReady c
        → IsReady (
            if running
            then elim file [
              | none ↦ record c { read_local_settings = false }
              | some text ↦
                  read_from_file json start_web_port
                    (json.settings text c.chief_cfg)
                    (record c { read_local_settings = false })
            ]
            else c)
    due-IsReady file c false r h = h
    due-IsReady none c true r (inl h) = inl h
    due-IsReady (some text) c true r (inl h) =
        read_from_file-IsReady _ _ (keeps text c.chief_cfg ∙ h)
    due-IsReady file c true r (inr (stopped, urls, ports, id, ip)) =
        absurd (ground (arith, r, stopped))

    configurator_step-IsReady :
        (event : ConfiguratorEvent) (c : ChiefConfiguratorClient)
        → IsReady c
        → IsReady (configurator_step json start_web_port event c)
    unfolding configurator_step request_setts
    configurator_step-IsReady (post_done (http_error error) versions) c h = inl refl
    configurator_step-IsReady (post_done (http_body body) versions) c h =
        handle_answer-IsReady versions body (json.header body) c h
    configurator_step-IsReady minute_over c h =
        if-IsReady (ltb 0 c.delayed) (request_setts (record c { delayed = c.delayed - 1 })) c h h
    configurator_step-IsReady heartbeat_ticked c h =
        if-IsReady c.chief_cfg.is_initialised
          (record c { posted = c.posted ++ chief_hbt c.state_cntrl_id c.state_ip_addr ∷ [] }) c h h
    configurator_step-IsReady (local_settings_due file) c h = due-IsReady file c _ refl h
    configurator_step-IsReady urls_given c h = h

    -- Where reading JSON leaves the field alone that JSON does not know: whatever comes to a client
    -- that is ready is followed by a client that is ready. Its settings are not initialised, or every
    -- channel has the address, the path and the port of its page, every provider the port of its type
    -- (and OLDI its encoding), the state of the chief has the identifier and the address of the
    -- settings, and the timer of the file is stopped.
    pub configurator_run-IsReady :
        (events : List ConfiguratorEvent) (c : ChiefConfiguratorClient)
        → IsReady c
        → IsReady (configurator_run json start_web_port events c)
    unfolding configurator_run
    configurator_run-IsReady [] c h = h
    configurator_run-IsReady (event ∷ events) c h =
        configurator_step-IsReady event _ (configurator_run-IsReady events c h)
