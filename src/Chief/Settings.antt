-- ===== src/Chief/Settings.antt =====
-- chief/chief_settings/chief_settings.go: the chief's settings and the look-ups in them. Reading and
-- saving the file are left out, with the settings of the logger.
use fmtp.Prelude.{
  String, Bool, List, [], ◌∷◌, ◌==◌, if◌then◌else◌, string_eq, bytes_eq, int_eq, Bytes, ℤ, negsuc,
}
use fmtp.Channel.Settings.{ChannelSettings}

abbrev pub aodb_provider : String
aodb_provider = "AODB"

abbrev pub oldi_provider : String
oldi_provider = "OLDI"

pub record ProviderSettings : Type 0 where
  pub id : ℤ
  pub ip_addresses : List String
  pub status : String
  pub data_type : String
  pub provider_encoding : String
  pub local_port : ℤ

pub record ChiefSettings : Type 0 where
  pub ip_addr : String
  pub cntrl_id : ℤ
  pub timestamp : String
  pub channels_port : ℤ
  pub oldi_provider_port : ℤ
  pub oldi_provider_encoding : String
  pub aodb_provider_port : ℤ
  pub docker_registry : String
  pub channel_setts : List ChannelSettings
  pub providers_setts : List ProviderSettings
  pub is_initialised : Bool

abbrev pub first_status : ℤ → List ProviderSettings → String
first_status id_prov [] = "primary"
first_status id_prov (val ∷ vals) =
    if val.id == id_prov then val.status else first_status id_prov vals

unfoldable pub provider_status_by_id : ChiefSettings → ℤ → String
provider_status_by_id s id_prov = first_status id_prov s.providers_setts

abbrev pub first_data_type : ℤ → List ChannelSettings → String
first_data_type id_chan [] = "OLDI"
first_data_type id_chan (val ∷ vals) =
    if val.id == id_chan then val.data_type else first_data_type id_chan vals

unfoldable pub channel_data_type_by_id : ChiefSettings → ℤ → String
channel_data_type_by_id s id_chan = first_data_type id_chan s.channel_setts

abbrev pub of_type : String → List ProviderSettings → List ProviderSettings
of_type provider_type [] = []
of_type provider_type (val ∷ vals) =
    if val.data_type == provider_type
    then val ∷ of_type provider_type vals
    else of_type provider_type vals

unfoldable pub provider_settings : ChiefSettings → String → List ProviderSettings
provider_settings s provider_type = of_type provider_type s.providers_setts

abbrev pub first_with_atc : Bytes → List ChannelSettings → ℤ
first_with_atc cid [] = negsuc 0
first_with_atc cid (val ∷ vals) = if val.remote_atc == cid then val.id else first_with_atc cid vals

-- -1 where no channel has the remote ATC.
unfoldable pub get_channel_id_by_cid : ChiefSettings → Bytes → ℤ
get_channel_id_by_cid s cid = first_with_atc cid s.channel_setts
