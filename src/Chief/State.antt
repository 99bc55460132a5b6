-- ===== src/Chief/State.antt =====
-- chief/chief_state/chief_state.go: what the chief reports of its channels and providers.
pub mod Common
use fmtp.Prelude.{
  String, Bool, not, List, [], ◌∷◌, ◌++◌, ◌==◌, if◌then◌else◌, string_eq, bytes_eq, GoMap, insert,
  Bytes, ℤ,
}
use fmtp.Channel.State.{ChannelState, channel_state_ok}
use fmtp.Chief.Settings.{aodb_provider, oldi_provider}

abbrev pub state_ok : String
state_ok = "ok"

abbrev pub state_error : String
state_error = "error"

pub record ProviderState : Type 0 where
  pub provider_id : ℤ
  pub provider_type : String
  pub provider_ips : List String
  pub provider_state : String

-- `CommonChiefState` with the map of channel states by remote ATC.
pub record ChiefState : Type 0 where
  pub common_state : String
  pub docker_version : String
  pub channel_states : List ChannelState
  pub provider_states : List ProviderState
  pub channel_states_map : GoMap Bytes ChannelState

abbrev pub worst_provider : List ProviderState → String
worst_provider [] = state_ok
worst_provider (it ∷ rest) =
    if not (it.provider_state == state_ok) then state_error else worst_provider rest

abbrev pub worst_channel : List ChannelState → List ProviderState → String
worst_channel [] providers = worst_provider providers
worst_channel (it ∷ rest) providers =
    if not (it.daemon_state == channel_state_ok) then state_error else worst_channel rest providers

unfoldable pub check_common_state : ChiefState → ChiefState
check_common_state s = record s { common_state = worst_channel s.channel_states s.provider_states }

unfoldable pub set_docker_version : ChiefState → String → ChiefState
set_docker_version s docker_vers = record s { docker_version = docker_vers }

abbrev pub states_of : String → List ProviderState → List ProviderState
states_of provider_type [] = []
states_of provider_type (val ∷ vals) =
    if val.provider_type == provider_type
    then val ∷ states_of provider_type vals
    else states_of provider_type vals

unfoldable pub set_aodb_provider_state : ChiefState → List ProviderState → ChiefState
unfolding check_common_state
set_aodb_provider_state s aodb_state =
    check_common_state
      (record s { provider_states = states_of oldi_provider s.provider_states ++ aodb_state })

unfoldable pub set_oldi_provider_state : ChiefState → List ProviderState → ChiefState
unfolding check_common_state
set_oldi_provider_state s oldi_state =
    check_common_state
      (record s { provider_states = states_of aodb_provider s.provider_states ++ oldi_state })

abbrev pub by_remote_name : List ChannelState → GoMap Bytes ChannelState → GoMap Bytes ChannelState
unfolding insert
by_remote_name [] m = m
by_remote_name (v ∷ vs) m = by_remote_name vs (insert v.remote_name v m)

unfoldable pub set_channels_state : ChiefState → List ChannelState → ChiefState
unfolding check_common_state insert
set_channels_state s channels_state =
    record (check_common_state (record s { channel_states = channels_state })) {
      channel_states_map = by_remote_name channels_state [];
    }
