-- ===== src/Chief/Channels.antt =====
-- chief_channel/chief_channel_server.go: the chief's side of the channels: which are started and
-- stopped, what is known of their states, and the passing on of messages. The cases of the `select`
-- in `Work` are functions here; what is written to a Go channel is a list, oldest first.
pub mod Equal
pub mod Diff
pub mod Work
pub mod Programs
use fmtp.Prelude.{
  ℕ, zero, suc, ◌+◌, ◌*◌, String, Bool, true, false, not, ◌&&◌, Option, none, some, List, [], ◌∷◌,
  ◌++◌, ◌==◌, if◌then◌else◌, string_eq, int_eq, bytes_eq, nat_eq, Bytes, ℤ, pos, ltb, length, GoMap,
  lookup, insert, delete,
}
use mathlib.Core.Option
use fmtp.Protocol.State
use fmtp.Protocol.State.{data_ready, empt}
use fmtp.Channel.Settings.{ChannelSettings, ChannelSettingsWithPort}
use fmtp.Channel.State.{ChannelState, channel_state_error, channel_state_stopped}
use fmtp.Channel.Log.{LogEntry}
use fmtp.Chief.Settings.{oldi_provider}
use fmtp.Chief.State.{ChiefState, set_channels_state}
use fmtp.Chief.Message.{Msg, MsgWithChanId}
use fmtp.Chief.Metrics.{ChanMetrics}
use fmtp.Chief.Provider.{second}
use fmtp.Chief.Protocol.{
  ChannelMsg, settings_request, channel_heartbeat, channel_log, channel_message, unreadable,
  ChiefMsg, settings_answer, create_chief_data_msg, DataMsg,
}
use fmtp.Chief.Channels.Equal.{settings_eq, same_list}

pub record ChannelStateTime : Type 0 where
  pub channel_state : ChannelState
  pub time : ℕ

-- A connection of the web socket server is its number.
pub record WsPackage : Type 0 where
  pub msg : ChiefMsg
  pub sock : Option ℕ

pub record ChiefChannelServer : Type 0 where
  pub channel_setts : ChannelSettingsWithPort
  pub to_fdps_packet_chan : List Msg
  -- The file of each channel that runs; a container has none.
  pub channel_bin_map : GoMap ℤ String
  pub ws_ports : List ℤ
  pub ws_sent : List WsPackage
  pub ws_clients : GoMap ℤ ℕ
  pub ch_states : GoMap ℤ ChannelStateTime
  pub oldi_ident : ℕ
  pub with_docker : Bool
  pub log : List LogEntry
  pub chan_metrics : List ChanMetrics
  -- The settings of the channels that have been started, and the ids of planned starts.
  pub started : List ChannelSettings
  pub planned_starts : List (List ℤ)

unfoldable pub new_chief_channel_server : Bool → ChiefChannelServer
new_chief_channel_server work_with_docker = record {
  channel_setts = record { ch_settings = []; ch_port = pos 0 };
  to_fdps_packet_chan = [];
  channel_bin_map = [];
  ws_ports = [];
  ws_sent = [];
  ws_clients = [];
  ch_states = [];
  oldi_ident = 1;
  with_docker = work_with_docker;
  log = [];
  chan_metrics = [];
  started = [];
  planned_starts = [];
}

abbrev pub initial_state : ChannelSettings → ChannelState
initial_state ch_sett = record {
  channel_id = ch_sett.id;
  local_name = ch_sett.local_atc;
  remote_name = ch_sett.remote_atc;
  daemon_state = if ch_sett.is_working then channel_state_error else channel_state_stopped;
  fmtp_state = "disabled";
  channel_url = record {
    address = ch_sett.url_address;
    port = ch_sett.url_port;
    path = ch_sett.url_path;
  };
  state_color = "";
}

unfoldable pub init_channel_state :
    ℕ → ChannelSettings → GoMap ℤ ChannelStateTime → GoMap ℤ ChannelStateTime
unfolding insert
init_channel_state now ch_sett states =
    insert ch_sett.id (record { channel_state = initial_state ch_sett; time = now }) states

-- The ids to stop and to start, and the settings whose state is made anew.
pub record Plan : Type 0 where
  pub stop_ids : List ℤ
  pub start_ids : List ℤ
  pub inits : List ChannelSettings

abbrev pub empty_plan : Plan
empty_plan = record { stop_ids = []; start_ids = []; inits = [] }

abbrev pub plan_stop : ChannelSettings → Plan → Plan
plan_stop it p = record p { stop_ids = if it.is_working then it.id ∷ p.stop_ids else p.stop_ids }

abbrev pub plan_start : ChannelSettings → Plan → Plan
plan_start it p = record p {
  start_ids = if it.is_working then it.id ∷ p.start_ids else p.start_ids;
  inits = it ∷ p.inits;
}

abbrev pub find_id : ℤ → List ChannelSettings → Option ChannelSettings
find_id id [] = none
find_id id (it ∷ its) = if it.id == id then some it else find_id id its

abbrev pub plan_all_stops : List ChannelSettings → Plan → Plan
plan_all_stops [] p = p
plan_all_stops (val ∷ vals) p = plan_stop val (plan_all_stops vals p)

abbrev pub plan_all_starts : List ChannelSettings → Plan → Plan
plan_all_starts [] p = p
plan_all_starts (val ∷ vals) p = plan_start val (plan_all_starts vals p)

-- A channel of the new settings, with that of the old ones that has its id.
abbrev pub plan_new : ChannelSettings → Option ChannelSettings → Plan → Plan
plan_new new_it none p = plan_start new_it p
plan_new new_it (some old_it) p =
    if old_it == new_it then p else plan_stop old_it (plan_start new_it p)

abbrev pub plan_news : List ChannelSettings → List ChannelSettings → Plan → Plan
plan_news olds [] p = p
plan_news olds (new_it ∷ news) p = plan_new new_it (find_id new_it.id olds) (plan_news olds news p)

abbrev pub plan_old : ChannelSettings → Option ChannelSettings → Plan → Plan
plan_old old_it (some new_it) p = p
plan_old old_it none p = plan_stop old_it p

abbrev pub plan_olds : List ChannelSettings → List ChannelSettings → Plan → Plan
plan_olds [] news p = p
plan_olds (old_it ∷ olds) news p = plan_old old_it (find_id old_it.id news) (plan_olds olds news p)

-- The ids of channels that vanish come after the others.
unfoldable pub make_plan : ChannelSettingsWithPort → ChannelSettingsWithPort → Plan
make_plan old new =
    if not (old.ch_port == new.ch_port)
    then plan_all_stops old.ch_settings (plan_all_starts new.ch_settings empty_plan)
    else if not (same_list old.ch_settings new.ch_settings)
    then plan_news old.ch_settings new.ch_settings
        (plan_olds old.ch_settings new.ch_settings empty_plan)
    else empty_plan

abbrev pub init_all : ℕ → List ChannelSettings → GoMap ℤ ChannelStateTime → GoMap ℤ ChannelStateTime
unfolding init_channel_state
init_all now [] states = states
init_all now (it ∷ its) states = init_all now its (init_channel_state now it states)

-- `utils.RemoveBinary` and `utils.CopyBinary` are not part of the repository: the first tells whether
-- it has removed the file, the second gives the file it has made.
module _ (remove_binary : String → Bool) (copy_binary : ChannelSettings → Option String) where
  abbrev pub stop_loaded : ℤ → Option String → ChiefChannelServer → ChiefChannelServer
  unfolding delete
  stop_loaded stop_id none cc = cc
  stop_loaded stop_id (some file_path) cc =
      if not cc.with_docker && not (remove_binary file_path)
      then cc
      else record cc { channel_bin_map = delete stop_id cc.channel_bin_map }

  unfoldable pub stop_channels_by_ids : List ℤ → ChiefChannelServer → ChiefChannelServer
  unfolding delete lookup stop_loaded
  stop_channels_by_ids [] cc = cc
  stop_channels_by_ids (stop_id ∷ ids) cc =
      stop_channels_by_ids ids (stop_loaded stop_id (lookup stop_id cc.channel_bin_map) cc)

  abbrev pub start_with : ChannelSettings → Option String → ChiefChannelServer → ChiefChannelServer
  unfolding insert
  start_with new_it none cc = cc
  start_with new_it (some file_path) cc = record cc {
    channel_bin_map = insert new_it.id file_path cc.channel_bin_map;
    started = cc.started ++ new_it ∷ [];
  }

  abbrev pub start_found : Option ChannelSettings → ChiefChannelServer → ChiefChannelServer
  unfolding start_with
  start_found none cc = cc
  start_found (some new_it) cc =
      start_with new_it (if cc.with_docker then some "" else copy_binary new_it) cc

  unfoldable pub start_channels_by_ids : List ℤ → ChiefChannelServer → ChiefChannelServer
  unfolding start_found
  start_channels_by_ids [] cc = cc
  start_channels_by_ids (start_id ∷ ids) cc =
      start_channels_by_ids ids (start_found (find_id start_id cc.channel_setts.ch_settings) cc)

  -- New settings. The starts follow two seconds later.
  unfoldable pub change_settings :
      ℕ → ChannelSettingsWithPort → ChiefChannelServer → ChiefChannelServer
  unfolding init_all make_plan
  change_settings now new_setts cc =
      let plan = make_plan cc.channel_setts new_setts in
      let changed = record cc {
        ch_states = init_all now plan.inits cc.ch_states;
        channel_setts = new_setts;
        ws_ports =
            if cc.channel_setts.ch_port == new_setts.ch_port
            then cc.ws_ports
            else cc.ws_ports ++ new_setts.ch_port ∷ [];
      } in
      let stopped = stop_channels_by_ids plan.stop_ids changed in
      record stopped { planned_starts = stopped.planned_starts ++ plan.start_ids ∷ [] }
