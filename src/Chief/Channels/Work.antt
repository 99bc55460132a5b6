-- ===== src/Chief/Channels/Work.antt =====
-- chief_channel/chief_channel_server.go: the messages from the channels and from the provider, the
-- ticker, and the ends of the channels' processes and containers.
pub mod Provider
pub mod Idents
pub mod Ready
pub mod Frame
use fmtp.Prelude.{
  ℕ, zero, suc, ◌+◌, ◌*◌, String, Bool, true, false, not, ◌&&◌, Option, none, some, List, [], ◌∷◌,
  ◌++◌, map, ◌==◌, if◌then◌else◌, string_eq, int_eq, bytes_eq, nat_eq, Bytes, ℤ, pos, ltb, length,
  GoMap, lookup, insert, delete,
}
use mathlib.Core.Option
use fmtp.Protocol.State
use fmtp.Protocol.State.{data_ready, empt}
use fmtp.Channel.Settings.{ChannelSettings}
use fmtp.Channel.State.{ChannelState, channel_state_error}
use fmtp.Chief.Settings.{oldi_provider}
use fmtp.Chief.State.{ChiefState, set_channels_state}
use fmtp.Chief.Message.{Msg, MsgWithChanId}
use fmtp.Chief.Metrics.{ChanMetrics}
use fmtp.Chief.Provider.{second}
use fmtp.Chief.Protocol.{
  ChannelMsg, settings_request, channel_heartbeat, channel_log, channel_message, unreadable,
  ChiefMsg, settings_answer, create_chief_data_msg, DataMsg,
}
use fmtp.Chief.Channels.{
  ChannelStateTime, WsPackage, ChiefChannelServer, find_id, init_channel_state,
}

-- The settings of a channel that the chief does not know: every field is empty.
abbrev no_settings : ChannelSettings
no_settings = record {
  id = pos 0;
  version = "";
  data_type = "";
  net_role = "";
  local_name = [];
  local_atc = [];
  remote_name = [];
  remote_atc = [];
  interval_ts = pos 0;
  interval_tr = pos 0;
  interval_ti = pos 0;
  reconnect_timeout = pos 0;
  fmtp_init_state_str = "";
  fmtp_init_state = empt;
  remote_address = "";
  remote_port = pos 0;
  local_port = pos 0;
  data_encoding = "";
  log_debug = false;
  is_working = false;
  url_address = "";
  url_path = "";
  url_port = pos 0;
}

unfoldable pub answer_settings : ChiefChannelServer → ℤ → ℕ → ChiefChannelServer
unfolding insert lookup
answer_settings cc channel_id sock =
    let clients = insert channel_id sock cc.ws_clients in
    let setts = Option.get_or (find_id channel_id cc.channel_setts.ch_settings) no_settings in
    record cc {
      ws_clients = clients;
      ws_sent =
          cc.ws_sent ++ record { msg = settings_answer setts; sock = lookup setts.id clients } ∷ [];
    }

abbrev pub keep_client : ℤ → ℕ → Option ℕ → GoMap ℤ ℕ → GoMap ℤ ℕ
unfolding insert
keep_client channel_id sock (some known) clients = clients
keep_client channel_id sock none clients = insert channel_id sock clients

unfoldable pub note_heartbeat : ChiefChannelServer → ℕ → ChannelState → ℕ → ChiefChannelServer
unfolding insert lookup keep_client
note_heartbeat cc now state sock = record cc {
  ch_states = insert state.channel_id (record { channel_state = state; time = now }) cc.ch_states;
  ws_clients =
      keep_client state.channel_id sock (lookup state.channel_id cc.ws_clients) cc.ws_clients;
}

-- `oldiIdent++`, back to 1 after 1000.
abbrev pub next_ident : ℕ → ℕ
next_ident ident = if ltb 1000 (ident + 1) then 1 else ident + 1

-- The fields that the chief fills in; the time stamps stay empty.
abbrev pub make_oldi_pkg : ℕ → Bytes → Bytes → Msg
make_oldi_pkg ident remote_atc text = record {
  cid = remote_atc;
  tp = "";
  txt = text;
  id = pos ident;
  rrtime = none;
  rqtime = none;
}

abbrev pub pass_to_provider : ChiefChannelServer → ChannelSettings → Bytes → ChiefChannelServer
pass_to_provider cc setts text = record cc {
  to_fdps_packet_chan =
      cc.to_fdps_packet_chan ++ make_oldi_pkg cc.oldi_ident setts.remote_atc text ∷ [];
  oldi_ident = next_ident cc.oldi_ident;
  chan_metrics =
      cc.chan_metrics
      ++ record { tp = "recv"; loc_atc = setts.local_atc; rem_atc = setts.remote_atc; count = 1 }
        ∷ [];
}

abbrev pub from_known : ChiefChannelServer → Option ChannelSettings → Bytes → ChiefChannelServer
from_known cc none text = cc
from_known cc (some setts) text =
    if setts.data_type == oldi_provider then pass_to_provider cc setts text else cc

unfoldable pub take_channel_message : ChiefChannelServer → DataMsg → ChiefChannelServer
take_channel_message cc data_msg =
    from_known cc (find_id data_msg.channel_id cc.channel_setts.ch_settings)
      data_msg.fmtp_message.text

-- A package from the web socket server, with its connection.
unfoldable pub receive_ws : ChiefChannelServer → ℕ → ChannelMsg → ℕ → ChiefChannelServer
unfolding answer_settings note_heartbeat take_channel_message
receive_ws cc now (settings_request channel_id) sock = answer_settings cc channel_id sock
receive_ws cc now (channel_heartbeat state) sock = note_heartbeat cc now state sock
receive_ws cc now (channel_log entry) sock = record cc { log = cc.log ++ entry ∷ [] }
receive_ws cc now (channel_message data_msg) sock = take_channel_message cc data_msg
receive_ws cc now unreadable sock = cc

-- What is known of the channel; a missing state is not `data_ready`.
abbrev pub send_to_ready :
    ChiefChannelServer → MsgWithChanId → ℕ → Option ChannelStateTime → ChiefChannelServer
unfolding create_chief_data_msg
send_to_ready cc m sock none = cc
send_to_ready cc m sock (some known) =
    if known.channel_state.fmtp_state == State.to_string data_ready
    then record cc {
      ws_sent =
          cc.ws_sent
          ++ record { msg = create_chief_data_msg m.chan_id m.pb_msg.txt; sock = some sock } ∷ [];
      chan_metrics =
          cc.chan_metrics
          ++ record {
            tp = "send";
            loc_atc = known.channel_state.local_name;
            rem_atc = known.channel_state.remote_name;
            count = 1;
          }
            ∷ [];
    }
    else cc

abbrev pub send_to_client : ChiefChannelServer → MsgWithChanId → Option ℕ → ChiefChannelServer
unfolding send_to_ready lookup
send_to_client cc m none = cc
send_to_client cc m (some sock) = send_to_ready cc m sock (lookup m.chan_id cc.ch_states)

unfoldable pub process_oldi_packet : ChiefChannelServer → MsgWithChanId → ChiefChannelServer
unfolding send_to_client lookup
process_oldi_packet cc m = send_to_client cc m (lookup m.chan_id cc.ws_clients)

-- The first channel with the id that is to work.
abbrev pub find_working : ℤ → List ChannelSettings → Option ChannelSettings
find_working id [] = none
find_working id (it ∷ its) = if it.id == id && it.is_working then some it else find_working id its

abbrev renew : ℕ → ℤ → Option ChannelSettings → GoMap ℤ ChannelStateTime → GoMap ℤ ChannelStateTime
unfolding delete init_channel_state
renew now id none states = states
renew now id (some setts) states = init_channel_state now setts (delete id states)

-- The states older than ten seconds, among those the loop ranges over.
abbrev renew_old :
    ℕ
    → List ChannelSettings
    → GoMap ℤ ChannelStateTime
    → GoMap ℤ ChannelStateTime
    → GoMap ℤ ChannelStateTime
unfolding renew
renew_old now setts [] states = states
renew_old now setts ((id, known) ∷ more) states = renew_old now setts more (
    if ltb (known.time + 10 * second) now
    then renew now id (find_working id setts) states
    else states)

unfoldable pub send_states : ChiefChannelServer → ℕ → ChiefState → ChiefChannelServer × ChiefState
unfolding renew_old
send_states cc now state =
    let states = renew_old now cc.channel_setts.ch_settings cc.ch_states cc.ch_states in
    (
      record cc { ch_states = states },
      set_channels_state state (map (λ entry. entry.1.channel_state) states),
    )

abbrev restart_missing : ChiefChannelServer → ℤ → Option String → ChiefChannelServer
restart_missing cc id (some file) = cc
restart_missing cc id none = record cc { planned_starts = cc.planned_starts ++ (id ∷ []) ∷ [] }

abbrev check_found : ChiefChannelServer → ℤ → Option ChannelSettings → ChiefChannelServer
unfolding lookup
check_found cc id none = cc
check_found cc id (some setts) = restart_missing cc id (lookup setts.id cc.channel_bin_map)

unfoldable pub check_channel_working : ChiefChannelServer → ℤ → ChiefChannelServer
unfolding check_found
check_channel_working cc channel_id =
    check_found cc channel_id (find_working channel_id cc.channel_setts.ch_settings)

abbrev mark_error :
    ℤ → Option ChannelStateTime → GoMap ℤ ChannelStateTime → GoMap ℤ ChannelStateTime
unfolding insert
mark_error id none states = states
mark_error id (some known) states =
    insert id
      (record known {
        channel_state = record known.channel_state { daemon_state = channel_state_error };
      })
      states

-- The process of a channel has ended, with an error or without one.
unfoldable pub process_done : ChiefChannelServer → ℤ → Bool → ChiefChannelServer
unfolding mark_error lookup delete
process_done cc id failed =
    let ended =
      if failed
      then record cc {
        channel_bin_map = delete id cc.channel_bin_map;
        ch_states = mark_error id (lookup id cc.ch_states) cc.ch_states;
      }
      else cc in
    check_channel_working ended id

-- A container could not be made, started or waited for.
unfoldable pub container_failed : ChiefChannelServer → ℤ → ChiefChannelServer
unfolding delete
container_failed cc id = record cc { channel_bin_map = delete id cc.channel_bin_map }

-- A container has stopped.
unfoldable pub container_stopped : ChiefChannelServer → ℤ → ChiefChannelServer
unfolding container_failed
container_stopped cc id = check_channel_working (container_failed cc id) id
