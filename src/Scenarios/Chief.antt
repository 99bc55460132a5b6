-- ===== src/Scenarios/Chief.antt =====
-- The theorems about the chief applied to concrete settings, queues and messages.
use fmtp.Prelude.{
  ℕ, zero, suc, ◌-◌, ◌≤◌, ◌+◌, ◌*◌, ◌≡◌, refl, Bool, true, false, Option, none, some, [], ◌∷◌, ◌++◌,
  Bytes, codes, ℤ, pos, negsuc, ◌++◌, lookup, length, foldl, All, arith, string_eq, int_eq,
}
use mathlib.Core.Option
use fmtp.Protocol.State.{empt, data_ready}
use fmtp.Channel.Core.{StateController}
use fmtp.Channel.Controller.{start, current_channel_state}
use fmtp.Chief.Channels.Work.Ready.{process_oldi_packet-receive_ws}
use fmtp.Protocol.Message.{operational}
use fmtp.Channel.Settings.{ChannelSettings, ChannelSettingsWithPort}
use fmtp.Chief.Settings.{ChiefSettings}
use fmtp.Chief.Message.{Msg, MsgWithChanId}
use fmtp.Chief.Provider.{
  FmtpGrpcServerImpl, new_fmtp_grpc_server_impl, second, clean_old_msg, append_msg, deliver,
}
use fmtp.Chief.Provider.Queue.{collect, collect-msg_to_fdps, drop_old, clean_old_msg-drop_old}
use fmtp.Chief.Provider.Routing.{Routed, deliver-Routed}
use fmtp.Channel.Log.{LogEntry, content}
use fmtp.Chief.Journal.{Trimming, RedisLogController, send_to_stream}
use fmtp.Chief.Journal.Bounds.{InOrder, send_to_stream-InOrder}
use fmtp.Chief.Protocol.{channel_message, channel_heartbeat, create_chief_data_msg}
use fmtp.Chief.Channels.{make_plan, find_id, new_chief_channel_server, ChiefChannelServer}
use fmtp.Chief.Channels.Diff.{has, should_stop, should_start}
use fmtp.Chief.Channels.Diff.Should.{make_plan-should}
use fmtp.Chief.Channels.Work.{receive_ws, process_oldi_packet}
use fmtp.Chief.Channels.Work.Provider.{Arrival, receive_arrival, clean_old_msg-arrivals}

abbrev channel : ℤ → Bytes → Bool → ChannelSettings
channel id remote_atc is_working = record {
  id = id;
  version = "1.0.0";
  data_type = "OLDI";
  net_role = "server";
  local_name = codes "UUUU";
  local_atc = codes "UUUWZQZX";
  remote_name = codes "EEEE";
  remote_atc = remote_atc;
  interval_ts = pos 15;
  interval_tr = pos 40;
  interval_ti = pos 60;
  reconnect_timeout = pos 5;
  fmtp_init_state_str = "data_ready";
  fmtp_init_state = empt;
  remote_address = "";
  remote_port = pos 0;
  local_port = pos 8500;
  data_encoding = "UTF-8";
  log_debug = false;
  is_working = is_working;
  url_address = "127.0.0.1";
  url_path = "channel";
  url_port = pos 13000;
}

abbrev before : ChannelSettingsWithPort
before = record {
  ch_settings = channel (pos 1) (codes "EETT") true ∷ channel (pos 2) (codes "EVRR") true ∷ [];
  ch_port = pos 13100;
}

abbrev after : ChannelSettingsWithPort
after = record {
  ch_settings = channel (pos 2) (codes "EVRR") false ∷ channel (pos 3) (codes "EFIN") true ∷ [];
  ch_port = pos 13100;
}

make_plan-should_example :
    (has (pos 2) (make_plan before after).stop_ids
      ≡ should_stop true (find_id (pos 2) before.ch_settings) (find_id (pos 2) after.ch_settings))
    × (has (pos 2) (make_plan before after).start_ids
        ≡ should_start true
            (find_id (pos 2) before.ch_settings)
            (find_id (pos 2) after.ch_settings))
make_plan-should_example =
    make_plan-should (pos 2) before after (refl, (refl, tt)) (refl, (refl, tt))

abbrev pub stamped : ℕ → Msg
stamped at = record {
  cid = codes "EETT";
  tp = "operational";
  txt = codes "(ABI)";
  id = pos 1;
  rrtime = some at;
  rqtime = none;
}

abbrev holding : FmtpGrpcServerImpl
holding = record {
  msg_to_fdps = stamped 1 ∷ stamped (40 * second) ∷ [];
  clnt_activity = [];
  from_fdps_chan = [];
  prov_metrics_chan = [];
}

collect-msg_to_fdps_example : collect ((some "10.0.0.1", 5) ∷ []) holding ≡ holding.msg_to_fdps
collect-msg_to_fdps_example = collect-msg_to_fdps ((some "10.0.0.1", 5) ∷ []) holding (omega arith)

-- Seconds since 1970, an absent stamp counted as 1970.
abbrev pub epoch_time : Option ℕ → ℕ
epoch_time t = Option.get_or t 0

clean_old_msg-drop_old_example :
    (clean_old_msg epoch_time holding (60 * second)).msg_to_fdps
    ≡ drop_old epoch_time (60 * second) holding.msg_to_fdps
clean_old_msg-drop_old_example = clean_old_msg-drop_old epoch_time (60 * second) holding

abbrev pub chief_settings : ChiefSettings
chief_settings = record {
  ip_addr = "10.0.0.2";
  cntrl_id = pos 1;
  timestamp = "";
  channels_port = pos 13100;
  oldi_provider_port = pos 13200;
  oldi_provider_encoding = "UTF-8";
  aodb_provider_port = pos 13300;
  docker_registry = "";
  channel_setts = before.ch_settings;
  providers_setts = [];
  is_initialised = true;
}

deliver-Routed_example :
    (length (deliver chief_settings (stamped 1 ∷ [])).0
        + length (deliver chief_settings (stamped 1 ∷ [])).1
      ≡ 1)
    × All (Routed chief_settings) (deliver chief_settings (stamped 1 ∷ [])).0
deliver-Routed_example = deliver-Routed chief_settings (stamped 1 ∷ [])

abbrev pub running : ChiefChannelServer
running = record (new_chief_channel_server false) { channel_setts = before; oldi_ident = 1000 }

abbrev pub arrival : Arrival
arrival = (
  7,
  (
    channel_message (record {
      channel_id = pos 1;
      fmtp_message = record { type = operational; text = codes "(ABI)" };
    }),
    3,
  ),
)

clean_old_msg-arrivals_example :
    (clean_old_msg epoch_time
      (foldl append_msg new_fmtp_grpc_server_impl
        (foldl receive_arrival running (arrival ∷ [])).to_fdps_packet_chan)
      (31 * second)).msg_to_fdps
    ≡ []
unfolding new_chief_channel_server
clean_old_msg-arrivals_example =
    clean_old_msg-arrivals epoch_time (31 * second) running (arrival ∷ []) refl (omega arith) refl

-- The controller of the first channel, as it is once the peer has started.
abbrev exchanging : StateController
exchanging = record (start (channel (pos 1) (codes "EETT") true)) { current_state = data_ready }

abbrev for_channel : MsgWithChanId
for_channel = record { pb_msg = stamped 1; chan_id = pos 1 }

process_oldi_packet-receive_ws_example :
    (process_oldi_packet
      (receive_ws running 7 (channel_heartbeat (current_channel_state exchanging)) 3)
      for_channel).ws_sent
    ≡ record { msg = create_chief_data_msg (pos 1) (codes "(ABI)"); sock = some 3 } ∷ []
unfolding start new_chief_channel_server lookup
process_oldi_packet-receive_ws_example =
    process_oldi_packet-receive_ws running 7 exchanging 3 for_channel refl

abbrev entry : LogEntry
entry = record {
  source = "FMTP канал";
  severity = "Информация";
  fmtp_type = "-";
  direction = "-";
  text = content (codes "(ABI)");
}

abbrev journal : RedisLogController
journal = record {
  msg_to_send = entry ∷ entry ∷ entry ∷ [];
  success_connect = true;
  max_send_count = pos 2;
  stream_max_count = pos 2;
  stream = entry ∷ [];
  sent_count = 1;
  err_count = 0;
}

-- Redis trims all that is beyond the maximum.
abbrev exactly : ℤ → ℕ → ℕ
exactly (pos zero) count = 0
exactly (pos (suc max)) count = count - suc max
exactly (negsuc n) count = 0

exactly-within : (max count : ℕ) → exactly (pos max) count ≤ count - max
exactly-within zero count = omega arith
exactly-within (suc max) count = omega arith

abbrev exact_redis : Trimming
exact_redis = record {
  trimmed = exactly;
  trimmed-within = exactly-within;
  trimmed-zero = λ count. refl;
}

send_to_stream-InOrder_example :
    InOrder exact_redis 2
      (journal.stream ++ journal.msg_to_send)
      (send_to_stream exact_redis journal true)
send_to_stream-InOrder_example = send_to_stream-InOrder exact_redis journal 2 2 refl refl
