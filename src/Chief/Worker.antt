-- ===== src/Chief/Worker.antt =====
-- chief/chief_worker/chief_worker.go: the goroutine that joins the chief's components, with the steps
-- of those that it joins. Each event is one case of one of their `select`s, or a call of the provider.
pub mod ToProvider
pub mod ToChannels
use fmtp.Prelude.{
  ℕ, zero, suc, ◌-◌, String, Bool, Option, none, List, [], ◌∷◌, ◌++◌, ℤ, length, take, map,
}
use fmtp.Channel.Settings.{ChannelSettings, ChannelSettingsWithPort}
use fmtp.Chief.Settings.{ChiefSettings}
use fmtp.Chief.Message.{Msg, MsgWithChanId}
use fmtp.Chief.Provider.{FmtpGrpcServerImpl, send_msg, recv_msq, clean_old_msg}
use fmtp.Chief.Grpc.{
  OldiGrpcController, change_address, serve_reported, take_packet, pass_from_fdps,
}
use fmtp.Chief.Protocol.{ChannelMsg}
use fmtp.Chief.Channels.{ChiefChannelServer, change_settings}
use fmtp.Chief.Channels.Work.{receive_ws, process_oldi_packet}

-- How a message has left the provider's queue.
pub data Departure : Type 0 where
  handed_over swept_away : Msg → Departure

abbrev pub departed : Departure → Msg
departed (handed_over msg) = msg
departed (swept_away msg) = msg

-- The channels between the components are the lists of what waits in them, oldest first.
pub record ChiefWorker : Type 0 where
  -- The settings of `configurator.ChiefCfg`.
  pub chief_cfg : ChiefSettings
  pub chief_sett_changed : ℕ
  pub oldi_grpc_cntrl : OldiGrpcController
  pub channel_cntrl : ChiefChannelServer
  pub channel_setts_chan : List ChannelSettingsWithPort
  pub from_fdps_packet_chan : List MsgWithChanId
  pub logger_setts_changed : ℕ
  -- The host of each settings of the metrics.
  pub metrics_setts_chan : List String
  -- What has left the queue of the provider, and what `ProcessOldiPacket` has been given.
  pub departures : List Departure
  pub processed : List MsgWithChanId

pub data ChiefEvent : Type 0 where
  -- The configurator's client has new settings.
  configured : ChiefSettings → ChiefEvent
  -- The cases of the worker.
  settings_passed from_fdps_passed to_fdps_passed : ChiefEvent
  -- The cases of the other components.
  channels_configured : ℕ → ChiefEvent
  ws_received : ℕ → ChannelMsg → ℕ → ChiefEvent
  packet_processed : ChiefEvent
  grpc_configured packet_taken msg_passed_on : ChiefEvent
  grpc_served : Bool → ChiefEvent
  swept : ℕ → ChiefEvent
  -- The calls of a provider.
  msgs_sent : Option String → ℕ → List Msg → ChiefEvent
  msgs_asked : Option String → ℕ → ChiefEvent

abbrev signal_settings : ℕ → ChiefWorker → ChiefWorker
signal_settings zero w = w
signal_settings (suc signals) w = record w {
  chief_sett_changed = signals;
  channel_setts_chan =
      w.channel_setts_chan
      ++ record { ch_settings = w.chief_cfg.channel_setts; ch_port = w.chief_cfg.channels_port }
        ∷ [];
  oldi_grpc_cntrl = record w.oldi_grpc_cntrl {
    setts_changed_chan = suc w.oldi_grpc_cntrl.setts_changed_chan;
  };
  logger_setts_changed = suc w.logger_setts_changed;
  metrics_setts_chan = w.metrics_setts_chan ++ w.chief_cfg.ip_addr ∷ [];
}

-- The worker: new settings of the chief.
unfoldable pub pass_settings : ChiefWorker → ChiefWorker
pass_settings w = signal_settings w.chief_sett_changed w

abbrev pub first_from_fdps : List MsgWithChanId → ChiefWorker → ChiefWorker
first_from_fdps [] w = w
first_from_fdps (msg ∷ msgs) w = record w {
  oldi_grpc_cntrl = record w.oldi_grpc_cntrl { from_fdps_chan = msgs };
  from_fdps_packet_chan = w.from_fdps_packet_chan ++ msg ∷ [];
}

-- The worker: a message of the provider.
unfoldable pub pass_from_provider : ChiefWorker → ChiefWorker
pass_from_provider w = first_from_fdps w.oldi_grpc_cntrl.from_fdps_chan w

abbrev pub first_to_fdps : List Msg → ChiefWorker → ChiefWorker
first_to_fdps [] w = w
first_to_fdps (msg ∷ msgs) w = record w {
  channel_cntrl = record w.channel_cntrl { to_fdps_packet_chan = msgs };
  oldi_grpc_cntrl = record w.oldi_grpc_cntrl {
    to_fdps_chan = w.oldi_grpc_cntrl.to_fdps_chan ++ msg ∷ [];
  };
}

-- The worker: a message of the channels.
unfoldable pub pass_to_cntrl : ChiefWorker → ChiefWorker
pass_to_cntrl w = first_to_fdps w.channel_cntrl.to_fdps_packet_chan w

abbrev pub process_first : List MsgWithChanId → ChiefWorker → ChiefWorker
unfolding process_oldi_packet
process_first [] w = w
process_first (msg ∷ msgs) w = record w {
  from_fdps_packet_chan = msgs;
  channel_cntrl = process_oldi_packet w.channel_cntrl msg;
  processed = w.processed ++ msg ∷ [];
}

abbrev pub configure_grpc : ℕ → ChiefWorker → ChiefWorker
unfolding change_address
configure_grpc zero w = w
configure_grpc (suc signals) w = record w {
  oldi_grpc_cntrl =
      change_address w.chief_cfg.oldi_provider_port
        (record w.oldi_grpc_cntrl { setts_changed_chan = signals });
}

abbrev pub with_server : FmtpGrpcServerImpl → ChiefWorker → ChiefWorker
with_server server w = record w {
  oldi_grpc_cntrl = record w.oldi_grpc_cntrl { fmtp_server = server };
}

-- What a call of the provider hands over.
unfoldable pub hand_to_provider : FmtpGrpcServerImpl × List Msg → ChiefWorker → ChiefWorker
hand_to_provider (server, list) w = record (with_server server w) {
  departures = w.departures ++ map handed_over list;
}

-- What a sweep takes from the front of the queue.
unfoldable pub sweep_to : FmtpGrpcServerImpl → ChiefWorker → ChiefWorker
sweep_to server w =
    let queue = w.oldi_grpc_cntrl.fmtp_server.msg_to_fdps in
    record (with_server server w) {
      departures =
          w.departures ++ map swept_away (take (length queue - length server.msg_to_fdps) queue);
    }

module _ (as_time : Option ℕ → ℕ) (remove_binary : String → Bool)
    (copy_binary : ChannelSettings → Option String) where
  abbrev pub configure_channels : ℕ → List ChannelSettingsWithPort → ChiefWorker → ChiefWorker
  unfolding change_settings
  configure_channels now [] w = w
  configure_channels now (setts ∷ more) w = record w {
    channel_setts_chan = more;
    channel_cntrl = change_settings remove_binary copy_binary now setts w.channel_cntrl;
  }

  unfoldable pub chief_step : ChiefEvent → ChiefWorker → ChiefWorker
  unfolding pass_settings pass_from_provider pass_to_cntrl receive_ws process_first configure_grpc
      take_packet pass_from_fdps serve_reported sweep_to hand_to_provider send_msg recv_msq
      clean_old_msg configure_channels
  chief_step (configured cfg) w = record w {
    chief_cfg = cfg;
    chief_sett_changed = suc w.chief_sett_changed;
  }
  chief_step settings_passed w = pass_settings w
  chief_step from_fdps_passed w = pass_from_provider w
  chief_step to_fdps_passed w = pass_to_cntrl w
  chief_step (channels_configured now) w = configure_channels now w.channel_setts_chan w
  chief_step (ws_received now msg sock) w = record w {
    channel_cntrl = receive_ws w.channel_cntrl now msg sock;
  }
  chief_step packet_processed w = process_first w.from_fdps_packet_chan w
  chief_step grpc_configured w = configure_grpc w.oldi_grpc_cntrl.setts_changed_chan w
  chief_step packet_taken w = record w { oldi_grpc_cntrl = take_packet w.oldi_grpc_cntrl }
  chief_step msg_passed_on w = record w { oldi_grpc_cntrl = pass_from_fdps w.oldi_grpc_cntrl }
  chief_step (grpc_served serves) w = record w {
    oldi_grpc_cntrl = serve_reported serves w.oldi_grpc_cntrl;
  }
  chief_step (swept now) w = sweep_to (clean_old_msg as_time w.oldi_grpc_cntrl.fmtp_server now) w
  chief_step (msgs_sent host now list) w =
      with_server (send_msg w.chief_cfg host now list w.oldi_grpc_cntrl.fmtp_server).0 w
  chief_step (msgs_asked host now) w =
      hand_to_provider (recv_msq host now w.oldi_grpc_cntrl.fmtp_server) w

  -- From the first event to the last.
  unfoldable pub chief_run : List ChiefEvent → ChiefWorker → ChiefWorker
  unfolding chief_step
  chief_run [] w = w
  chief_run (event ∷ events) w = chief_run events (chief_step event w)
