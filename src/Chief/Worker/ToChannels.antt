-- ===== src/Chief/Worker/ToChannels.antt =====
-- The way of a provider's message to a channel: over the provider's server, its controller and the
-- worker to `ProcessOldiPacket`.
use fmtp.Prelude.{
  ℕ, zero, suc, ◌≡◌, refl, sym, ap, ◌∙◌, ap-if, not, ◌==◌, int_eq, negsuc, Bool, String, Option,
  none, some, List, [], ◌∷◌, ◌++◌,
}
use mathlib.Core.List.{append-nil, append_assoc}
use fmtp.Channel.Settings.{ChannelSettings, ChannelSettingsWithPort}
use fmtp.Chief.Settings.{ChiefSettings}
use fmtp.Chief.Message.{Msg, MsgWithChanId}
use fmtp.Chief.Provider.{
  FmtpGrpcServerImpl, deliver, send_msg, recv_msq, clean_old_msg, append_msg, last_old,
}
use fmtp.Chief.Grpc.{
  change_address-kept, serve_reported, take_packet, append_first, pass_from_fdps, pass_first,
}
use fmtp.Chief.Worker.{
  ChiefWorker, ChiefEvent, configured, settings_passed, from_fdps_passed, to_fdps_passed,
  channels_configured, ws_received, packet_processed, grpc_configured, packet_taken, msg_passed_on,
  grpc_served, swept, msgs_sent, msgs_asked, signal_settings, pass_settings, first_from_fdps,
  pass_from_provider, first_to_fdps, pass_to_cntrl, process_first, configure_grpc, hand_to_provider,
  sweep_to, configure_channels, chief_step, chief_run,
}

-- All that has come from the provider for a channel, oldest first.
abbrev pub outward : ChiefWorker → List MsgWithChanId
outward w =
    w.processed
    ++ (w.from_fdps_packet_chan
        ++ (w.oldi_grpc_cntrl.from_fdps_chan ++ w.oldi_grpc_cntrl.fmtp_server.from_fdps_chan))

abbrev after_server : ChiefWorker → List MsgWithChanId → List MsgWithChanId
after_server w list =
    w.processed ++ (w.from_fdps_packet_chan ++ (w.oldi_grpc_cntrl.from_fdps_chan ++ list))

-- What an event adds: the messages that have a channel by the settings of that moment.
abbrev pub routed_by : ChiefEvent → ChiefSettings → List MsgWithChanId
routed_by (msgs_sent host now list) cfg = (deliver cfg list).0
routed_by _ cfg = []

untouched : (w : ChiefWorker) → outward w ≡ outward w ++ []
untouched w = sym (append-nil (outward w))

-- The first of one list goes to the end of the one before it.
advance :
    (before after : List MsgWithChanId) (msg : MsgWithChanId) (msgs list : List MsgWithChanId)
    → list ≡ msg ∷ msgs
    → (before ++ msg ∷ []) ++ (msgs ++ after) ≡ before ++ (list ++ after)
advance before after msg msgs list e = rw e (append_assoc before (msg ∷ []) (msgs ++ after))

process_first-outward :
    (list : List MsgWithChanId) (w : ChiefWorker)
    → w.from_fdps_packet_chan ≡ list
    → outward (process_first list w) ≡ outward w
unfolding process_first
process_first-outward [] w e = refl
process_first-outward (msg ∷ msgs) w e =
    advance w.processed
      (w.oldi_grpc_cntrl.from_fdps_chan ++ w.oldi_grpc_cntrl.fmtp_server.from_fdps_chan) msg msgs _
      e

first_from_fdps-outward :
    (list : List MsgWithChanId) (w : ChiefWorker)
    → w.oldi_grpc_cntrl.from_fdps_chan ≡ list
    → outward (first_from_fdps list w) ≡ outward w
first_from_fdps-outward [] w e = refl
first_from_fdps-outward (msg ∷ msgs) w e =
    ap (λ list. w.processed ++ list)
      (advance w.from_fdps_packet_chan w.oldi_grpc_cntrl.fmtp_server.from_fdps_chan msg msgs _ e)

pass_first-outward :
    (list : List MsgWithChanId) (w : ChiefWorker)
    → w.oldi_grpc_cntrl.fmtp_server.from_fdps_chan ≡ list
    → outward (record w { oldi_grpc_cntrl = pass_first list w.oldi_grpc_cntrl }) ≡ outward w
pass_first-outward [] w e = refl
pass_first-outward (msg ∷ msgs) w e =
    ap (λ list. w.processed ++ (w.from_fdps_packet_chan ++ list))
      (rw e (append_assoc w.oldi_grpc_cntrl.from_fdps_chan (msg ∷ []) msgs))

first_to_fdps-outward :
    (list : List Msg) (w : ChiefWorker) → outward (first_to_fdps list w) ≡ outward w
first_to_fdps-outward [] w = refl
first_to_fdps-outward (msg ∷ msgs) w = refl

append_first-outward :
    (list : List Msg) (w : ChiefWorker)
    → outward (record w { oldi_grpc_cntrl = append_first list w.oldi_grpc_cntrl }) ≡ outward w
unfolding append_msg
append_first-outward [] w = refl
append_first-outward (msg ∷ msgs) w = refl

signal_settings-outward :
    (signals : ℕ) (w : ChiefWorker) → outward (signal_settings signals w) ≡ outward w
signal_settings-outward zero w = refl
signal_settings-outward (suc signals) w = refl

configure_grpc-outward :
    (signals : ℕ) (w : ChiefWorker) → outward (configure_grpc signals w) ≡ outward w
unfolding configure_grpc
configure_grpc-outward zero w = refl
configure_grpc-outward (suc signals) w =
    change_address-kept (λ c. outward (record w { oldi_grpc_cntrl = c }))
      (λ c address ports count. refl) w.chief_cfg.oldi_provider_port
      (record w.oldi_grpc_cntrl { setts_changed_chan = signals })

send_msg-from_fdps :
    (cfg : ChiefSettings) (host : Option String) (now : ℕ) (list : List Msg)
    (s : FmtpGrpcServerImpl)
    → (send_msg cfg host now list s).0.from_fdps_chan ≡ s.from_fdps_chan ++ (deliver cfg list).0
unfolding send_msg
send_msg-from_fdps cfg none now list s = refl
send_msg-from_fdps cfg (some host) now list s = refl

recv_msq-from_fdps :
    (host : Option String) (now : ℕ) (s : FmtpGrpcServerImpl)
    → (recv_msq host now s).0.from_fdps_chan ≡ s.from_fdps_chan
unfolding recv_msq
recv_msq-from_fdps none now s = refl
recv_msq-from_fdps (some host) now s = refl

clean_old_msg-from_fdps :
    (as_time : Option ℕ → ℕ) (s : FmtpGrpcServerImpl) (now : ℕ)
    → (clean_old_msg as_time s now).from_fdps_chan ≡ s.from_fdps_chan
unfolding clean_old_msg
clean_old_msg-from_fdps as_time s now =
    ap-if (λ (r : FmtpGrpcServerImpl). r.from_fdps_chan)
      (not (last_old as_time now 0 (negsuc 0) s.msg_to_fdps == negsuc 0)) _ s refl

module _ (as_time : Option ℕ → ℕ) (remove_binary : String → Bool)
    (copy_binary : ChannelSettings → Option String) where
  configure_channels-outward :
      (now : ℕ) (list : List ChannelSettingsWithPort) (w : ChiefWorker)
      → outward (configure_channels as_time remove_binary copy_binary now list w) ≡ outward w
  unfolding configure_channels
  configure_channels-outward now [] w = refl
  configure_channels-outward now (setts ∷ more) w = refl

  chief_step-outward :
      (event : ChiefEvent) (w : ChiefWorker)
      → outward (chief_step as_time remove_binary copy_binary event w)
        ≡ outward w ++ routed_by event w.chief_cfg
  unfolding chief_step
  chief_step-outward (configured cfg) w = untouched w
  chief_step-outward settings_passed w =
      unfold pass_settings in signal_settings-outward _ w ∙ untouched w
  chief_step-outward from_fdps_passed w =
      unfold pass_from_provider in first_from_fdps-outward _ w refl ∙ untouched w
  chief_step-outward to_fdps_passed w =
      unfold pass_to_cntrl in first_to_fdps-outward _ w ∙ untouched w
  chief_step-outward (channels_configured now) w = configure_channels-outward now _ w ∙ untouched w
  chief_step-outward (ws_received now msg sock) w = untouched w
  chief_step-outward packet_processed w = process_first-outward _ w refl ∙ untouched w
  chief_step-outward grpc_configured w = configure_grpc-outward _ w ∙ untouched w
  chief_step-outward packet_taken w = unfold take_packet in append_first-outward _ w ∙ untouched w
  chief_step-outward msg_passed_on w =
      unfold pass_from_fdps in pass_first-outward _ w refl ∙ untouched w
  chief_step-outward (grpc_served serves) w = unfold serve_reported in untouched w
  chief_step-outward (swept now) w =
      unfold sweep_to in
      ap (after_server w) (clean_old_msg-from_fdps as_time w.oldi_grpc_cntrl.fmtp_server now)
      ∙ untouched w
  chief_step-outward (msgs_sent host now list) w =
      ap (after_server w)
        (send_msg-from_fdps w.chief_cfg host now list w.oldi_grpc_cntrl.fmtp_server)
      ∙ simp append_assoc
  chief_step-outward (msgs_asked host now) w =
      unfold hand_to_provider in
      ap (after_server w) (recv_msq-from_fdps host now w.oldi_grpc_cntrl.fmtp_server) ∙ untouched w

  -- What events add, with the settings as they are at each.
  abbrev pub routed_in : List ChiefEvent → ChiefWorker → List MsgWithChanId
  unfolding chief_step
  routed_in [] w = []
  routed_in (event ∷ events) w =
      routed_by event w.chief_cfg
      ++ routed_in events (chief_step as_time remove_binary copy_binary event w)

  -- Whatever happens to the chief: the messages that `ProcessOldiPacket` has been given and those on
  -- the way to it are together, each once and in order, those of before and the provider's messages
  -- that had a channel by the settings at their arrival.
  pub chief_run-outward :
      (events : List ChiefEvent) (w : ChiefWorker)
      → outward (chief_run as_time remove_binary copy_binary events w)
        ≡ outward w ++ routed_in events w
  unfolding chief_run
  chief_run-outward [] w = untouched w
  chief_run-outward (event ∷ events) w =
      chief_run-outward events (chief_step as_time remove_binary copy_binary event w)
      ∙ ap (λ list. list ++ routed_in events (chief_step as_time remove_binary copy_binary event w))
          (chief_step-outward event w)
      ∙ append_assoc (outward w) _ _
