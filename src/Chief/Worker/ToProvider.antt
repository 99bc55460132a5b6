-- ===== src/Chief/Worker/ToProvider.antt =====
-- The way of a channel's message to the provider: over the worker and the controller of the provider
-- into the queue, and out of it.
use fmtp.Prelude.{
  ℕ, zero, suc, ◌-◌, ◌≡◌, refl, sym, ap, ◌∙◌, String, Bool, Bool-cases, inl, inr, Option, none,
  some, List, [], ◌∷◌, ◌++◌, map, ◌==◌, if◌then◌else◌, string_eq, Bytes, length, take,
  take-append-drop, take-append_length, length-append, subst, arith,
}
use mathlib.Core.Path.{ap₂}
use mathlib.Core.List.{append-nil, append_assoc, map-append}
use fmtp.Channel.Settings.{ChannelSettings, ChannelSettingsWithPort}
use fmtp.Chief.Settings.{ChiefSettings, oldi_provider}
use fmtp.Chief.Message.{Msg, MsgWithChanId}
use fmtp.Chief.Provider.{FmtpGrpcServerImpl, send_msg, recv_msq, clean_old_msg, append_msg}
use fmtp.Chief.Provider.Queue.{
  recv_msq-msg_to_fdps, clean_old_msg-drop_old, drop-old_count, old_count,
}
use fmtp.Chief.Grpc.{
  change_address-kept, serve_reported, take_packet, append_first, pass_from_fdps, pass_first,
}
use fmtp.Chief.Protocol.{
  ChannelMsg, settings_request, channel_heartbeat, channel_log, channel_message, unreadable,
}
use fmtp.Chief.Channels.{ChiefChannelServer, find_id}
use fmtp.Chief.Channels.Work.{
  receive_ws, answer_settings, note_heartbeat, take_channel_message, from_known, make_oldi_pkg,
}
use fmtp.Chief.Channels.Work.Frame.{process_oldi_packet-to_fdps, change_settings-to_fdps}
use fmtp.Chief.Worker.{
  ChiefWorker, ChiefEvent, configured, settings_passed, from_fdps_passed, to_fdps_passed,
  channels_configured, ws_received, packet_processed, grpc_configured, packet_taken, msg_passed_on,
  grpc_served, swept, msgs_sent, msgs_asked, Departure, handed_over, swept_away, departed,
  signal_settings, pass_settings, first_from_fdps, pass_from_provider, first_to_fdps, pass_to_cntrl,
  process_first, configure_grpc, hand_to_provider, sweep_to, configure_channels, chief_step,
  chief_run,
}

-- All that has come from the channels and still waits, or has left the queue, oldest first.
abbrev pub transit : ChiefWorker → List Msg
transit w =
    map departed w.departures
    ++ (w.oldi_grpc_cntrl.fmtp_server.msg_to_fdps
        ++ (w.oldi_grpc_cntrl.to_fdps_chan ++ w.channel_cntrl.to_fdps_packet_chan))

-- The same, by what waits in the channel from the channels.
abbrev after_chan : ChiefWorker → List Msg → List Msg
after_chan w list =
    map departed w.departures
    ++ (w.oldi_grpc_cntrl.fmtp_server.msg_to_fdps ++ (w.oldi_grpc_cntrl.to_fdps_chan ++ list))

-- A message of a channel, for which the chief has settings or not.
abbrev pub packet_of : ℕ → Option ChannelSettings → Bytes → List Msg
packet_of ident none text = []
packet_of ident (some setts) text =
    if setts.data_type == oldi_provider then make_oldi_pkg ident setts.remote_atc text ∷ [] else []

abbrev pub made_of : ChiefChannelServer → ChannelMsg → List Msg
made_of cc (channel_message data_msg) =
    packet_of cc.oldi_ident (find_id data_msg.channel_id cc.channel_setts.ch_settings)
      data_msg.fmtp_message.text
made_of cc _ = []

-- What an event adds at the beginning of the way.
abbrev pub made_by : ChiefEvent → ChiefChannelServer → List Msg
made_by (ws_received now msg sock) cc = made_of cc msg
made_by _ cc = []

from_known-packet_of :
    (cc : ChiefChannelServer) (setts : Option ChannelSettings) (text : Bytes)
    → (from_known cc setts text).to_fdps_packet_chan
      ≡ cc.to_fdps_packet_chan ++ packet_of cc.oldi_ident setts text
from_known-packet_of cc none text = sym (append-nil cc.to_fdps_packet_chan)
from_known-packet_of cc (some setts) text = elim (Bool-cases (setts.data_type == oldi_provider)) [
  | inl oldi ↦ rw oldi refl
  | inr other ↦ rw other (sym (append-nil cc.to_fdps_packet_chan))
]

receive_ws-made_of :
    (cc : ChiefChannelServer) (now : ℕ) (msg : ChannelMsg) (sock : ℕ)
    → (receive_ws cc now msg sock).to_fdps_packet_chan ≡ cc.to_fdps_packet_chan ++ made_of cc msg
unfolding receive_ws take_channel_message answer_settings note_heartbeat
receive_ws-made_of cc now (settings_request id) sock = sym (append-nil cc.to_fdps_packet_chan)
receive_ws-made_of cc now (channel_heartbeat state) sock = sym (append-nil cc.to_fdps_packet_chan)
receive_ws-made_of cc now (channel_log entry) sock = sym (append-nil cc.to_fdps_packet_chan)
receive_ws-made_of cc now (channel_message data_msg) sock =
    from_known-packet_of cc (find_id data_msg.channel_id cc.channel_setts.ch_settings)
      data_msg.fmtp_message.text
receive_ws-made_of cc now unreadable sock = sym (append-nil cc.to_fdps_packet_chan)

map-departed :
    (how : Msg → Departure) (same : (msg : Msg) → departed (how msg) ≡ msg) (list : List Msg)
    → map departed (map how list) ≡ list
map-departed how same [] = refl
map-departed how same (msg ∷ msgs) = ap₂ ◌∷◌ (same msg) (map-departed how same msgs)

-- The queue is split into what leaves it and what stays.
depart :
    (how : Msg → Departure) (same : (msg : Msg) → departed (how msg) ≡ msg)
    (before : List Departure) (gone rest queue after : List Msg)
    → gone ++ rest ≡ queue
    → map departed (before ++ map how gone) ++ (rest ++ after)
      ≡ map departed before ++ (queue ++ after)
depart how same before gone rest queue after e =
    simp (map-append, map-departed how same, append_assoc)
      (ap (λ list. map departed before ++ list)
        (sym (append_assoc gone rest after) ∙ ap (λ list. list ++ after) e))

-- The first of one list goes to the end of the one before it.
move :
    (before after : List Msg) (msg : Msg) (msgs list : List Msg)
    → list ≡ msg ∷ msgs
    → (before ++ msg ∷ []) ++ (msgs ++ after) ≡ before ++ (list ++ after)
move before after msg msgs list e = rw e (append_assoc before (msg ∷ []) (msgs ++ after))

unchanged : (w : ChiefWorker) → transit w ≡ transit w ++ []
unchanged w = sym (append-nil (transit w))

first_to_fdps-transit :
    (list : List Msg) (w : ChiefWorker)
    → w.channel_cntrl.to_fdps_packet_chan ≡ list
    → transit (first_to_fdps list w) ≡ transit w
first_to_fdps-transit [] w e = refl
first_to_fdps-transit (msg ∷ msgs) w e =
    ap (λ list. map departed w.departures ++ (w.oldi_grpc_cntrl.fmtp_server.msg_to_fdps ++ list))
      last
  where
    last :
        (w.oldi_grpc_cntrl.to_fdps_chan ++ msg ∷ []) ++ msgs
        ≡ w.oldi_grpc_cntrl.to_fdps_chan ++ w.channel_cntrl.to_fdps_packet_chan
    last = rw e (append_assoc w.oldi_grpc_cntrl.to_fdps_chan (msg ∷ []) msgs)

append_first-transit :
    (list : List Msg) (w : ChiefWorker)
    → w.oldi_grpc_cntrl.to_fdps_chan ≡ list
    → transit (record w { oldi_grpc_cntrl = append_first list w.oldi_grpc_cntrl }) ≡ transit w
unfolding append_msg
append_first-transit [] w e = refl
append_first-transit (msg ∷ msgs) w e =
    ap (λ list. map departed w.departures ++ list)
      (move w.oldi_grpc_cntrl.fmtp_server.msg_to_fdps w.channel_cntrl.to_fdps_packet_chan msg msgs
        w.oldi_grpc_cntrl.to_fdps_chan e)

pass_first-transit :
    (list : List MsgWithChanId) (w : ChiefWorker)
    → transit (record w { oldi_grpc_cntrl = pass_first list w.oldi_grpc_cntrl }) ≡ transit w
pass_first-transit [] w = refl
pass_first-transit (msg ∷ msgs) w = refl

first_from_fdps-transit :
    (list : List MsgWithChanId) (w : ChiefWorker) → transit (first_from_fdps list w) ≡ transit w
first_from_fdps-transit [] w = refl
first_from_fdps-transit (msg ∷ msgs) w = refl

signal_settings-transit :
    (signals : ℕ) (w : ChiefWorker) → transit (signal_settings signals w) ≡ transit w
signal_settings-transit zero w = refl
signal_settings-transit (suc signals) w = refl

process_first-transit :
    (list : List MsgWithChanId) (w : ChiefWorker) → transit (process_first list w) ≡ transit w
unfolding process_first
process_first-transit [] w = refl
process_first-transit (msg ∷ msgs) w =
    ap (after_chan w) (process_oldi_packet-to_fdps w.channel_cntrl msg)

send_msg-msg_to_fdps :
    (cfg : ChiefSettings) (host : Option String) (now : ℕ) (list : List Msg)
    (s : FmtpGrpcServerImpl)
    → (send_msg cfg host now list s).0.msg_to_fdps ≡ s.msg_to_fdps
unfolding send_msg
send_msg-msg_to_fdps cfg none now list s = refl
send_msg-msg_to_fdps cfg (some host) now list s = refl

configure_grpc-transit :
    (signals : ℕ) (w : ChiefWorker) → transit (configure_grpc signals w) ≡ transit w
unfolding configure_grpc
configure_grpc-transit zero w = refl
configure_grpc-transit (suc signals) w =
    change_address-kept (λ c. transit (record w { oldi_grpc_cntrl = c }))
      (λ c address ports count. refl) w.chief_cfg.oldi_provider_port
      (record w.oldi_grpc_cntrl { setts_changed_chan = signals })

-- The front of a list, by what follows it.
front :
    (gone rest : List Msg)
    → take (length (gone ++ rest) - length rest) (gone ++ rest) ++ rest ≡ gone ++ rest
front gone rest =
    let len : length (gone ++ rest) - length rest ≡ length gone =
      omega (arith, length-append gone rest) in
    rw len (ap (λ list. list ++ rest) (take-append_length gone rest))

module _ (as_time : Option ℕ → ℕ) (remove_binary : String → Bool)
    (copy_binary : ChannelSettings → Option String) where
  configure_channels-transit :
      (now : ℕ) (list : List ChannelSettingsWithPort) (w : ChiefWorker)
      → transit (configure_channels as_time remove_binary copy_binary now list w) ≡ transit w
  unfolding configure_channels
  configure_channels-transit now [] w = refl
  configure_channels-transit now (setts ∷ more) w =
      ap (after_chan w)
        (change_settings-to_fdps remove_binary copy_binary now setts w.channel_cntrl)

  sweep-transit :
      (now : ℕ) (w : ChiefWorker)
      → transit (sweep_to (clean_old_msg as_time w.oldi_grpc_cntrl.fmtp_server now) w) ≡ transit w
  unfolding sweep_to
  sweep-transit now w =
      depart swept_away (λ msg. refl) w.departures _ _ queue _
        (subst (λ list. take (length list - length rest) list ++ rest ≡ list) split
          (front (take (old_count as_time now queue) queue) rest))
    where
      queue : List Msg
      queue = w.oldi_grpc_cntrl.fmtp_server.msg_to_fdps

      rest : List Msg
      rest = (clean_old_msg as_time w.oldi_grpc_cntrl.fmtp_server now).msg_to_fdps

      split : take (old_count as_time now queue) queue ++ rest ≡ queue
      split =
          ap (λ list. take (old_count as_time now queue) queue ++ list)
            (clean_old_msg-drop_old as_time now w.oldi_grpc_cntrl.fmtp_server
              ∙ sym (drop-old_count as_time now queue))
          ∙ take-append-drop (old_count as_time now queue) queue

  asked-transit :
      (host : Option String) (now : ℕ) (w : ChiefWorker)
      → transit (hand_to_provider (recv_msq host now w.oldi_grpc_cntrl.fmtp_server) w) ≡ transit w
  unfolding hand_to_provider
  asked-transit host now w =
      depart handed_over (λ msg. refl) w.departures _ _ _ _
        (recv_msq-msg_to_fdps host now w.oldi_grpc_cntrl.fmtp_server).0

  chief_step-transit :
      (event : ChiefEvent) (w : ChiefWorker)
      → transit (chief_step as_time remove_binary copy_binary event w)
        ≡ transit w ++ made_by event w.channel_cntrl
  unfolding chief_step
  chief_step-transit (configured cfg) w = unchanged w
  chief_step-transit settings_passed w =
      unfold pass_settings in signal_settings-transit _ w ∙ unchanged w
  chief_step-transit from_fdps_passed w =
      unfold pass_from_provider in first_from_fdps-transit _ w ∙ unchanged w
  chief_step-transit to_fdps_passed w =
      unfold pass_to_cntrl in first_to_fdps-transit _ w refl ∙ unchanged w
  chief_step-transit (channels_configured now) w = configure_channels-transit now _ w ∙ unchanged w
  chief_step-transit (ws_received now msg sock) w =
      ap (after_chan w) (receive_ws-made_of w.channel_cntrl now msg sock) ∙ simp append_assoc
  chief_step-transit packet_processed w = process_first-transit _ w ∙ unchanged w
  chief_step-transit grpc_configured w = configure_grpc-transit _ w ∙ unchanged w
  chief_step-transit packet_taken w =
      unfold take_packet in append_first-transit _ w refl ∙ unchanged w
  chief_step-transit msg_passed_on w = unfold pass_from_fdps in pass_first-transit _ w ∙ unchanged w
  chief_step-transit (grpc_served serves) w = unfold serve_reported in unchanged w
  chief_step-transit (swept now) w = unfold sweep_to in sweep-transit now w ∙ unchanged w
  chief_step-transit (msgs_sent host now list) w =
      ap
        (λ queue.
          map departed w.departures
          ++ (queue ++ (w.oldi_grpc_cntrl.to_fdps_chan ++ w.channel_cntrl.to_fdps_packet_chan)))
        (send_msg-msg_to_fdps w.chief_cfg host now list w.oldi_grpc_cntrl.fmtp_server)
      ∙ unchanged w
  chief_step-transit (msgs_asked host now) w =
      unfold hand_to_provider in asked-transit host now w ∙ unchanged w

  -- What events add, with the chief as it is at each.
  abbrev pub made_in : List ChiefEvent → ChiefWorker → List Msg
  unfolding chief_step
  made_in [] w = []
  made_in (event ∷ events) w =
      made_by event w.channel_cntrl
      ++ made_in events (chief_step as_time remove_binary copy_binary event w)

  -- Whatever happens to the chief: the messages that have left the provider's queue, handed over or
  -- swept away, those in the queue, and those on the way to it are together, each once and in order,
  -- those of before and one for each message that came from a channel of OLDI in the settings.
  pub chief_run-transit :
      (events : List ChiefEvent) (w : ChiefWorker)
      → transit (chief_run as_time remove_binary copy_binary events w)
        ≡ transit w ++ made_in events w
  unfolding chief_run
  chief_run-transit [] w = unchanged w
  chief_run-transit (event ∷ events) w =
      chief_run-transit events (chief_step as_time remove_binary copy_binary event w)
      ∙ ap (λ list. list ++ made_in events (chief_step as_time remove_binary copy_binary event w))
          (chief_step-transit event w)
      ∙ append_assoc (transit w) _ _
