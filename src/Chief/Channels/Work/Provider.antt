-- ===== src/Chief/Channels/Work/Provider.antt =====
-- What becomes of a channel's messages in the provider's queue.
use fmtp.Prelude.{
  ℕ, ◌<◌, ◌≡◌, refl, Option, none, some, List, [], ◌∷◌, ◌++◌, foldl, All, Bool-cases, inl, inr,
  ◌==◌, string_eq,
}
use fmtp.Channel.Settings.{ChannelSettings}
use fmtp.Chief.Settings.{oldi_provider}
use fmtp.Chief.Message.{Msg}
use fmtp.Chief.Provider.{
  FmtpGrpcServerImpl, msg_valid_dur, new_fmtp_grpc_server_impl, append_msg, clean_old_msg,
}
use fmtp.Chief.Provider.Queue.{clean_old_msg-Unstamped}
use fmtp.Chief.Protocol.{
  ChannelMsg, settings_request, channel_heartbeat, channel_log, channel_message, unreadable,
  DataMsg,
}
use fmtp.Chief.Channels.{ChiefChannelServer, find_id}
use fmtp.Chief.Channels.Work.{
  receive_ws, answer_settings, note_heartbeat, take_channel_message, from_known,
}

-- A message from a channel, the time of its arrival and its connection.
abbrev pub Arrival : Type 0
Arrival = ℕ × (ChannelMsg × ℕ)

abbrev pub receive_arrival : ChiefChannelServer → Arrival → ChiefChannelServer
unfolding receive_ws
receive_arrival cc (now, (msg, sock)) = receive_ws cc now msg sock

abbrev AllUnstamped : List Msg → Type 0
AllUnstamped list = All (λ (val : Msg). val.rrtime ≡ none) list

snoc-AllUnstamped :
    (list : List Msg) (val : Msg)
    → AllUnstamped list
    → val.rrtime ≡ none
    → AllUnstamped (list ++ val ∷ [])
snoc-AllUnstamped [] val h e = (e, tt)
snoc-AllUnstamped (x ∷ xs) val (hx, h) e = (hx, snoc-AllUnstamped xs val h e)

from_known-AllUnstamped :
    (cc : ChiefChannelServer) (setts : Option ChannelSettings) (data_msg : DataMsg)
    → AllUnstamped cc.to_fdps_packet_chan
    → AllUnstamped (from_known cc setts data_msg.fmtp_message.text).to_fdps_packet_chan
from_known-AllUnstamped cc none data_msg h = h
from_known-AllUnstamped cc (some setts) data_msg h =
    elim (Bool-cases (setts.data_type == oldi_provider)) [
      | inl oldi ↦ rw oldi (snoc-AllUnstamped cc.to_fdps_packet_chan _ h refl)
      | inr other ↦ rw other h
    ]

arrival-AllUnstamped :
    (cc : ChiefChannelServer) (arrival : Arrival)
    → AllUnstamped cc.to_fdps_packet_chan
    → AllUnstamped (receive_arrival cc arrival).to_fdps_packet_chan
unfolding receive_arrival receive_ws take_channel_message answer_settings note_heartbeat
arrival-AllUnstamped cc (now, (settings_request id, sock)) h = h
arrival-AllUnstamped cc (now, (channel_heartbeat state, sock)) h = h
arrival-AllUnstamped cc (now, (channel_log entry, sock)) h = h
arrival-AllUnstamped cc (now, (channel_message data_msg, sock)) h =
    from_known-AllUnstamped cc (find_id data_msg.channel_id cc.channel_setts.ch_settings) data_msg h
arrival-AllUnstamped cc (now, (unreadable, sock)) h = h

arrivals-AllUnstamped :
    (cc : ChiefChannelServer) (arrivals : List Arrival)
    → AllUnstamped cc.to_fdps_packet_chan
    → AllUnstamped (foldl receive_arrival cc arrivals).to_fdps_packet_chan
arrivals-AllUnstamped cc [] h = h
arrivals-AllUnstamped cc (a ∷ as') h =
    arrivals-AllUnstamped (receive_arrival cc a) as' (arrival-AllUnstamped cc a h)

appended-AllUnstamped :
    (s : FmtpGrpcServerImpl) (list : List Msg)
    → AllUnstamped s.msg_to_fdps
    → AllUnstamped list
    → AllUnstamped (foldl append_msg s list).msg_to_fdps
unfolding append_msg
appended-AllUnstamped s [] h g = h
appended-AllUnstamped s (val ∷ vals) h (e, g) =
    appended-AllUnstamped (append_msg s val) vals (snoc-AllUnstamped s.msg_to_fdps val h e) g

-- Where an absent time stamp counts as 1970: whatever messages channels send to a chief, once they
-- stand in the provider's queue, a sweep later than thirty seconds after 1970 empties the queue.
pub clean_old_msg-arrivals :
    (as_time : Option ℕ → ℕ) (now : ℕ) (cc : ChiefChannelServer) (arrivals : List Arrival)
    → as_time none ≡ 0
    → msg_valid_dur < now
    → cc.to_fdps_packet_chan ≡ []
    → (clean_old_msg as_time
        (foldl append_msg new_fmtp_grpc_server_impl
          (foldl receive_arrival cc arrivals).to_fdps_packet_chan)
        now).msg_to_fdps
      ≡ []
unfolding new_fmtp_grpc_server_impl
clean_old_msg-arrivals as_time now cc arrivals epoch late empty =
    clean_old_msg-Unstamped as_time now _ epoch late (
      appended-AllUnstamped new_fmtp_grpc_server_impl
        (foldl receive_arrival cc arrivals).to_fdps_packet_chan tt
        (arrivals-AllUnstamped cc arrivals (rw empty tt)))
