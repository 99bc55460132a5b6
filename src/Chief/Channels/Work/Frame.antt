-- ===== src/Chief/Channels/Work/Frame.antt =====
-- What the handling of the provider's packets and of new settings leaves alone.
use fmtp.Prelude.{
  ℕ, ◌≡◌, refl, ◌∙◌, String, Bool, int_eq, not, ◌&&◌, Option, none, some, List, [], ◌∷◌, ◌==◌,
  string_eq, ℤ, ap-if, lookup, delete,
}
use fmtp.Protocol.State
use fmtp.Protocol.State.{data_ready}
use fmtp.Channel.Settings.{ChannelSettings, ChannelSettingsWithPort}
use fmtp.Chief.Message.{Msg, MsgWithChanId}
use fmtp.Chief.Channels.{
  ChiefChannelServer, ChannelStateTime, change_settings, stop_channels_by_ids, stop_loaded,
}
use fmtp.Chief.Channels.Work.{process_oldi_packet, send_to_client, send_to_ready}

abbrev to_fdps : ChiefChannelServer → List Msg
to_fdps cc = cc.to_fdps_packet_chan

send_to_ready-to_fdps :
    (cc : ChiefChannelServer) (m : MsgWithChanId) (sock : ℕ) (known : Option ChannelStateTime)
    → (send_to_ready cc m sock known).to_fdps_packet_chan ≡ cc.to_fdps_packet_chan
unfolding send_to_ready
send_to_ready-to_fdps cc m sock none = refl
send_to_ready-to_fdps cc m sock (some known) =
    ap-if to_fdps (known.channel_state.fmtp_state == State.to_string data_ready) _ cc refl

send_to_client-to_fdps :
    (cc : ChiefChannelServer) (m : MsgWithChanId) (sock : Option ℕ)
    → (send_to_client cc m sock).to_fdps_packet_chan ≡ cc.to_fdps_packet_chan
unfolding send_to_client
send_to_client-to_fdps cc m none = refl
send_to_client-to_fdps cc m (some sock) = send_to_ready-to_fdps cc m sock _

pub process_oldi_packet-to_fdps :
    (cc : ChiefChannelServer) (m : MsgWithChanId)
    → (process_oldi_packet cc m).to_fdps_packet_chan ≡ cc.to_fdps_packet_chan
unfolding process_oldi_packet
process_oldi_packet-to_fdps cc m = send_to_client-to_fdps cc m _

module _ (remove_binary : String → Bool) (copy_binary : ChannelSettings → Option String) where
  stop_loaded-to_fdps :
      (id : ℤ) (file : Option String) (cc : ChiefChannelServer)
      → (stop_loaded remove_binary copy_binary id file cc).to_fdps_packet_chan
        ≡ cc.to_fdps_packet_chan
  unfolding stop_loaded
  stop_loaded-to_fdps id none cc = refl
  stop_loaded-to_fdps id (some path) cc =
      ap-if to_fdps (not cc.with_docker && not (remove_binary path)) cc
        (record cc { channel_bin_map = delete id cc.channel_bin_map }) refl

  stop_channels_by_ids-to_fdps :
      (ids : List ℤ) (cc : ChiefChannelServer)
      → (stop_channels_by_ids remove_binary copy_binary ids cc).to_fdps_packet_chan
        ≡ cc.to_fdps_packet_chan
  unfolding stop_channels_by_ids
  stop_channels_by_ids-to_fdps [] cc = refl
  stop_channels_by_ids-to_fdps (id ∷ ids) cc =
      stop_channels_by_ids-to_fdps ids _ ∙ stop_loaded-to_fdps id (lookup id cc.channel_bin_map) cc

  pub change_settings-to_fdps :
      (now : ℕ) (setts : ChannelSettingsWithPort) (cc : ChiefChannelServer)
      → (change_settings remove_binary copy_binary now setts cc).to_fdps_packet_chan
        ≡ cc.to_fdps_packet_chan
  unfolding change_settings
  change_settings-to_fdps now setts cc = stop_channels_by_ids-to_fdps _ _
