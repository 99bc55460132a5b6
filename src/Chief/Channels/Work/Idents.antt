-- ===== src/Chief/Channels/Work/Idents.antt =====
-- The identifiers of the messages for the provider.
use fmtp.Prelude.{
  ℕ, ◌+◌, ◌≤◌, ◌≡◌, false, Option, none, some, ◌==◌, string_eq, arith, ltb, Bool-cases, inl, inr,
}
use fmtp.Channel.Settings.{ChannelSettings}
use fmtp.Chief.Settings.{oldi_provider}
use fmtp.Chief.Protocol.{
  ChannelMsg, settings_request, channel_heartbeat, channel_log, channel_message, unreadable,
  DataMsg,
}
use fmtp.Chief.Channels.{ChiefChannelServer, find_id}
use fmtp.Chief.Channels.Work.{
  receive_ws, answer_settings, note_heartbeat, take_channel_message, from_known, next_ident,
}

abbrev IsIdent : ℕ → Type 0
IsIdent ident = (1 ≤ ident) × (ident ≤ 1000)

next_ident-IsIdent : (ident : ℕ) → IsIdent ident → IsIdent (next_ident ident)
next_ident-IsIdent ident (low, high) = elim (Bool-cases (ltb 1000 (ident + 1))) [
  | inl over ↦ rw over (omega arith, omega arith)
  | inr within ↦ rw within (omega arith, below ident within)
]
  where
    below : (ident : ℕ) → ltb 1000 (ident + 1) ≡ false → ident + 1 ≤ 1000
    below ident h = ground arith

from_known-IsIdent :
    (cc : ChiefChannelServer) (setts : Option ChannelSettings) (data_msg : DataMsg)
    → IsIdent cc.oldi_ident
    → IsIdent (from_known cc setts data_msg.fmtp_message.text).oldi_ident
from_known-IsIdent cc none data_msg h = h
from_known-IsIdent cc (some setts) data_msg h =
    elim (Bool-cases (setts.data_type == oldi_provider)) [
      | inl oldi ↦ rw oldi (next_ident-IsIdent cc.oldi_ident h)
      | inr other ↦ rw other h
    ]

-- Where the next identifier is between 1 and 1000, it is so again after whatever a channel sends.
receive_ws-IsIdent :
    (cc : ChiefChannelServer) (now : ℕ) (msg : ChannelMsg) (sock : ℕ)
    → IsIdent cc.oldi_ident
    → IsIdent (receive_ws cc now msg sock).oldi_ident
unfolding receive_ws take_channel_message answer_settings note_heartbeat
receive_ws-IsIdent cc now (settings_request id) sock h = h
receive_ws-IsIdent cc now (channel_heartbeat state) sock h = h
receive_ws-IsIdent cc now (channel_log entry) sock h = h
receive_ws-IsIdent cc now (channel_message data_msg) sock h =
    from_known-IsIdent cc (find_id data_msg.channel_id cc.channel_setts.ch_settings) data_msg h
receive_ws-IsIdent cc now unreadable sock h = h
