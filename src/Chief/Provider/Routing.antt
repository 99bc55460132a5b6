-- ===== src/Chief/Provider/Routing.antt =====
-- Where the provider's messages go.
use fmtp.Prelude.{
  ◌+◌, ◌≡◌, refl, false, List, [], ◌∷◌, ◌==◌, int_eq, bytes_eq, ℤ, negsuc, length, Bool-cases, inl,
  inr, ◌⊎◌, arith, All, Bytes,
}
use fmtp.Channel.Settings.{ChannelSettings}
use fmtp.Chief.Settings.{ChiefSettings, first_with_atc, get_channel_id_by_cid}
use fmtp.Chief.Message.{Msg, MsgWithChanId}
use fmtp.Chief.Provider.{deliver}

-- Some channel of the settings has this id and this remote ATC.
abbrev pub IsRoute : List ChannelSettings → ℤ → Bytes → Type 0
IsRoute [] id cid = ⊥
IsRoute (c ∷ cs) id cid = ((c.id ≡ id) × (c.remote_atc ≡ cid)) ⊎ IsRoute cs id cid

first_with_atc-IsRoute :
    (cid : Bytes) (cs : List ChannelSettings)
    → (first_with_atc cid cs == negsuc 0) ≡ false
    → IsRoute cs (first_with_atc cid cs) cid
first_with_atc-IsRoute cid [] found = ground (arith, found)
first_with_atc-IsRoute cid (c ∷ cs) found = elim (Bool-cases (c.remote_atc == cid)) [
  | inl here ↦ inl (rw here refl, (bytes_eq.beq_iff c.remote_atc cid).0 here)
  | inr there ↦ rw there (inr (first_with_atc-IsRoute cid cs (rw there at found)))
]

abbrev pub Routed : ChiefSettings → MsgWithChanId → Type 0
Routed cfg m = IsRoute cfg.channel_setts m.chan_id m.pb_msg.cid

-- The messages that are passed on and those that are missed are all there are, and each passed one
-- goes to a channel whose remote ATC is its CID.
pub deliver-Routed :
    (cfg : ChiefSettings) (list : List Msg)
    → (length (deliver cfg list).0 + length (deliver cfg list).1 ≡ length list)
      × All (Routed cfg) (deliver cfg list).0
unfolding get_channel_id_by_cid
deliver-Routed cfg [] = (refl, tt)
deliver-Routed cfg (val ∷ vals) =
    let later = deliver-Routed cfg vals in
    elim (Bool-cases (first_with_atc val.cid cfg.channel_setts == negsuc 0)) [
      | inl absent ↦ rw absent (omega (arith, later.0), later.1)
      | inr found ↦ rw found (
        omega (arith, later.0),
        (first_with_atc-IsRoute val.cid cfg.channel_setts found, later.1),
      )
    ]
