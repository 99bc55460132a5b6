-- ===== src/Chief/State/Common.antt =====
-- When the chief reports that all is well.
use fmtp.Prelude.{
  ◌≡◌, ◌≢◌, refl, ◌↔◌, String, List, [], ◌∷◌, ◌==◌, string_eq, All, arith, Bool-cases, inl, inr,
}
use fmtp.Channel.State.{ChannelState, channel_state_ok}
use fmtp.Chief.State.{
  ChiefState, ProviderState, state_ok, worst_provider, worst_channel, check_common_state,
  set_channels_state,
}

error_ne_ok : ◌≢◌ {A = String} "error" "ok"
error_ne_ok = ground (arith, string_eq.beq_iff "error" "ok")

worst_provider-All :
    (providers : List ProviderState)
    → (worst_provider providers ≡ state_ok)
      ↔ All (λ (it : ProviderState). it.provider_state ≡ state_ok) providers
worst_provider-All [] = (λ e. tt, λ h. refl)
worst_provider-All (it ∷ rest) = elim (Bool-cases (it.provider_state == state_ok)) [
  | inl ok ↦ rw ok (
    λ e. ((string_eq.beq_iff it.provider_state state_ok).0 ok, (worst_provider-All rest).0 e),
    λ h. (worst_provider-All rest).1 h.1,
  )
  | inr bad ↦ rw bad (
    λ e. absurd (error_ne_ok e),
    λ h. absurd (ground (arith, string_eq.beq_iff it.provider_state state_ok, h.0, bad)),
  )
]

worst_channel-All :
    (channels : List ChannelState) (providers : List ProviderState)
    → (worst_channel channels providers ≡ state_ok) ↔ (
        All (λ (it : ChannelState). it.daemon_state ≡ channel_state_ok) channels
        × All (λ (it : ProviderState). it.provider_state ≡ state_ok) providers)
worst_channel-All [] providers =
    (λ e. (tt, (worst_provider-All providers).0 e), λ h. (worst_provider-All providers).1 h.1)
worst_channel-All (it ∷ rest) providers =
    let later = worst_channel-All rest providers in
    elim (Bool-cases (it.daemon_state == channel_state_ok)) [
      | inl ok ↦ rw ok (
        λ e. (
          ((string_eq.beq_iff it.daemon_state channel_state_ok).0 ok, (later.0 e).0),
          (later.0 e).1,
        ),
        λ h. later.1 (h.0.1, h.1),
      )
      | inr bad ↦ rw bad (
        λ e. absurd (error_ne_ok e),
        λ h.
            absurd (ground (arith, string_eq.beq_iff it.daemon_state channel_state_ok, h.0.0, bad)),
      )
    ]

-- After the channels have reported, the common state is good exactly when every channel and every
-- provider is.
set_channels_state-All :
    (s : ChiefState) (channels : List ChannelState)
    → ((set_channels_state s channels).common_state ≡ state_ok) ↔ (
        All (λ (it : ChannelState). it.daemon_state ≡ channel_state_ok) channels
        × All (λ (it : ProviderState). it.provider_state ≡ state_ok) s.provider_states)
unfolding set_channels_state check_common_state
set_channels_state-All s channels = worst_channel-All channels s.provider_states
