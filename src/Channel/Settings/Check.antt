-- ===== src/Channel/Settings/Check.antt =====
-- Which settings `CheckSettings` accepts.
use fmtp.Prelude.{
  String, ◌≡◌, ◌≢◌, ◌↔◌, ◌⊎◌, true, none, [], arith, string_eq, bytes_eq, ℤ, pos, ltb_ℤ,
}
use fmtp.Channel.Settings.{ChannelSettings, tcp_server_text, tcp_client_text, check_settings}

abbrev pub IsPort : ℤ → Type 0
IsPort p = (ltb_ℤ (pos 2000) p ≡ true) × (ltb_ℤ p (pos 65535) ≡ true)

-- What a channel needs to work. A server listens on its port; a client knows its peer's.
pub record IsComplete (s : ChannelSettings) : Type 0 where
  pub typed : s.data_type ≢ ""
  pub local_named : s.local_name ≢ []
  pub local_located : s.local_atc ≢ []
  pub remote_named : s.remote_name ≢ []
  pub remote_located : s.remote_atc ≢ []
  pub intervals : ltb_ℤ s.interval_ts s.interval_tr ≡ true
  pub encoded : s.data_encoding ≢ ""
  pub role :
      ((s.net_role ≡ tcp_server_text) × IsPort s.local_port)
      ⊎ ((s.net_role ≡ tcp_client_text) × (s.remote_address ≢ "") × IsPort s.remote_port)

client-ne-server : ◌≢◌ {A = String} "client" "server"
client-ne-server = ground (arith, string_eq.beq_iff "client" "server")

-- The settings are accepted exactly when they are complete.
pub check_settings-IsComplete : (s : ChannelSettings) → ((check_settings s).1 ≡ none) ↔ IsComplete s
unfolding check_settings
check_settings-IsComplete s = (
  λ h. ground (
    arith,
    string_eq.beq_iff s.data_type "",
    string_eq.beq_iff s.net_role "server",
    string_eq.beq_iff s.net_role "client",
    bytes_eq.beq_iff s.local_name [],
    bytes_eq.beq_iff s.local_atc [],
    bytes_eq.beq_iff s.remote_name [],
    bytes_eq.beq_iff s.remote_atc [],
    string_eq.beq_iff s.remote_address "",
    string_eq.beq_iff s.data_encoding "",
  ),
  λ h. ground (
    arith,
    string_eq.beq_iff s.data_type "",
    string_eq.beq_iff s.net_role "server",
    string_eq.beq_iff s.net_role "client",
    bytes_eq.beq_iff s.local_name [],
    bytes_eq.beq_iff s.local_atc [],
    bytes_eq.beq_iff s.remote_name [],
    bytes_eq.beq_iff s.remote_atc [],
    string_eq.beq_iff s.remote_address "",
    string_eq.beq_iff s.data_encoding "",
    client-ne-server,
  ),
)
