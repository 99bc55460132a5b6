-- ===== src/Channel/Transport/Settings.antt =====
-- The settings in channel/tcp_transport/tcp_transport_interface.go.
use fmtp.Prelude.{Bool, ◌&&◌, Bytes, bytes_eq, int_eq, ◌==◌, ℤ, pos, []}

pub record TcpTransportSettings : Type 0 where
  pub server_addr : Bytes
  pub server_port : ℤ
  pub client_addr : Bytes
  pub local_port : ℤ

abbrev pub no_settings : TcpTransportSettings
no_settings = record { server_addr = []; server_port = pos 0; client_addr = []; local_port = pos 0 }

-- Go's `==` at the settings.
abbrev pub same_settings : TcpTransportSettings → TcpTransportSettings → Bool
same_settings a b =
    a.server_addr == b.server_addr
    && a.server_port == b.server_port
    && a.client_addr == b.client_addr
    && a.local_port == b.local_port
