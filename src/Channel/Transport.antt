-- ===== src/Channel/Transport.antt =====
-- channel/tcp_transport: the TCP connection of a channel, as a client and as a server.
pub mod Settings
pub mod Wire
pub mod Client
pub mod Loops
pub mod Server
