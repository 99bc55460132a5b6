-- ===== src/Chief.antt =====
-- The chief: it runs the channels and passes messages between them and the flight data provider.
pub mod Settings
pub mod State
pub mod Message
pub mod Metrics
pub mod Provider
pub mod Protocol
pub mod Channels
pub mod Configurator
pub mod Grpc
pub mod Worker
pub mod Logger
pub mod Tcp
pub mod Journal
