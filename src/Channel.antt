-- ===== src/Channel.antt =====
-- The process of one channel: settings, log entries, timers and the controller of its states.
pub mod Settings
pub mod State
pub mod Log
pub mod Timer
pub mod Core
pub mod Transitions
pub mod Controller
pub mod Transport
pub mod ChiefClient
pub mod Program
