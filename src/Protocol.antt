-- ===== src/Protocol.antt =====
-- The package fmtp: states, events and messages of the protocol, the packets that carry messages,
-- and the table of the state machine.
pub mod State
pub mod Event
pub mod Message
pub mod Packet
pub mod Machine
pub mod Names
