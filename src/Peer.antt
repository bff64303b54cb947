-- ===== src/Peer.antt =====
-- core/src/peer.rs: the coordination loop of a peer. (core/src/peer_generic.rs repeats it over other
-- streams.) One message or one command is one step; channels are the effects that a step sends.
pub mod Disk
pub mod Accept
pub mod Coordinator
pub mod Signals
pub mod Sending
pub mod Receiving
pub mod Transfer
mod Tests
