-- ===== src/Relay.antt =====
-- transport: the relay of flows.
pub mod Addr
pub mod Tcp
pub mod Udp
pub mod Outbound
pub mod Forward
