-- ===== src/Tunnel.antt =====
-- The tunnel of one session: the TUN descriptor, the network stack on it, the engine, the session.
pub mod World
pub mod Device
pub mod Engine
pub mod Session
