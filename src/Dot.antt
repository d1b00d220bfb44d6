-- ===== src/Dot.antt =====
-- proxy/dot/dot.go.
pub mod Framing
pub mod Query
pub mod Make
pub mod Service
