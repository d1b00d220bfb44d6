-- ===== src/Doh.antt =====
-- proxy/doh: the DNS-over-HTTPS resolver. Times are numbers of nanoseconds.
pub mod Message
pub mod Padding
pub mod Dial
pub mod Query
pub mod QueryLog
pub mod Accept
pub mod Service
pub mod Make
pub mod ClientAuth
