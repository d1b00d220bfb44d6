-- ===== src/Net.antt =====
-- What the program uses of Go's `net` and `net/netip`.
pub mod Ip
