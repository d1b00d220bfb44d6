-- ===== src/Split.antt =====
-- The package transport/split: TCP connections whose first segment is split.
pub mod Conn
pub mod Record
pub mod Hello
pub mod Frames
pub mod Counts
pub mod Splitter
pub mod Retrier
