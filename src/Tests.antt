-- ===== src/Tests.antt =====
-- Test inputs, the definitions run on them, and the theorems applied to them.
mod Split
mod IpMap
mod Toy
mod Doh
mod Stream
mod Dot
mod Relay
mod Service
mod Flows
mod Bridge
mod Log
mod Failing
mod Header
mod AnyId
mod Copy
