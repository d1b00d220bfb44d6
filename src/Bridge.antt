-- ===== src/Bridge.antt =====
-- infra/android/bridge.go and main/main.go: what the platform calls.
pub mod Hostname
pub mod Callbacks
pub mod Probes
pub mod Sessions
