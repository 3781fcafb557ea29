-- ===== src/Hcore.antt =====
-- v2/hcore: the service around the engine that is started from a built configuration.
pub mod Watcher
pub mod State
pub mod LastStart
pub mod Service
pub mod Pause
pub mod Probe
pub mod Commands
pub mod CoreLog
pub mod Settings
pub mod Side
pub mod UrlTestConfig
pub mod SpeedTest
