-- ===== src/Config.antt =====
-- v2/config: builds the sing-box configuration that the core starts.
pub mod Tags
pub mod SingBox
pub mod Settings
pub mod Env
pub mod Helpers
pub mod Warp
pub mod Outbounds
pub mod Inbounds
pub mod Dns
pub mod Route
pub mod Build
pub mod Reading
pub mod Formats
