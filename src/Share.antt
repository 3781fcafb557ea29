-- ===== src/Share.antt =====
-- The conversion of share links, xray2sing/ray2sing.
pub mod Library
pub mod Links
pub mod Lines
pub mod Query
pub mod Tls
pub mod Transport
pub mod Url
pub mod Parsers
pub mod Tuic
pub mod Vmess
pub mod Awg
pub mod Convert
