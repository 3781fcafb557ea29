-- ===== src/Share/Awg/Accepted.antt =====
-- The endpoints that `AWGSingboxTxt` and `AWGSingbox` return.
pub mod Values
pub mod Trimmed
pub mod Peers
pub mod Texts
pub mod Links
