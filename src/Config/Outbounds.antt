-- ===== src/Config/Outbounds.antt =====
-- v2/config/builder_outbound.go and outbound.go: the outbounds, the endpoints and the groups.
pub mod Patch
pub mod Assemble
pub mod Tags
pub mod Closed
pub mod Targets
pub mod Kept
pub mod Empty
