-- ===== src/Tests.antt =====
-- Runs of the builder and of the service on samples.
mod Samples
mod Builder
mod Helpers
mod Instance
mod Probes
mod Reading
mod Formats
mod Tunnels
mod Sides
mod Shares
mod Vmess
mod Commands
mod Logs
