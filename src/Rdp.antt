-- ===== src/Rdp.antt =====
-- RDP files: cmd/rdpgw/rdp.
pub mod Settings
pub mod Parser
pub mod Builder
pub mod Lines
pub mod WrittenLine
pub mod RoundTrip
pub mod Defaults
pub mod Served
pub mod LongLine
pub mod Written
