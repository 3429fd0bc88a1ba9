-- ===== src/Protocol/Reader.antt =====
-- packet_reader.go, and handleMsgFrame and readMessage of cmd/rdpgw/protocol/common.go.
pub mod Defs
pub mod Progress
pub mod Consumption
pub mod Increment
pub mod Reassembly
pub mod Defragment
pub mod Hazards
unfoldable pub use Defs.*
