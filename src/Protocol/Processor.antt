-- ===== src/Protocol/Processor.antt =====
-- The state machine of cmd/rdpgw/protocol/process.go. `dial` is the network: whether a connection to
-- an address can be made.
pub mod Defs
pub mod Cases
pub mod Order
pub mod Safety
pub mod Termination
pub mod Session
pub mod Authorization
pub mod Tracking
unfoldable pub use Defs.*
