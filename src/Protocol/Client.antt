-- ===== src/Protocol/Client.antt =====
-- The gateway client of cmd/rdpgw/protocol/client.go.
pub mod Defs
pub mod Replies
pub mod Dialogue
pub mod Requests
unfoldable pub use Defs.*
