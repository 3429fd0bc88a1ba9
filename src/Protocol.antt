-- ===== src/Protocol.antt =====
-- cmd/rdpgw/protocol
pub mod PktType
pub mod ServerState
pub mod ErrorCode
pub mod Field
pub mod Packet
pub mod Reader
pub mod Gateway
pub mod Responses
pub mod Requests
pub mod Negotiation
pub mod Track
pub mod Processor
pub mod Client
