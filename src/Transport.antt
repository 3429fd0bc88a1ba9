-- ===== src/Transport.antt =====
-- cmd/rdpgw/transport/transport.go: what the protocol sees of a transport. The websocket and the
-- chunked HTTP body are libraries: what they hand over is an argument of the children's functions.
pub mod Defs
pub mod WsPkt
pub mod LegacyPkt
pub use Defs.*
