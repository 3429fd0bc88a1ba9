-- ===== src/Security.antt =====
-- cmd/rdpgw/security: the checks of a session.
pub mod HostTemplate
pub mod Hosts
pub mod Tokens
pub mod TokenRoundTrip
pub mod Sessions
