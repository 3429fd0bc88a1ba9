-- ===== src/Identity.antt =====
-- cmd/rdpgw/identity
pub mod User
pub mod Groups
