-- ===== src/Web.antt =====
-- cmd/rdpgw/web: who a request comes from, and who may pass.
pub mod TrustedProxy
pub mod Middleware
pub mod Access
pub mod Untrusted
pub mod Administrators
pub mod InternalDns
pub mod Oidc
pub mod Admin
pub mod Download
