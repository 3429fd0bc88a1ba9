-- ===== src/Auth.antt =====
-- cmd/auth: the helper that checks passwords and NTLM messages.
pub mod Users
pub mod Service
pub mod Ntlm
pub mod NtlmOrder
pub mod NtlmAcceptance
pub mod SocketMode
