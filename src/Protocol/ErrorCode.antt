-- ===== src/Protocol/ErrorCode.antt =====
-- The codes of cmd/rdpgw/protocol/errors.go that the gateway sends.
use home_rdp_gateway.Base.{ℕ}

abbrev pub success : ℕ
success = 0x00000000

abbrev pub access_denied : ℕ
access_denied = 0x00000005

abbrev pub internal_error : ℕ
internal_error = 0x800759D8

abbrev pub rap_access_denied : ℕ
rap_access_denied = 0x800759DA

abbrev pub cookie_authentication_access_denied : ℕ
cookie_authentication_access_denied = 0x800759F8

abbrev pub capability_mismatch : ℕ
capability_mismatch = 0x800759E9
