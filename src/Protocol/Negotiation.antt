-- ===== src/Protocol/Negotiation.antt =====
-- What matchAuth agrees to, and what the redirection flags say: cmd/rdpgw/protocol/process.go.
use Prim.Native.Nat.{bit_and}
use home_rdp_gateway.Base.{ℕ, ◌≡◌, ◌≢◌, ◌↔◌, ◌⊎◌, Bool, false, not, ◌==◌, arith}
use home_rdp_gateway.Protocol.Field
use home_rdp_gateway.Protocol.Gateway.{Gateway, RedirectFlags}
use home_rdp_gateway.Protocol.Responses.{caps, server_caps, match_auth, make_redirect_flags}

bit_and_zero : (gw : Gateway) → bit_and (server_caps gw) 0 ≡ 0
bit_and_zero gw = ground arith

-- matchAuth agrees exactly when client and server have a capability in common, or neither asks for
-- any; it then answers all capabilities of the server.
pub match_auth_iff :
    (gw : Gateway) (client k : ℕ)
    → (match_auth gw client ≡ caps k) ↔ (
        (k ≡ server_caps gw)
        × ((bit_and (server_caps gw) client ≢ 0) ⊎ ((server_caps gw ≡ 0) × (client ≡ 0))))
unfolding match_auth
match_auth_iff gw client k = ground (arith, bit_and_zero gw)

abbrev pub is_set : ℕ → ℕ → Bool
is_set flags bit = bit_and flags bit == bit

-- Unless all redirection is switched on or off, the flag of each device is set exactly when its
-- redirection is not allowed, and neither of the two general flags is.
pub make_redirect_flags_bits :
    (f : RedirectFlags)
    → f.disable_all ≡ false
    → f.enable_all ≡ false
    → (is_set (make_redirect_flags f) Field.redir_disable_drive ≡ not f.drive)
      × (is_set (make_redirect_flags f) Field.redir_disable_printer ≡ not f.printer)
      × (is_set (make_redirect_flags f) Field.redir_disable_port ≡ not f.port)
      × (is_set (make_redirect_flags f) Field.redir_disable_clipboard ≡ not f.clipboard)
      × (is_set (make_redirect_flags f) Field.redir_disable_pnp ≡ not f.pnp)
      × (is_set (make_redirect_flags f) Field.redir_disable_all ≡ false)
      × (is_set (make_redirect_flags f) Field.redir_enable_all ≡ false)
unfolding make_redirect_flags
make_redirect_flags_bits f off on = ground arith
