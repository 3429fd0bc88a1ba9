-- ===== src/Protocol/Gateway.antt =====
-- The configuration of the gateway, the tunnel and the processor: cmd/rdpgw/protocol/gateway.go,
-- tunnel.go and process.go. The time stamps of a tunnel are left out: nothing in the code reads them.
use home_rdp_gateway.Base.{ℕ, ◌+◌, ◌%◌, ◌^◌, Bool, Option, List, [], ◌∷◌, ◌++◌}
use home_rdp_gateway.Base.Texts.{Text}
use home_rdp_gateway.Base.Integers.{ℤ}
use home_rdp_gateway.Wire.{Bytes}
use home_rdp_gateway.Transport.{Received}

pub record RedirectFlags : Type 0 where
  pub clipboard : Bool
  pub port : Bool
  pub drive : Bool
  pub printer : Bool
  pub pnp : Bool
  pub disable_all : Bool
  pub enable_all : Bool

-- What the checks of package security see and set of a tunnel: its exported fields, of the user the
-- name alone.
pub record TunnelInfo : Type 0 where
  pub id : Text
  pub rdg_id : Text
  pub target_server : Text
  pub remote_addr : Text
  pub user_name : Text

-- A check is given the tunnel through the context and may change it; it answers whether its argument
-- is accepted.
abbrev pub Check : Type 0
Check = Text → TunnelInfo → Bool × TunnelInfo

pub record Gateway : Type 0 where
  pub check_paa_cookie : Option Check
  pub check_client_name : Option Check
  pub check_host : Option Check
  pub redirect_flags : RedirectFlags
  pub idle_timeout : ℤ
  pub smart_card_auth : Bool
  pub token_auth : Bool

-- A connection to a remote desktop server: where it leads, and what was written to it.
pub record Conn : Type 0 where
  pub peer : Text
  pub written : List Bytes

-- `write_results` is what WritePacket of the outgoing transport is going to report, 0 after the last.
-- The counters are held as the bit patterns of an int64.
pub record Tunnel : Type 0 where
  pub info : TunnelInfo
  pub transport_in : List Received
  pub write_results : List ℕ
  pub sent : List Bytes
  pub rwc : Option Conn
  pub bytes_sent : ℕ
  pub bytes_received : ℕ

abbrev pub int64 : ℕ → ℕ
int64 n = n % 2 ^ 64

-- Tunnel.Write.
unfoldable pub write : Tunnel → Bytes → Tunnel
write t pkt = elim t.write_results [
  | [] ↦ record t { sent = t.sent ++ pkt ∷ [] }
  | n ∷ more ↦ record t {
    sent = t.sent ++ pkt ∷ [];
    write_results = more;
    bytes_sent = int64 (t.bytes_sent + n);
  }
]

pub record Processor : Type 0 where
  pub gw : Gateway
  pub state : ℕ
  pub tunnel : Tunnel
