-- ===== src/Transport/WsPkt.antt =====
-- cmd/rdpgw/transport/websocket.go
use home_rdp_gateway.Base.{ℕ, ◌≡◌, Bool, true, false, [], ◌∷◌, length, if◌then◌else◌, ◌⊎◌, arith}
use home_rdp_gateway.Wire.{Bytes}
use home_rdp_gateway.Transport.Defs.{Received, IsHonest}

-- What `websocket.Conn.ReadMessage` hands over: a binary message, another one, or an error.
pub data SocketMessage : Type 0 where
  binary : Bytes → SocketMessage
  other : Bytes → SocketMessage
  closed : SocketMessage

unfoldable pub read_packet : SocketMessage → Received
read_packet closed = record { size = 0; bytes = 0 ∷ 0 ∷ []; failed = true }
read_packet (binary msg) = record { size = length msg; bytes = msg; failed = false }
read_packet (other msg) = record { size = length msg; bytes = msg; failed = true }

-- The count that WritePacket reports; `accepted` is whether `WriteMessage` succeeds.
unfoldable pub write_packet : Bool → Bytes → ℕ
write_packet accepted b = if accepted then length b else 0

pub read_packet-IsHonest :
    (m : SocketMessage) → ((read_packet m).failed ≡ true) ⊎ IsHonest (read_packet m)
unfolding read_packet
read_packet-IsHonest (binary msg) = ground arith
read_packet-IsHonest _ = ground arith
