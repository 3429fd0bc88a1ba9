-- ===== src/Transport/Defs.antt =====
-- The result of Transport.ReadPacket, and when it is honest.
use home_rdp_gateway.Base.{ℕ, ◌≡◌, Bool, length}
use home_rdp_gateway.Wire.{Bytes}

-- The result `(n, p, err)` of a ReadPacket; `failed` if `err` is not nil.
pub record Received : Type 0 where
  pub size : ℕ
  pub bytes : Bytes
  pub failed : Bool

-- What the protocol relies on: `n` is the number of bytes handed over.
abbrev pub IsHonest : Received → Type 0
IsHonest f = f.size ≡ length f.bytes
