-- ===== src/Wire.antt =====
-- Little-endian fields of the gateway packets, as `encoding/binary` and `bytes.Reader` give them in
-- cmd/rdpgw/protocol: what is written with `binary.Write` into a buffer, and what is read back with
-- `binary.Read`. A reader is the list of the bytes that are left in it.
pub mod Laws
use home_rdp_gateway.Base.{
  ℕ, zero, suc, ◌+◌, ◌-◌, ◌*◌, ◌/◌, ◌%◌, ◌<◌, Bool, List, [], ◌∷◌, ◌++◌, length, take, drop,
  replicate, leb, if◌then◌else◌,
}

abbrev pub Bytes : Type 0
Bytes = List ℕ

-- The bytes of `uint8(n)`, `uint16(n)` and `uint32(n)`; the conversion keeps the low bits.
abbrev pub put_u8 : ℕ → Bytes
put_u8 n = n % 256 ∷ []

abbrev pub put_u16 : ℕ → Bytes
put_u16 n = n % 256 ∷ n / 256 % 256 ∷ []

abbrev pub put_u32 : ℕ → Bytes
put_u32 n = n % 256 ∷ n / 256 % 256 ∷ n / 65536 % 256 ∷ n / 16777216 % 256 ∷ []

-- `binary.Read` into an integer that is still 0. A read that meets the end consumes what is left and
-- leaves the integer as it was.
abbrev pub read_u8 : Bytes → ℕ × Bytes
read_u8 [] = (0, [])
read_u8 (a ∷ r) = (a, r)

abbrev pub read_u16 : Bytes → ℕ × Bytes
read_u16 (a ∷ b ∷ r) = (a + 256 * b, r)
read_u16 _ = (0, [])

abbrev pub read_u32 : Bytes → ℕ × Bytes
read_u32 (a ∷ b ∷ c ∷ d ∷ r) = (a + 256 * b + 65536 * c + 16777216 * d, r)
read_u32 _ = (0, [])

-- `binary.Read` into a fresh slice of `n` bytes: all of it, or none of it.
abbrev pub read_slice : ℕ → Bytes → Bytes
read_slice n r = if leb n (length r) then take n r else replicate n 0

-- `Reader.Read` into a fresh slice of `n` bytes: as many as there are.
abbrev pub read_some : ℕ → Bytes → Bytes
read_some n r = take n r ++ replicate (n - length r) 0

-- Every member is a byte.
abbrev pub AreBytes : Bytes → Type 0
AreBytes [] = Unit
AreBytes (b ∷ r) = (b < 256) × AreBytes r
