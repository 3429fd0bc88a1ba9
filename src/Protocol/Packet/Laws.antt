-- ===== src/Protocol/Packet/Laws.antt =====
-- What createPacket makes, readHeader takes apart; a part of a packet is told from a whole one.
use home_rdp_gateway.Base.{
  ℕ, ◌+◌, ◌-◌, ◌≤◌, ◌<◌, ◌≡◌, refl, sym, ap, ◌∙◌, none, some, ◌∷◌, ◌++◌, length, take, drop, ltb,
  arith, length-append, take_length-append, Bool-cases, inl, inr, true,
}
use home_rdp_gateway.Base.Outcome.{Outcome, returns}
use home_rdp_gateway.Wire.{Bytes, read_u32}
use home_rdp_gateway.Protocol.Packet.{
  Header, HeaderError, header_too_short, data_incomplete, create_packet, read_header,
}

pub length-create_packet :
    (pt : ℕ) (body : Bytes) → length (create_packet pt body) ≡ length body + 8
unfolding create_packet
length-create_packet pt body = omega arith

abbrev pub header_of : ℕ → Bytes → Header
header_of pt body = record { packet_type = pt; size = length body + 8; packet = body; err = none }

take_body : (body rest : Bytes) → take (length body + 8 - 8) (body ++ rest) ≡ body
take_body body rest =
    let e : length body + 8 - 8 ≡ length body = omega arith in rw e (take_length-append body rest)

-- A packet whose type and size fit their fields, read back from the front of any bytes, gives its
-- type, its size and its body.
pub read_header-create_packet :
    (pt : ℕ) (body rest : Bytes)
    → pt < 65536
    → length body + 8 < 4294967296
    → read_header (create_packet pt body ++ rest) ≡ returns (header_of pt body)
unfolding read_header create_packet
read_header-create_packet pt body rest hp hs =
    ground (arith, take_body body rest, length-append body rest)

-- The size field does not depend on what follows the first eight bytes.
pub size_of_prefix :
    (xs ys : Bytes) → 8 ≤ length xs → (read_u32 (drop 4 (xs ++ ys))).0 ≡ (read_u32 (drop 4 xs)).0
size_of_prefix (a ∷ b ∷ c ∷ d ∷ e ∷ f ∷ g ∷ h ∷ xs) ys p = refl
size_of_prefix _ ys p = absurd (omega arith)

size-create_packet :
    (pt : ℕ) (body rest : Bytes)
    → length body + 8 < 4294967296
    → (read_u32 (drop 4 (create_packet pt body ++ rest))).0 ≡ length body + 8
unfolding create_packet
size-create_packet pt body rest h = omega arith

-- The outcome of readHeader asks for more bytes.
abbrev pub IsFragment : Outcome Header → Type 0
IsFragment o = (h : Header) × (e : HeaderError) × (o ≡ returns h) × (h.err ≡ some e)

-- The front of a packet whose size fits its field, wherever it is cut, makes readHeader ask for more
-- bytes.
pub read_header-IsFragment :
    (pt : ℕ) (body rest xs ys : Bytes)
    → length body + 8 < 4294967296
    → xs ++ ys ≡ create_packet pt body ++ rest
    → length xs < length body + 8
    → IsFragment (read_header xs)
unfolding read_header
read_header-IsFragment pt body rest xs ys hs e short = elim (Bool-cases (ltb (length xs) 8)) [
  | inl tiny ↦ rw tiny (_, header_too_short, refl, refl)
  | inr wide ↦
      let size : (read_u32 (drop 4 xs)).0 ≡ length body + 8 =
        sym (size_of_prefix xs ys (ground arith))
        ∙ (ap (λ (l : Bytes). (read_u32 (drop 4 l)).0) e ∙ size-create_packet pt body rest hs) in
      let part : ltb (length xs) (read_u32 (drop 4 xs)).0 ≡ true = ground arith in
      rw (wide, part) (_, data_incomplete, refl, refl)
]
