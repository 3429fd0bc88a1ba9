-- ===== src/Utf/Utf16.antt =====
-- cmd/rdpgw/protocol/utf16.go
use home_rdp_gateway.Base.{
  ℕ, ◌+◌, ◌-◌, ◌*◌, ◌/◌, ◌%◌, ◌||◌, Option, none, some, List, [], ◌∷◌, ◌++◌, ltb, ◌==◌,
  if◌then◌else◌,
}
use home_rdp_gateway.Wire.{Bytes, put_u16}
use home_rdp_gateway.Utf.Utf8.{rune_error, is_surrogate, encode_rune, runes}

-- `utf16.Decode` of one unit: half of a pair alone is U+FFFD.
abbrev pub decode_unit : ℕ → ℕ
decode_unit u = if is_surrogate u then rune_error else u

-- The loop of DecodeUTF16; `none` for a text of odd length.
unfoldable pub decode_units : Bytes → Option Bytes
unfolding encode_rune
decode_units [] = some []
decode_units (lo ∷ []) = none
decode_units (lo ∷ hi ∷ r) = elim (decode_units r) [
  | none ↦ none
  | some out ↦ some (encode_rune (decode_unit (lo + 256 * hi)) ++ out)
]

-- `bret[:len(bret)-1]` if the last byte is 0.
unfoldable pub trim_nul : Bytes → Bytes
trim_nul [] = []
trim_nul (b ∷ []) = if b == 0 then [] else b ∷ []
trim_nul (b ∷ c ∷ r) = b ∷ trim_nul (c ∷ r)

unfoldable pub decode_utf16 : Bytes → Option Bytes
unfolding decode_units trim_nul
decode_utf16 b = elim (decode_units b) [ none ↦ none | some out ↦ some (trim_nul out) ]

-- `utf16.Encode` of one rune.
unfoldable pub encode_unit : ℕ → List ℕ
encode_unit c =
    if is_surrogate c || ltb 0x10FFFF c
    then rune_error ∷ []
    else if ltb c 0x10000
    then c ∷ []
    else (0xD800 + (c - 0x10000) / 1024) ∷ (0xDC00 + (c - 0x10000) % 1024) ∷ []

unfoldable pub put_units : List ℕ → Bytes
put_units [] = []
put_units (u ∷ us) = put_u16 u ++ put_units us

unfoldable pub encode_all : List ℕ → List ℕ
unfolding encode_unit
encode_all [] = []
encode_all (c ∷ cs) = encode_unit c ++ encode_all cs

unfoldable pub encode_utf16 : Bytes → Bytes
unfolding put_units encode_all
encode_utf16 s = put_units (encode_all (runes s))
