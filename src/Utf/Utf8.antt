-- ===== src/Utf/Utf8.antt =====
-- `utf8.EncodeRune` and the conversion `[]rune(s)`, in which a byte that starts no valid sequence is
-- one U+FFFD.
use home_rdp_gateway.Base.{
  ℕ, zero, suc, ◌+◌, ◌-◌, ◌*◌, ◌/◌, ◌%◌, Bool, ◌&&◌, ◌||◌, List, [], ◌∷◌, ◌++◌, ltb, leb, ◌==◌,
  if◌then◌else◌,
}
use home_rdp_gateway.Wire.{Bytes}

-- U+FFFD.
abbrev pub rune_error : ℕ
rune_error = 65533

abbrev pub is_surrogate : ℕ → Bool
is_surrogate c = leb 0xD800 c && ltb c 0xE000

abbrev two_bytes : ℕ → Bytes
two_bytes c = (192 + c / 64) ∷ (128 + c % 64) ∷ []

abbrev three_bytes : ℕ → Bytes
three_bytes c = (224 + c / 4096) ∷ (128 + c / 64 % 64) ∷ (128 + c % 64) ∷ []

abbrev four_bytes : ℕ → Bytes
four_bytes c =
    (240 + c / 262144) ∷ (128 + c / 4096 % 64) ∷ (128 + c / 64 % 64) ∷ (128 + c % 64) ∷ []

unfoldable pub encode_rune : ℕ → Bytes
encode_rune c =
    if ltb c 0x80
    then c ∷ []
    else if ltb c 0x800
    then two_bytes c
    else if is_surrogate c || ltb 0x10FFFF c
    then three_bytes rune_error
    else if ltb c 0x10000
    then three_bytes c
    else four_bytes c

unfoldable pub encode_runes : List ℕ → Bytes
unfolding encode_rune
encode_runes [] = []
encode_runes (c ∷ cs) = encode_rune c ++ encode_runes cs

abbrev is_tail : ℕ → Bool
is_tail b = leb 0x80 b && ltb b 0xC0

-- The range that the second byte must lie in, by the first.
abbrev second_ok : ℕ → ℕ → Bool
second_ok a b =
    if a == 0xE0
    then leb 0xA0 b && ltb b 0xC0
    else if a == 0xED
    then leb 0x80 b && ltb b 0xA0
    else if a == 0xF0
    then leb 0x90 b && ltb b 0xC0
    else if a == 0xF4
    then leb 0x80 b && ltb b 0x90
    else is_tail b

-- The first rune of a text that is not empty, and how many bytes after the first one it takes.
abbrev decode_two : ℕ → Bytes → ℕ × ℕ
decode_two a (b ∷ _) = if is_tail b then ((a - 192) * 64 + (b - 128), 1) else (rune_error, 0)
decode_two a [] = (rune_error, 0)

abbrev decode_three : ℕ → Bytes → ℕ × ℕ
decode_three a (b ∷ c ∷ _) =
    if second_ok a b && is_tail c
    then ((a - 224) * 4096 + (b - 128) * 64 + (c - 128), 2)
    else (rune_error, 0)
decode_three a _ = (rune_error, 0)

abbrev decode_four : ℕ → Bytes → ℕ × ℕ
decode_four a (b ∷ c ∷ d ∷ _) =
    if second_ok a b && is_tail c && is_tail d
    then ((a - 240) * 262144 + (b - 128) * 4096 + (c - 128) * 64 + (d - 128), 3)
    else (rune_error, 0)
decode_four a _ = (rune_error, 0)

unfoldable pub decode_rune : ℕ → Bytes → ℕ × ℕ
decode_rune a r =
    if ltb a 0x80
    then (a, 0)
    else if leb 0xC2 a && ltb a 0xE0
    then decode_two a r
    else if leb 0xE0 a && ltb a 0xF0
    then decode_three a r
    else if leb 0xF0 a && ltb a 0xF5
    then decode_four a r
    else (rune_error, 0)

-- `skip` bytes belong to the rune before.
unfoldable pub runes_from : ℕ → Bytes → List ℕ
unfolding decode_rune
runes_from skip [] = []
runes_from zero (a ∷ r) = let (c, more) = decode_rune a r in c ∷ runes_from more r
runes_from (suc skip) (a ∷ r) = runes_from skip r

abbrev pub runes : Bytes → List ℕ
runes s = runes_from 0 s
