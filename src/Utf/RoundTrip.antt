-- ===== src/Utf/RoundTrip.antt =====
-- Text that is encoded for the wire is decoded to itself.
use home_rdp_gateway.Base.{
  ℕ, ◌+◌, ◌-◌, ◌*◌, ◌/◌, ◌%◌, ◌<◌, ◌≤◌, ◌≡◌, ◌≢◌, refl, ap, ◌∙◌, some, List, [], ◌∷◌, ◌++◌, ◌==◌,
  arith, append-nil, ◌⊎◌, inl, inr, Bool-cases,
}
use home_rdp_gateway.Wire.{Bytes}
use home_rdp_gateway.Utf.Utf8.{
  rune_error, encode_rune, encode_runes, decode_rune, runes_from, runes,
}
use home_rdp_gateway.Utf.Utf16.{
  decode_unit, decode_units, decode_utf16, trim_nul, encode_unit, encode_all, put_units,
  encode_utf16,
}

-- A code point of the Basic Multilingual Plane that is no half of a surrogate pair.
abbrev pub IsBasic : ℕ → Type 0
IsBasic c = (c < 0x10000) × ((c < 0xD800) ⊎ (0xE000 ≤ c))

abbrev pub AreBasic : List ℕ → Type 0
AreBasic [] = Unit
AreBasic (c ∷ cs) = IsBasic c × AreBasic cs

-- The runes of an encoded text are the code points that were encoded.
runes_from-encode_rune :
    (c : ℕ) (r : Bytes) → IsBasic c → runes_from 0 (encode_rune c ++ r) ≡ c ∷ runes_from 0 r
unfolding runes_from encode_rune
runes_from-encode_rune c r h = ground arith

pub runes-encode_runes : (cs : List ℕ) → AreBasic cs → runes (encode_runes cs) ≡ cs
unfolding encode_runes runes_from
runes-encode_runes [] h = refl
runes-encode_runes (c ∷ cs) (h, hs) =
    runes_from-encode_rune c (encode_runes cs) h
    ∙ ap (λ (r : List ℕ). c ∷ r) (runes-encode_runes cs hs)

encode_unit_basic : (c : ℕ) → IsBasic c → encode_unit c ≡ c ∷ []
unfolding encode_unit
encode_unit_basic c h = ground arith

encode_all_basic : (cs : List ℕ) → AreBasic cs → encode_all cs ≡ cs
unfolding encode_all
encode_all_basic [] h = refl
encode_all_basic (c ∷ cs) (h, hs) =
    rw (encode_unit_basic c h) (ap (λ (r : List ℕ). c ∷ r) (encode_all_basic cs hs))

decode_unit_basic : (c : ℕ) → IsBasic c → decode_unit (c % 256 + 256 * (c / 256 % 256)) ≡ c
decode_unit_basic c h = ground arith

decode_units-put_units :
    (cs : List ℕ) → AreBasic cs → decode_units (put_units cs) ≡ some (encode_runes cs)
unfolding decode_units put_units encode_runes
decode_units-put_units [] h = refl
decode_units-put_units (c ∷ cs) (h, hs) = rw (decode_units-put_units cs hs, decode_unit_basic c h)

trim_nul-append :
    (xs : Bytes) (b : ℕ) (ys : Bytes) → trim_nul (xs ++ b ∷ ys) ≡ xs ++ trim_nul (b ∷ ys)
unfolding trim_nul
trim_nul-append [] b ys = refl
trim_nul-append (x ∷ []) b ys = refl
trim_nul-append (x ∷ x' ∷ xs) b ys = ap (λ (r : Bytes). x ∷ r) (trim_nul-append (x' ∷ xs) b ys)

encode_rune-ne-nil : (c : ℕ) → encode_rune c ≢ []
unfolding encode_rune
encode_rune-ne-nil c h = ground arith

trim_nul-append_ne_nil : (xs ys : Bytes) → ys ≢ [] → trim_nul (xs ++ ys) ≡ xs ++ trim_nul ys
trim_nul-append_ne_nil xs [] h = absurd (h refl)
trim_nul-append_ne_nil xs (b ∷ ys) h = trim_nul-append xs b ys

pub encode_runes-ne-nil : (c : ℕ) (cs : List ℕ) → encode_runes (c ∷ cs) ≢ []
unfolding encode_runes
encode_runes-ne-nil c cs h =
    append-ne-nil (encode_rune c) (encode_runes cs) (encode_rune-ne-nil c) h
  where
    append-ne-nil : (xs ys : Bytes) → xs ≢ [] → xs ++ ys ≢ []
    append-ne-nil [] ys p q = p refl
    append-ne-nil (x ∷ xs) ys p q = cc

trim_nul-encode_rune : (c : ℕ) → c ≢ 0 → trim_nul (encode_rune c) ≡ encode_rune c
unfolding trim_nul encode_rune
trim_nul-encode_rune c h = ground arith

trim_nul-encode_runes : (cs : List ℕ) → trim_nul (encode_runes cs) ≡ encode_runes (trim_nul cs)
unfolding encode_runes trim_nul
trim_nul-encode_runes [] = refl
trim_nul-encode_runes (c ∷ []) = elim (Bool-cases (c == 0)) [
  | inl nul ↦ let e : c ≡ 0 = ground arith in rw e (unfold encode_rune in refl)
  | inr other ↦ rw (other, append-nil (encode_rune c)) (trim_nul-encode_rune c (λ e. ground arith))
]
trim_nul-encode_runes (c ∷ d ∷ cs) =
    trim_nul-append_ne_nil (encode_rune c) (encode_runes (d ∷ cs)) (encode_runes-ne-nil d cs)
    ∙ ap (λ (r : Bytes). encode_rune c ++ r) (trim_nul-encode_runes (d ∷ cs))

-- For a text of code points of the Basic Multilingual Plane, DecodeUTF16 of EncodeUTF16 is the text
-- itself, less one trailing NUL where it has one.
pub decode_utf16-encode_utf16 :
    (cs : List ℕ)
    → AreBasic cs
    → decode_utf16 (encode_utf16 (encode_runes cs)) ≡ some (encode_runes (trim_nul cs))
unfolding decode_utf16 encode_utf16
decode_utf16-encode_utf16 cs h =
    rw (runes-encode_runes cs h, encode_all_basic cs h, decode_units-put_units cs h, decode_utf16)
      (ap some (trim_nul-encode_runes cs))

encode_rune_four :
    (c : ℕ)
    → 0x10000 ≤ c
    → c ≤ 0x10FFFF
    → encode_rune c
      ≡ (240 + c / 262144) ∷ (128 + c / 4096 % 64) ∷ (128 + c / 64 % 64) ∷ (128 + c % 64) ∷ []
unfolding encode_rune
encode_rune_four c lo hi = ground arith

decode_rune_four :
    (h x y z : ℕ)
    → h ≤ 4
    → x < 64
    → y < 64
    → z < 64
    → (h ≡ 0 → 16 ≤ x)
    → (h ≡ 4 → x < 16)
    → decode_rune (240 + h) ((128 + x) ∷ (128 + y) ∷ (128 + z) ∷ [])
      ≡ (h * 262144 + x * 4096 + y * 64 + z, 3)
unfolding decode_rune
decode_rune_four h x y z hh hx hy hz h0 h4 = ground arith

runes-encode_rune_supplementary :
    (c : ℕ) → 0x10000 ≤ c → c ≤ 0x10FFFF → runes (encode_rune c) ≡ c ∷ []
unfolding runes_from
runes-encode_rune_supplementary c lo hi =
    rw
      (
        encode_rune_four c lo hi,
        decode_rune_four (c / 262144) (c / 4096 % 64) (c / 64 % 64) (c % 64) (omega arith)
            (omega arith) (omega arith) (omega arith) (omega arith) (omega arith),
      )
      (ap (λ (k : ℕ). k ∷ []) (omega arith))

encode_all_supplementary :
    (c : ℕ)
    → 0x10000 ≤ c
    → c ≤ 0x10FFFF
    → encode_all (c ∷ []) ≡ (0xD800 + (c - 0x10000) / 1024) ∷ (0xDC00 + (c - 0x10000) % 1024) ∷ []
unfolding encode_all
encode_all_supplementary c lo hi = ground arith

decode_half :
    (h : ℕ) → 0xD800 ≤ h → h < 0xE000 → decode_unit (h % 256 + 256 * (h / 256 % 256)) ≡ rune_error
decode_half h lo hi = ground arith

decode_pair :
    (h l : ℕ)
    → h < 1024
    → l < 1024
    → decode_utf16 (put_units ((0xD800 + h) ∷ (0xDC00 + l) ∷ []))
      ≡ some (encode_runes (rune_error ∷ rune_error ∷ []))
unfolding decode_utf16 put_units encode_runes
decode_pair h l ph pl = rw (
  decode_half (0xD800 + h) (omega arith) (omega arith),
  decode_half (0xDC00 + l) (omega arith) (omega arith),
)

-- A character outside the Basic Multilingual Plane that EncodeUTF16 writes as a surrogate pair comes
-- back from DecodeUTF16 as two replacement characters: the units are decoded one by one.
pub decode_utf16-encode_utf16_supplementary :
    (c : ℕ)
    → 0x10000 ≤ c
    → c ≤ 0x10FFFF
    → decode_utf16 (encode_utf16 (encode_rune c))
      ≡ some (encode_runes (rune_error ∷ rune_error ∷ []))
unfolding decode_utf16 encode_utf16
decode_utf16-encode_utf16_supplementary c lo hi =
    rw (runes-encode_rune_supplementary c lo hi, encode_all_supplementary c lo hi)
      (decode_pair ((c - 0x10000) / 1024) ((c - 0x10000) % 1024) (omega arith) (omega arith))
