-- ===== src/Examples/Rdp.antt =====
-- RDP files.
use home_rdp_gateway.Base.{
  ltb, ◌&&◌, List, Bool, ℕ, zero, suc, ◌≡◌, inl, inr, refl, Bool-cases, true, Option, none, some,
  [], ◌∷◌, ◌++◌, length, replicate, arith,
}
use mathlib.Core.Path.{subst}
use home_rdp_gateway.Base.Texts.{Text, text_eq, text_eq_iff, codes}
use home_rdp_gateway.Base.Assoc.{lookup}
use home_rdp_gateway.Base.Integers.{pos}
use home_rdp_gateway.Go.Strings.{trim_space, trim_left, trim_right}
use home_rdp_gateway.Go.Strconv.{itoa, itoa_from, format_int}
use home_rdp_gateway.Utf.Utf8.{encode_runes, encode_rune}
use home_rdp_gateway.Rdp.Settings.{Kind, a_bool, an_int, a_string, Field, rdp_fields}
use home_rdp_gateway.Rdp.Parser.{Value, number, Settings, marshal, unmarshal}
use home_rdp_gateway.Rdp.Lines.{lacks, IsKey, IsValue}
use home_rdp_gateway.Rdp.WrittenLine.{line, Fits}
use home_rdp_gateway.Rdp.RoundTrip.{read_back_of, unmarshal-marshal}
use home_rdp_gateway.Rdp.Builder.{Setting, Builder, zero_of, to_string}
use home_rdp_gateway.Rdp.Defaults.{HasKind}
use home_rdp_gateway.Rdp.Served.{to_value, AllSay}
use home_rdp_gateway.Rdp.Written.{AllValues, to_string-AllSay}
use home_rdp_gateway.Rdp.LongLine.{lines_before, unmarshal_long_line}

abbrev width : Text
width = codes "w"

abbrev one_setting : Settings
one_setting = (width, number (pos 800)) ∷ []

one_setting-written :
    (key : Text) (v : Value) → lookup key one_setting ≡ some v → IsKey key × IsValue v × Fits key v
unfolding lookup trim_space trim_left trim_right encode_runes encode_rune format_int itoa itoa_from
one_setting-written key v h = elim (Bool-cases (text_eq width key)) [
  | inl e ↦
      let held : ◌≡◌ {A = Option Value} (some (number (pos 800))) (some v) = rw (e, lookup) at h in
      let same : number (pos 800) ≡ v = cc in
      subst (λ k. IsKey k × IsValue v × Fits k v) ((text_eq_iff width key).0 e)
        (subst (λ w. IsKey width × IsValue w × Fits width w) same
          ((refl, refl, refl, refl, refl), (omega arith), (omega arith)))
  | inr e ↦ let bad : ◌≡◌ {A = Option Value} none (some v) = rw (e, lookup) at h in cc
]

unmarshal-marshal_example :
    (s : Text) × (mp : Settings) × (marshal one_setting ≡ some s)
    × (unmarshal s ≡ some mp)
    × ((key : Text) → lookup key mp ≡ read_back_of (lookup key one_setting))
unmarshal-marshal_example = unmarshal-marshal one_setting one_setting-written

-- Settings with the zero value in every field.
abbrev zeroed : List Field → List (Field × Setting)
zeroed [] = []
zeroed (f ∷ fs) = (f, zero_of f.kind) ∷ zeroed fs

abbrev zero_settings : Builder
zero_settings = record { settings = zeroed rdp_fields; unset = codes "RedirectPrinters" ∷ [] }

are_short : List Field → Bool
are_short [] = true
are_short (f ∷ fs) =
    ltb (length (encode_runes (line f.tag (to_value (zero_of f.kind)) ++ b'\r' ∷ []))) 65536
    && are_short fs

zero_of-HasKind : (k : Kind) → HasKind k (zero_of k)
zero_of-HasKind a_bool = tt
zero_of-HasKind an_int = tt
zero_of-HasKind a_string = tt

zero_of-IsValue : (k : Kind) → IsValue (to_value (zero_of k))
unfolding trim_space trim_left trim_right
zero_of-IsValue a_bool = tt
zero_of-IsValue an_int = omega arith
zero_of-IsValue a_string = (refl, refl)

zeroed-AllValues : (fs : List Field) → are_short fs ≡ true → AllValues (zeroed fs)
unfolding are_short
zeroed-AllValues [] h = tt
zeroed-AllValues (f ∷ fs) h = (
  zero_of-HasKind f.kind,
  zero_of-IsValue f.kind,
  ground arith,
  zeroed-AllValues fs (ground arith),
)

rdp_fields-are_short : are_short rdp_fields ≡ true
unfolding are_short encode_runes encode_rune format_int itoa itoa_from
rdp_fields-are_short = refl

to_string-AllSay_example :
    (s : Text) × (mp : Settings) × (to_string zero_settings ≡ some s)
    × (unmarshal s ≡ some mp)
    × AllSay (codes "RedirectPrinters" ∷ []) mp (zeroed rdp_fields)
to_string-AllSay_example =
    to_string-AllSay zero_settings refl (zeroed-AllValues rdp_fields rdp_fields-are_short)

encoded : (n : ℕ) → length (encode_runes (replicate n b'x')) ≡ n
unfolding encode_runes encode_rune
encoded zero = refl
encoded (suc n) = ground (arith, encoded n)

without_feed : (n : ℕ) → lacks b'\n' (replicate n b'x') ≡ true
without_feed zero = refl
without_feed (suc n) = without_feed n

unmarshal_long_line_example :
    unmarshal
      (lines_before (codes "a:s:b" ∷ []) (replicate 65536 b'x' ++ b'\n' ∷ codes "malformed"))
    ≡ unmarshal (lines_before (codes "a:s:b" ∷ []) [])
unmarshal_long_line_example =
    unmarshal_long_line (codes "a:s:b" ∷ []) (replicate 65536 b'x') (codes "malformed") (refl, tt)
      (without_feed 65536) (omega (arith, encoded 65536))
