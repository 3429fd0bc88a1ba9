-- ===== src/Rdp/Lines.antt =====
-- One line of an RDP file, written and read back.
use home_rdp_gateway.Base.{
  ℕ, suc, ◌≡◌, refl, ap, Bool, true, false, not, ◌==◌, some, [], ◌∷◌, ◌++◌, all, arith,
}
use home_rdp_gateway.Base.Texts.{Text, codes}
use home_rdp_gateway.Base.Integers.{pos, negsuc}
use home_rdp_gateway.Go.Strings.{is_space, is_empty, has_prefix, trim_space, trim_right, cut}
use home_rdp_gateway.Go.Trim.{StartsInk, trimmed_from, trim_right-mark}
use home_rdp_gateway.Go.Strconv.{itoa, atoi, format_int}
use home_rdp_gateway.Go.Digits.{is_digit, all_digits-itoa, IsInt, atoi-format_int}
use home_rdp_gateway.Rdp.Parser.{
  Value, truth, number, text, other, split_lines, drop_cr, parse_value, print_value,
}

abbrev pub lacks : ℕ → Text → Bool
lacks sep = all (λ c. not (c == sep))

pub lacks-append :
    (sep : ℕ) (s t : Text) → lacks sep s ≡ true → lacks sep t ≡ true → lacks sep (s ++ t) ≡ true
lacks-append sep [] t h k = k
lacks-append sep (c ∷ s) t h k = ground (arith, lacks-append sep s t)

pub cut-lacks : (sep : ℕ) (s t : Text) → lacks sep s ≡ true → cut sep (s ++ sep ∷ t) ≡ some (s, t)
unfolding cut
cut-lacks sep [] t h = ground arith
cut-lacks sep (c ∷ s) t h =
    let other_mark : (c == sep) ≡ false = ground arith in
    rw (other_mark, cut-lacks sep s t (ground arith)) refl

pub split_lines-lacks :
    (s t : Text) → lacks b'\n' s ≡ true → split_lines (s ++ b'\n' ∷ t) ≡ s ∷ split_lines t
unfolding split_lines
split_lines-lacks [] t h = refl
split_lines-lacks (c ∷ s) t h =
    let other_mark : (c == b'\n') ≡ false = ground arith in
    rw (other_mark, split_lines-lacks s t (ground arith)) refl

pub drop_cr-append : (s : Text) → drop_cr (s ++ b'\r' ∷ []) ≡ s
unfolding drop_cr
drop_cr-append [] = refl
drop_cr-append (c ∷ []) = refl
drop_cr-append (c ∷ d ∷ s) = ap (λ t. c ∷ t) (drop_cr-append (d ∷ s))

-- Keys that the format can hold: not blank, without white space around them, a colon or a line feed, and not with `#` in front.
abbrev pub IsKey : Text → Type 0
IsKey key =
    (is_empty key ≡ false)
    × (trim_space key ≡ key)
    × (lacks b':' key ≡ true)
    × (lacks b'\n' key ≡ true)
    × (has_prefix key (codes "#") ≡ false)

-- Values that it can hold.
abbrev pub IsValue : Value → Type 0
IsValue (truth b) = Unit
IsValue (number n) = IsInt n
IsValue (text v) = (trim_space v ≡ v) × (lacks b'\n' v ≡ true)
IsValue other = ⊥

-- What a value is read back as.
abbrev pub read_back : Value → Value
read_back (truth true) = number (pos 1)
read_back (truth false) = number (pos 0)
read_back (number n) = number n
read_back (text v) = text v
read_back other = other

-- The letter of its type and its text.
abbrev pub tag : Value → ℕ
tag (truth b) = b'i'
tag (number n) = b'i'
tag (text v) = b's'
tag other = b's'

abbrev pub digits : Value → Text
digits (truth true) = codes "1"
digits (truth false) = codes "0"
digits (number n) = format_int n
digits (text v) = v
digits other = []

pub print_value-written :
    (v : Value) → IsValue v → print_value v ≡ some (b':' ∷ tag v ∷ b':' ∷ digits v)
unfolding print_value
print_value-written (truth true) h = refl
print_value-written (truth false) h = refl
print_value-written (number n) h = refl
print_value-written (text v) h = refl
print_value-written other h = absurd h

digits-ink : (s : Text) → all is_digit s ≡ true → StartsInk s
digits-ink [] h = tt
digits-ink (c ∷ s) h = ground arith

digits-right : (s : Text) → all is_digit s ≡ true → trim_right s ≡ s
unfolding trim_right
digits-right [] h = refl
digits-right (c ∷ s) h =
    let ink : is_space c ≡ false = ground arith in rw (ink, digits-right s (ground arith)) refl

digits-lacks : (s : Text) → all is_digit s ≡ true → lacks b'\n' s ≡ true
digits-lacks [] h = refl
digits-lacks (c ∷ s) h = ground (arith, digits-lacks s)

-- The text of a value is one that TrimSpace leaves as it is, on one line.
pub digits-IsText :
    (v : Value) → IsValue v → (trim_space (digits v) ≡ digits v) × (lacks b'\n' (digits v) ≡ true)
unfolding trim_space trim_right format_int
digits-IsText (truth true) h = (refl, refl)
digits-IsText (truth false) h = (refl, refl)
digits-IsText (number (pos n)) h =
    let d = all_digits-itoa n in
    (
      trimmed_from (itoa n) (digits-ink (itoa n) d) (digits-right (itoa n) d),
      digits-lacks (itoa n) d,
    )
digits-IsText (number (negsuc n)) h =
    let d = all_digits-itoa (suc n) in
    (
      trimmed_from (b'-' ∷ itoa (suc n)) refl
          (trim_right-mark b'-' (itoa (suc n)) refl (digits-right (itoa (suc n)) d)),
      digits-lacks (itoa (suc n)) d,
    )
digits-IsText (text v) h = h
digits-IsText other h = absurd h

pub parse_value-digits :
    (v : Value) → IsValue v → parse_value (tag v ∷ []) (digits v) ≡ some (read_back v)
unfolding parse_value atoi
parse_value-digits (truth true) h = refl
parse_value-digits (truth false) h = refl
parse_value-digits (number n) h = rw (atoi-format_int n h, parse_value) refl
parse_value-digits (text v) h = refl
parse_value-digits other h = absurd h
