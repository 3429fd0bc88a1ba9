-- ===== src/Go/Strconv.antt =====
-- `strconv.Itoa` and `strconv.Atoi`.
use home_rdp_gateway.Base.{
  ℕ, zero, suc, ◌+◌, ◌-◌, ◌*◌, ◌/◌, ◌%◌, ◌^◌, [], ◌∷◌, ltb, leb, ◌==◌, Bool, true, false, ◌&&◌,
  ◌||◌, Option, none, some, if◌then◌else◌,
}
use home_rdp_gateway.Go.Strings.{is_empty}
use home_rdp_gateway.Base.Texts.{Text}
use home_rdp_gateway.Base.Integers.{ℤ, pos, negsuc}

unfoldable pub itoa_from : ℕ → ℕ → Text → Text
itoa_from zero n acc = acc
itoa_from (suc fuel) n acc =
    let digit = b'0' + n % 10 in
    let rest = itoa_from fuel (n / 10) (digit ∷ acc) in if ltb n 10 then digit ∷ acc else rest

-- A number has no more digits than it counts.
unfoldable pub itoa : ℕ → Text
unfolding itoa_from
itoa n = itoa_from (suc n) n []

-- The number that decimal digits spell, `none` where there are none or another sign stands among them.
unfoldable pub digits_from : ℕ → Text → Option ℕ
digits_from n [] = some n
digits_from n (c ∷ s) =
    let rest = digits_from (10 * n + (c - b'0')) s in
    if leb b'0' c && leb c b'9' then rest else none

-- `strconv.Atoi` of a text whose number is not negative; a minus sign gives `none`, as does a number
-- that an int cannot hold.
unfoldable pub atoi_natural : Text → Option ℕ
unfolding digits_from
atoi_natural [] = none
atoi_natural (c ∷ s) =
    let digits = if c == b'+' then s else c ∷ s in
    elim (digits_from 0 digits) [
      | none ↦ none
      | some n ↦ if is_empty digits || leb (2 ^ 63) n then none else some n
    ]

abbrev negated : ℕ → ℤ
negated zero = pos 0
negated (suc n) = negsuc n

-- The number of an int with a sign in front of its digits.
unfoldable pub signed : Bool → Text → Option ℤ
unfolding digits_from
signed minus [] = none
signed minus (c ∷ s) = elim (digits_from 0 (c ∷ s)) [
  | none ↦ none
  | some n ↦
      if minus
      then (if ltb (2 ^ 63) n then none else some (negated n))
      else if leb (2 ^ 63) n
      then none
      else some (pos n)
]

-- `strconv.Atoi`, of an int of 64 bits.
unfoldable pub atoi : Text → Option ℤ
unfolding signed
atoi [] = none
atoi (c ∷ s) =
    if c == b'-' then signed true s else if c == b'+' then signed false s else signed false (c ∷ s)

-- `%d` of an int.
unfoldable pub format_int : ℤ → Text
unfolding itoa
format_int (pos n) = itoa n
format_int (negsuc n) = b'-' ∷ itoa (suc n)
