-- ===== src/Go/Digits.antt =====
-- strconv.Atoi reads back what strconv.Itoa writes.
use home_rdp_gateway.Base.{
  ℕ, zero, suc, ◌≡◌, refl, ap, ◌∙◌, ◌<◌, ◌+◌, ◌-◌, ◌*◌, ◌/◌, ◌%◌, ◌^◌, Bool, true, false, ◌&&◌,
  Bool-cases, inl, inr, [], ◌∷◌, all, ltb, leb, some, arith,
}
use home_rdp_gateway.Base.Texts.{Text}
use home_rdp_gateway.Base.Integers.{ℤ, pos, negsuc}
use home_rdp_gateway.Go.Strings.{is_empty}
use home_rdp_gateway.Go.Strconv.{itoa_from, itoa, digits_from, signed, atoi, format_int}

abbrev pub is_digit : ℕ → Bool
is_digit c = leb b'0' c && leb c b'9'

digits_from-digit :
    (m d : ℕ) (s : Text) → d < 10 → digits_from m ((b'0' + d) ∷ s) ≡ digits_from (10 * m + d) s
unfolding digits_from
digits_from-digit m d s l =
    let e : b'0' + d - b'0' ≡ d = omega arith in
    let digit : is_digit (b'0' + d) ≡ true = ground arith in
    rw digit (ap (λ v. digits_from (10 * m + v) s) e)

digits_from-itoa_from :
    (fuel n : ℕ) (acc : Text) → n < fuel → digits_from 0 (itoa_from fuel n acc) ≡ digits_from n acc
unfolding itoa_from
digits_from-itoa_from zero n acc l = absurd (omega arith)
digits_from-itoa_from (suc fuel) n acc l = elim (Bool-cases (ltb n 10)) [
  | inl e ↦
      rw e (
        digits_from-digit 0 (n % 10) acc (omega arith) ∙ ap (λ v. digits_from v acc) (ground arith))
  | inr e ↦ rw e (
      digits_from-itoa_from fuel (n / 10) ((b'0' + n % 10) ∷ acc) (ground arith)
      ∙ digits_from-digit (n / 10) (n % 10) acc (omega arith)
      ∙ ap (λ v. digits_from v acc) (omega arith))
]

pub digits-itoa : (n : ℕ) → digits_from 0 (itoa n) ≡ some n
unfolding itoa digits_from
digits-itoa n = digits_from-itoa_from (suc n) n [] (omega arith)

all_digits-itoa_from :
    (fuel n : ℕ) (acc : Text) → all is_digit acc ≡ true → all is_digit (itoa_from fuel n acc) ≡ true
unfolding itoa_from
all_digits-itoa_from zero n acc h = h
all_digits-itoa_from (suc fuel) n acc h =
    let digit : is_digit (b'0' + n % 10) ≡ true = ground arith in
    ground (arith, all_digits-itoa_from fuel (n / 10) ((b'0' + n % 10) ∷ acc) (ground arith))

pub all_digits-itoa : (n : ℕ) → all is_digit (itoa n) ≡ true
unfolding itoa
all_digits-itoa n = all_digits-itoa_from (suc n) n [] refl

-- The integers that an int of 64 bits holds.
abbrev pub IsInt : ℤ → Type 0
IsInt (pos n) = n < 2 ^ 63
IsInt (negsuc n) = n < 2 ^ 63

itoa_from-full :
    (fuel n : ℕ) (acc : Text) → is_empty acc ≡ false → is_empty (itoa_from fuel n acc) ≡ false
unfolding itoa_from
itoa_from-full zero n acc h = h
itoa_from-full (suc fuel) n acc h =
    ground (arith, itoa_from-full fuel (n / 10) ((b'0' + n % 10) ∷ acc) refl)

pub itoa-full : (n : ℕ) → is_empty (itoa n) ≡ false
unfolding itoa itoa_from
itoa-full n = ground (arith, itoa_from-full n (n / 10) ((b'0' + n % 10) ∷ []) refl)

signed-pos :
    (s : Text) (n : ℕ)
    → is_empty s ≡ false
    → digits_from 0 s ≡ some n
    → n < 2 ^ 63
    → signed false s ≡ some (pos n)
unfolding signed
signed-pos [] n f h l = cc
signed-pos (c ∷ s) n f h l =
    let small : leb (2 ^ 63) n ≡ false = ground arith in rw (h, signed) (rw small refl)

signed-negsuc :
    (s : Text) (n : ℕ)
    → is_empty s ≡ false
    → digits_from 0 s ≡ some (suc n)
    → n < 2 ^ 63
    → signed true s ≡ some (negsuc n)
unfolding signed
signed-negsuc [] n f h l = cc
signed-negsuc (c ∷ s) n f h l =
    let small : ltb (2 ^ 63) (suc n) ≡ false = ground arith in rw (h, signed) (rw small refl)

atoi-digits : (s : Text) → all is_digit s ≡ true → is_empty s ≡ false → atoi s ≡ signed false s
unfolding atoi
atoi-digits [] d f = refl
atoi-digits (c ∷ s) d f = ground arith

-- Atoi of what `%d` writes of an int is that int.
pub atoi-format_int : (z : ℤ) → IsInt z → atoi (format_int z) ≡ some z
unfolding format_int atoi
atoi-format_int (pos n) l =
    atoi-digits (itoa n) (all_digits-itoa n) (itoa-full n)
    ∙ signed-pos (itoa n) n (itoa-full n) (digits-itoa n) l
atoi-format_int (negsuc n) l =
    signed-negsuc (itoa (suc n)) n (itoa-full (suc n)) (digits-itoa (suc n)) l
