-- ===== src/Base/Assoc.antt =====
-- Maps with texts for keys: lists of pairs that hold a key at most once, as long as they are made here.
use home_rdp_gateway.Base.Tests.{if◌then◌else◌, Bool-cases}
use home_rdp_gateway.Base.Texts.{Text, text_eq, text_eq_iff}
use mathlib.Core.Path.{◌≡◌, sym, ◌∙◌}
use mathlib.Core.Logic.{inl, inr}
use mathlib.Core.Option.{Option, none, some}
use mathlib.Core.List.{List, [], ◌∷◌}
use native.Mathlib.Omega.{arith}

pub text_eq_sym : (s t : Text) → text_eq s t ≡ text_eq t s
text_eq_sym s t = elim (Bool-cases (text_eq s t)) [
  | inl e ↦ e ∙ sym ((text_eq_iff t s).1 (sym ((text_eq_iff s t).0 e)))
  | inr e ↦ elim (Bool-cases (text_eq t s)) [
    | inl f ↦ let g = (text_eq_iff s t).1 (sym ((text_eq_iff t s).0 f)) in cc
    | inr f ↦ e ∙ sym f
  ]
]

module _ {A : Type 0} where
  unfoldable pub lookup : Text → List (Text × A) → Option A
  lookup k [] = none
  lookup k ((j, a) ∷ m) = if text_eq j k then some a else lookup k m

  unfoldable pub erase : Text → List (Text × A) → List (Text × A)
  erase k [] = []
  erase k ((j, a) ∷ m) = let rest = erase k m in if text_eq j k then rest else (j, a) ∷ rest

  unfoldable pub assign : Text → A → List (Text × A) → List (Text × A)
  unfolding erase
  assign k a m = (k, a) ∷ erase k m

  pub lookup-erase :
      (j k : Text) (m : List (Text × A))
      → lookup j (erase k m) ≡ (if text_eq k j then none else lookup j m)
  unfolding lookup erase
  lookup-erase j k [] = ground arith
  lookup-erase j k ((i, a) ∷ m) = ground (
    arith,
    lookup-erase j k m,
    text_eq_iff i k,
    text_eq_iff k j,
    text_eq_iff i j,
    text_eq_sym k j,
  )

  pub lookup-assign :
      (j k : Text) (a : A) (m : List (Text × A))
      → lookup j (assign k a m) ≡ (if text_eq k j then some a else lookup j m)
  unfolding assign lookup
  lookup-assign j k a m = ground (arith, lookup-erase j k m)
