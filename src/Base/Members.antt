-- ===== src/Base/Members.antt =====
-- Membership in a list, and the Boolean test for a member with a property.
use home_rdp_gateway.Base.Tests.{Bool-cases}
use home_rdp_gateway.Base.Lists.{any}
use mathlib.Core.Path.{◌≡◌, refl, ap}
use mathlib.Core.Logic.{◌⊎◌, inl, inr}
use mathlib.Core.Bool.{Bool, true}
use mathlib.Core.List.{List, [], ◌∷◌}
use native.Mathlib.Omega.{arith}

-- `x` is a member of the list.
abbrev pub IsIn : {A : Type 0} → A → List A → Type 0
IsIn x [] = ⊥
IsIn x (y ∷ ys) = (x ≡ y) ⊎ IsIn x ys

pub any_to :
    {A : Type 0} (p : A → Bool) (xs : List A) → any p xs ≡ true → (x : A) × IsIn x xs × (p x ≡ true)
any_to p [] h = cc
any_to p (x ∷ xs) h = elim (Bool-cases (p x)) [
  | inl h1 ↦ (x, inl refl, h1)
  | inr h2 ↦ let (y, m, q) = any_to p xs (ground arith) in (y, inr m, q)
]

pub any_from :
    {A : Type 0} (p : A → Bool) (xs : List A) (x : A) → IsIn x xs → p x ≡ true → any p xs ≡ true
any_from p [] x m q = absurd m
any_from p (y ∷ ys) x (inl e) q = ground (arith, ap p e)
any_from p (y ∷ ys) x (inr m) q = ground (arith, any_from p ys x m q)
