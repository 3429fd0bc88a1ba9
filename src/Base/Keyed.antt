-- ===== src/Base/Keyed.antt =====
-- Lists of items that are found by a key, as the dashboard's stores keep them: the first item with a
-- key is the one that is found, replaced and removed.
use home_rdp_gateway.Base.Tests.{if◌then◌else◌, Bool-cases}
use home_rdp_gateway.Base.Texts.{Text, text_eq, text_eq_refl, text_eq_iff, text_eq_sound}
use mathlib.Core.Path.{◌≡◌, refl, sym, ◌∙◌, subst}
use mathlib.Core.Logic.{◌≢◌, inl, inr}
use mathlib.Core.Bool.{false}
use mathlib.Core.Option.{Option, none, some}
use mathlib.Core.List.{List, [], ◌∷◌, ◌++◌}
use native.Mathlib.Omega.{arith}

text_eq_ne : (s t : Text) → s ≢ t → text_eq s t ≡ false
text_eq_ne s t h = elim (Bool-cases (text_eq s t)) [
  | inl same ↦ absurd (h (text_eq_sound s t same))
  | inr other ↦ other
]

module _ {A : Type 0} (key : A → Text) where
  unfoldable pub find : Text → List A → Option A
  find k [] = none
  find k (x ∷ xs) = if text_eq (key x) k then some x else find k xs

  -- The first item with the key becomes `y`.
  unfoldable pub replace : Text → A → List A → List A
  replace k y [] = []
  replace k y (x ∷ xs) = if text_eq (key x) k then y ∷ xs else x ∷ replace k y xs

  unfoldable pub remove : Text → List A → List A
  remove k [] = []
  remove k (x ∷ xs) = if text_eq (key x) k then xs else x ∷ remove k xs

  -- No item has the key; each item's key is its own.
  abbrev pub IsAbsent : Text → List A → Type 0
  IsAbsent k [] = Unit
  IsAbsent k (x ∷ xs) = (key x ≢ k) × IsAbsent k xs

  abbrev pub AreDistinct : List A → Type 0
  AreDistinct [] = Unit
  AreDistinct (x ∷ xs) = IsAbsent (key x) xs × AreDistinct xs

  pub find-IsAbsent : (k : Text) (xs : List A) → find k xs ≡ none → IsAbsent k xs
  unfolding find
  find-IsAbsent k [] e = tt
  find-IsAbsent k (x ∷ xs) e = elim (Bool-cases (text_eq (key x) k)) [
    | inl same ↦ let found : some x ≡ none = rw (same, find) at e in cc
    | inr other ↦ (
      (λ q. let yes' = (text_eq_iff (key x) k).1 q in cc),
      find-IsAbsent k xs (rw (other, find) at e),
    )
  ]

  pub find-of_absent : (k : Text) (xs : List A) → IsAbsent k xs → find k xs ≡ none
  unfolding find
  find-of_absent k [] a = refl
  find-of_absent k (x ∷ xs) (n, a) = rw (text_eq_ne (key x) k n) (find-of_absent k xs a)

  pub find-replace_self :
      (k : Text) (x y : A) (xs : List A)
      → key y ≡ k
      → find k xs ≡ some x
      → find k (replace k y xs) ≡ some y
  unfolding find replace
  find-replace_self k x y [] e f = cc
  find-replace_self k x y (z ∷ xs) e f =
      ground (arith, text_eq_refl k, find-replace_self k x y xs e)

  pub find-replace_other :
      (k j : Text) (y : A) (xs : List A) → key y ≡ k → j ≢ k → find j (replace k y xs) ≡ find j xs
  unfolding find replace
  find-replace_other k j y [] e n = refl
  find-replace_other k j y (z ∷ xs) e n = ground (
    arith,
    text_eq_iff (key z) k,
    text_eq_iff (key z) j,
    text_eq_iff (key y) j,
    find-replace_other k j y xs e n,
  )

  pub find-append_self :
      (k : Text) (y : A) (xs : List A)
      → key y ≡ k
      → find k xs ≡ none
      → find k (xs ++ y ∷ []) ≡ some y
  unfolding find
  find-append_self k y [] e f = ground (arith, text_eq_refl k)
  find-append_self k y (z ∷ xs) e f = ground (arith, find-append_self k y xs e)

  pub find-append_other :
      (j : Text) (y : A) (xs : List A) → j ≢ key y → find j (xs ++ y ∷ []) ≡ find j xs
  unfolding find
  find-append_other j y [] n = ground (arith, text_eq_iff (key y) j)
  find-append_other j y (z ∷ xs) n = ground (arith, find-append_other j y xs n)

  pub find-remove_other : (k j : Text) (xs : List A) → j ≢ k → find j (remove k xs) ≡ find j xs
  unfolding find remove
  find-remove_other k j [] n = refl
  find-remove_other k j (z ∷ xs) n =
      ground (arith, text_eq_iff (key z) k, text_eq_iff (key z) j, find-remove_other k j xs n)

  pub find-remove_self : (k : Text) (xs : List A) → AreDistinct xs → find k (remove k xs) ≡ none
  unfolding find remove
  find-remove_self k [] d = refl
  find-remove_self k (z ∷ xs) (a, d) = elim (Bool-cases (text_eq (key z) k)) [
    | inl same ↦
        rw same (find-of_absent k xs (subst (λ t. IsAbsent t xs) (text_eq_sound _ _ same) a))
    | inr other ↦ rw (other, find) (rw other (find-remove_self k xs d))
  ]

  IsAbsent-replace :
      (k j : Text) (y : A) (xs : List A) → key y ≢ j → IsAbsent j xs → IsAbsent j (replace k y xs)
  unfolding replace
  IsAbsent-replace k j y [] n a = tt
  IsAbsent-replace k j y (z ∷ xs) n (m, a) = elim (Bool-cases (text_eq (key z) k)) [
    | inl same ↦ rw same (n, a)
    | inr other ↦ rw other (m, IsAbsent-replace k j y xs n a)
  ]

  IsAbsent-remove : (k j : Text) (xs : List A) → IsAbsent j xs → IsAbsent j (remove k xs)
  unfolding remove
  IsAbsent-remove k j [] a = tt
  IsAbsent-remove k j (z ∷ xs) (m, a) = elim (Bool-cases (text_eq (key z) k)) [
    | inl same ↦ rw same a
    | inr other ↦ rw other (m, IsAbsent-remove k j xs a)
  ]

  IsAbsent-append :
      (j : Text) (y : A) (xs : List A) → key y ≢ j → IsAbsent j xs → IsAbsent j (xs ++ y ∷ [])
  IsAbsent-append j y [] n a = (n, tt)
  IsAbsent-append j y (z ∷ xs) n (m, a) = (m, IsAbsent-append j y xs n a)

  pub AreDistinct-replace :
      (k : Text) (y : A) (xs : List A) → key y ≡ k → AreDistinct xs → AreDistinct (replace k y xs)
  unfolding replace
  AreDistinct-replace k y [] e d = tt
  AreDistinct-replace k y (z ∷ xs) e (a, d) = elim (Bool-cases (text_eq (key z) k)) [
    | inl same ↦ rw same (subst (λ t. IsAbsent t xs) (text_eq_sound _ _ same ∙ sym e) a, d)
    | inr other ↦ rw other (
      IsAbsent-replace k (key z) y xs (λ q. let same = (text_eq_iff (key z) k).1 (sym q ∙ e) in cc)
          a,
      AreDistinct-replace k y xs e d,
    )
  ]

  pub AreDistinct-append :
      (y : A) (xs : List A) → IsAbsent (key y) xs → AreDistinct xs → AreDistinct (xs ++ y ∷ [])
  AreDistinct-append y [] a d = (tt, tt)
  AreDistinct-append y (z ∷ xs) (n, a) (m, d) =
      (IsAbsent-append (key z) y xs (λ q. n (sym q)) m, AreDistinct-append y xs a d)

  pub AreDistinct-remove : (k : Text) (xs : List A) → AreDistinct xs → AreDistinct (remove k xs)
  unfolding remove
  AreDistinct-remove k [] d = tt
  AreDistinct-remove k (z ∷ xs) (a, d) = elim (Bool-cases (text_eq (key z) k)) [
    | inl same ↦ rw same d
    | inr other ↦ rw other (IsAbsent-remove k (key z) xs a, AreDistinct-remove k xs d)
  ]
