-- ===== src/Go/Trim.antt =====
-- What strings.TrimSpace leaves is trimmed.
use home_rdp_gateway.Base.{
  ◌≡◌, refl, ap, sym, ◌∙◌, ◌++◌, false, ◌&&◌, Bool-cases, inl, inr, [], ◌∷◌, arith,
}
use mathlib.Core.Path.{subst}
use home_rdp_gateway.Base.Texts.{Text}
use home_rdp_gateway.Go.Strings.{is_space, is_empty, trim_left, trim_right, trim_space}

-- The text does not begin with white space.
abbrev pub StartsInk : Text → Type 0
StartsInk [] = Unit
StartsInk (c ∷ s) = is_space c ≡ false

trim_left-StartsInk : (s : Text) → StartsInk (trim_left s)
unfolding trim_left
trim_left-StartsInk [] = tt
trim_left-StartsInk (c ∷ s) = elim (Bool-cases (is_space c)) [
  | inl e ↦ rw e (trim_left-StartsInk s)
  | inr e ↦ rw e e
]

pub trim_left-id : (s : Text) → StartsInk s → trim_left s ≡ s
unfolding trim_left
trim_left-id [] i = refl
trim_left-id (c ∷ s) i = rw i refl

trim_right-ink : (c : _) (s : Text) → is_space c ≡ false → trim_right (c ∷ s) ≡ c ∷ trim_right s
unfolding trim_right
trim_right-ink c s i = rw i refl

trim_right-StartsInk : (s : Text) → StartsInk s → StartsInk (trim_right s)
unfolding trim_right
trim_right-StartsInk [] i = tt
trim_right-StartsInk (c ∷ s) i = rw i i

trim_right_idem : (s : Text) → trim_right (trim_right s) ≡ trim_right s
unfolding trim_right
trim_right_idem [] = refl
trim_right_idem (c ∷ s) = elim (Bool-cases (is_space c && is_empty (trim_right s))) [
  | inl e ↦ rw e refl
  | inr e ↦ rw e (ground (arith, trim_right_idem s))
]

pub trim_space_idem : (s : Text) → trim_space (trim_space s) ≡ trim_space s
unfolding trim_space
trim_space_idem s =
    ap trim_right (
      trim_left-id (trim_right (trim_left s))
        (trim_right-StartsInk (trim_left s) (trim_left-StartsInk s)))
    ∙ trim_right_idem (trim_left s)

nonempty : (s e : Text) → is_empty e ≡ false → is_empty (s ++ e) ≡ false
nonempty [] e n = n
nonempty (c ∷ s) e n = refl

pub trim_right-append :
    (s e : Text) → is_empty e ≡ false → trim_right e ≡ e → trim_right (s ++ e) ≡ s ++ e
unfolding trim_right
trim_right-append [] e n t = t
trim_right-append (c ∷ s) e n t =
    let same = trim_right-append s e n t in
    let full : is_empty (trim_right (s ++ e)) ≡ false = ap is_empty same ∙ nonempty s e n in
    ground (arith, full, same)

-- A text that TrimSpace leaves as it is, by its two ends.
pub trimmed_ends : (s : Text) → trim_space s ≡ s → StartsInk s × (trim_right s ≡ s)
unfolding trim_space
trimmed_ends s h =
    let ink = subst StartsInk h (trim_right-StartsInk (trim_left s) (trim_left-StartsInk s)) in
    (ink, ap trim_right (sym (trim_left-id s ink)) ∙ h)

pub trimmed_from : (s : Text) → StartsInk s → trim_right s ≡ s → trim_space s ≡ s
unfolding trim_space
trimmed_from s i h = ap trim_right (trim_left-id s i) ∙ h

pub trim_right-mark :
    (c : _) (s : Text) → is_space c ≡ false → trim_right s ≡ s → trim_right (c ∷ s) ≡ c ∷ s
trim_right-mark c s i h = trim_right-ink c s i ∙ ap (λ t. c ∷ t) h
