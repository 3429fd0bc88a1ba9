-- ===== src/Dashboard/Entry/Laws.antt =====
-- Which entries a user sees.
use home_rdp_gateway.Base.{
  ◌≡◌, ◌↔◌, refl, sym, ap, ◌∙◌, inl, inr, Bool, true, false, not, ◌&&◌, Bool-cases, List, [], ◌∷◌,
  any, arith,
}
use mathlib.Core.Path.{subst}
use home_rdp_gateway.Base.Texts.{Text, text_eq, text_eq_iff}
use home_rdp_gateway.Base.Members.{IsIn, any_to, any_from}
use home_rdp_gateway.Go.Strings.{trim_space}
use home_rdp_gateway.Dashboard.Entry.{
  Entry, is_blank, group_names, is_visible, visible_among, visible_entries,
}

group_names-blank :
    (g : Text) (gs : List Text) → is_blank g ≡ true → group_names (g ∷ gs) ≡ group_names gs
unfolding group_names
group_names-blank g gs b = rw (b, group_names)

group_names-kept :
    (g : Text) (gs : List Text)
    → is_blank g ≡ false
    → group_names (g ∷ gs) ≡ trim_space g ∷ group_names gs
unfolding group_names
group_names-kept g gs b = rw (b, group_names)

group_names_to :
    (gs : List Text) (n : Text)
    → IsIn n (group_names gs)
    → (g : Text) × IsIn g gs × (n ≡ trim_space g)
unfolding group_names
group_names_to [] n m = absurd m
group_names_to (g ∷ gs) n m = elim (Bool-cases (is_blank g)) [
  | inl b ↦
      let (h, k, e) = group_names_to gs n (subst (IsIn n) (group_names-blank g gs b) m) in
      (h, inr k, e)
  | inr b ↦ elim (subst (IsIn n) (group_names-kept g gs b) m) [
    | inl e ↦ (g, inl refl, e)
    | inr m' ↦ let (h, k, e) = group_names_to gs n m' in (h, inr k, e)
  ]
]

group_names_from :
    (gs : List Text) (g : Text)
    → IsIn g gs
    → is_blank g ≡ false
    → IsIn (trim_space g) (group_names gs)
unfolding group_names
group_names_from [] g m b = absurd m
group_names_from (h ∷ gs) g (inl e) b =
    rw (group_names-kept h gs (ap is_blank (sym e) ∙ b)) (inl (ap trim_space e))
group_names_from (h ∷ gs) g (inr m) b = elim (Bool-cases (is_blank h)) [
  | inl c ↦ rw (group_names-blank h gs c) (group_names_from gs g m b)
  | inr c ↦ rw (group_names-kept h gs c) (inr (group_names_from gs g m b))
]

-- The entry is enabled and one of its groups is, up to white space around them, a group of the user and
-- not blank.
abbrev pub IsFor : List Text → Entry → Type 0
IsFor groups e =
    (e.enabled ≡ true)
    × ((g : Text) × IsIn g e.allowed_groups
        × (is_blank g ≡ false)
        × ((h : Text) × IsIn h groups × (trim_space h ≡ trim_space g)))

shares : List Text → Text → Bool
shares allowed g = not (is_blank g) && any (λ h. text_eq h (trim_space g)) allowed

pub is_visible_iff :
    (groups : List Text) (e : Entry) → (is_visible (group_names groups) e ≡ true) ↔ IsFor groups e
unfolding shares
is_visible_iff groups e = (
  (λ v.
      let (g, m, s) = any_to (shares (group_names groups)) e.allowed_groups (ground arith) in
      let (n, k, q) = any_to (λ h. text_eq h (trim_space g)) (group_names groups) (ground arith) in
      let (h, l, r) = group_names_to groups n k in
      (ground arith, (g, m, ground arith, (h, l, sym r ∙ (text_eq_iff _ _).0 q)))),
  (λ (on, (g, m, b, (h, l, q))).
      let blank : is_blank h ≡ false = rw q b in
      let k = group_names_from groups h l blank in
      let one =
        any_from (λ n. text_eq n (trim_space g)) (group_names groups) (trim_space h) k
          ((text_eq_iff _ _).1 q) in
      let all_of = any_from (shares (group_names groups)) e.allowed_groups g m (rw (b, one) refl) in
      rw (on, all_of) refl),
)

visible-shown :
    (allowed : List Text) (e : Entry) (es : List Entry)
    → is_visible allowed e ≡ true
    → visible_among allowed (e ∷ es) ≡ e ∷ visible_among allowed es
unfolding visible_among
visible-shown allowed e es v = rw (v, visible_among)

visible-hidden :
    (allowed : List Text) (e : Entry) (es : List Entry)
    → is_visible allowed e ≡ false
    → visible_among allowed (e ∷ es) ≡ visible_among allowed es
unfolding visible_among
visible-hidden allowed e es v = rw (v, visible_among)

among_to :
    (allowed : List Text) (es : List Entry) (e : Entry)
    → IsIn e (visible_among allowed es)
    → IsIn e es × (is_visible allowed e ≡ true)
unfolding visible_among
among_to allowed [] e m = absurd m
among_to allowed (x ∷ es) e m = elim (Bool-cases (is_visible allowed x)) [
  | inl v ↦ elim (subst (IsIn e) (visible-shown allowed x es v) m) [
    | inl q ↦ (inl q, ap (is_visible allowed) q ∙ v)
    | inr m' ↦ let (k, w) = among_to allowed es e m' in (inr k, w)
  ]
  | inr v ↦
      let (k, w) = among_to allowed es e (subst (IsIn e) (visible-hidden allowed x es v) m) in
      (inr k, w)
]

among_from :
    (allowed : List Text) (es : List Entry) (e : Entry)
    → IsIn e es
    → is_visible allowed e ≡ true
    → IsIn e (visible_among allowed es)
unfolding visible_among
among_from allowed [] e m v = absurd m
among_from allowed (x ∷ es) e (inl q) v =
    subst (IsIn e) (sym (visible-shown allowed x es (ap (is_visible allowed) (sym q) ∙ v))) (inl q)
among_from allowed (x ∷ es) e (inr m) v = elim (Bool-cases (is_visible allowed x)) [
  | inl w ↦ subst (IsIn e) (sym (visible-shown allowed x es w)) (inr (among_from allowed es e m v))
  | inr w ↦ subst (IsIn e) (sym (visible-hidden allowed x es w)) (among_from allowed es e m v)
]

-- An entry is among the visible ones exactly when it is among the entries, is enabled, and one of its
-- groups, not blank, is a group of the user, both without the white space around them.
pub visible_entries_iff :
    (entries : List Entry) (groups : List Text) (e : Entry)
    → IsIn e (visible_entries entries groups) ↔ (IsIn e entries × IsFor groups e)
unfolding visible_entries
visible_entries_iff entries groups e = (
  (λ m.
      let (k, v) = among_to (group_names groups) entries e m in (k, (is_visible_iff groups e).0 v)),
  (λ (k, f). among_from (group_names groups) entries e k ((is_visible_iff groups e).1 f)),
)
