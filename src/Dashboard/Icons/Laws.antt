-- ===== src/Dashboard/Icons/Laws.antt =====
-- Of the icons that can be read exactly one is active, unless there is none.
use home_rdp_gateway.Base.{
  ℕ, suc, ◌+◌, ◌≡◌, ◌⊎◌, inl, inr, refl, sym, ◌∙◌, true, not, ◌==◌, Bool-cases, some, List, [], ◌∷◌,
  ◌++◌, length, map, if◌then◌else◌, arith,
}
use mathlib.Core.Path.{subst}
use home_rdp_gateway.Base.Texts.{Text, text_eq, text_eq_iff}
use home_rdp_gateway.Base.Keyed.{
  find, remove, IsAbsent, AreDistinct, AreDistinct-append, AreDistinct-remove,
}
use home_rdp_gateway.Dashboard.File.{Reading, ok, failed, read_json}
use home_rdp_gateway.Dashboard.Icons.{
  Icon, FileIconStore, icon_id, is_safe_stored_icon, filter_safe_icons, read_icons, marked,
  mark_active, promote,
}

abbrev pub count_active : List Icon → ℕ
count_active [] = 0
count_active (i ∷ is) = if i.active then suc (count_active is) else count_active is

abbrev pub IsOneActive : List Icon → Type 0
IsOneActive is = (is ≡ []) ⊎ (count_active is ≡ 1)

-- The icons have identifiers of their own, and one of them is active.
abbrev pub IsGood : List Icon → Type 0
IsGood is = AreDistinct icon_id is × IsOneActive is

abbrev pub AreSafe : List Icon → Type 0
AreSafe [] = Unit
AreSafe (i ∷ is) = (is_safe_stored_icon i ≡ true) × AreSafe is

pub AreSafe-filter : (is : List Icon) → AreSafe (filter_safe_icons is)
unfolding filter_safe_icons
AreSafe-filter [] = tt
AreSafe-filter (i ∷ is) = elim (Bool-cases (is_safe_stored_icon i)) [
  | inl e ↦ rw (e, filter_safe_icons) (e, AreSafe-filter is)
  | inr e ↦ rw (e, filter_safe_icons) (AreSafe-filter is)
]

pub filter-append :
    (is js : List Icon) → AreSafe is → filter_safe_icons (is ++ js) ≡ is ++ filter_safe_icons js
unfolding filter_safe_icons
filter-append [] js a = refl
filter-append (i ∷ is) js (s, a) = rw (s, filter-append is js a, filter_safe_icons) refl

pub filter-id : (is : List Icon) → AreSafe is → filter_safe_icons is ≡ is
unfolding filter_safe_icons
filter-id [] a = refl
filter-id (i ∷ is) (s, a) = rw (s, filter-id is a, filter_safe_icons) refl

of_reading-AreSafe :
    (r : Reading Icon) (is : List Icon)
    → elim r [ failed e ↦ failed e | ok icons ↦ ok (filter_safe_icons icons) ] ≡ ok is
    → AreSafe is
of_reading-AreSafe (failed x) is e = cc
of_reading-AreSafe (ok icons) is e =
    let same : filter_safe_icons icons ≡ is = cc in subst AreSafe same (AreSafe-filter icons)

-- What is read is safe.
pub read_icons-AreSafe : (s : FileIconStore) (is : List Icon) → read_icons s ≡ ok is → AreSafe is
unfolding read_icons
read_icons-AreSafe s is e = of_reading-AreSafe (read_json s.metadata) is e

pub count-append :
    (is : List Icon) (i : Icon)
    → count_active (is ++ i ∷ []) ≡ count_active is + count_active (i ∷ [])
count-append [] i = omega arith
count-append (j ∷ is) i = ground (arith, count-append is i)

module _ (now : ℕ) (id : Text) where
  pub marked-id : (i : Icon) → (marked now id i).id ≡ i.id
  unfolding marked
  marked-id i = ground arith

  pub marked-active : (i : Icon) → (marked now id i).active ≡ text_eq i.id id
  unfolding marked
  marked-active i = ground arith

  marked-safe : (i : Icon) → is_safe_stored_icon (marked now id i) ≡ is_safe_stored_icon i
  unfolding marked is_safe_stored_icon
  marked-safe i = elim (Bool-cases (if text_eq i.id id then i.active else not i.active)) [
    | inl e ↦ rw e refl
    | inr e ↦ rw e refl
  ]

  mark-AreSafe : (is : List Icon) → AreSafe is → AreSafe (map (marked now id) is)
  mark-AreSafe [] a = tt
  mark-AreSafe (i ∷ is) (s, a) = (marked-safe i ∙ s, mark-AreSafe is a)

  mark-IsAbsent :
      (k : Text) (is : List Icon)
      → IsAbsent icon_id k is
      → IsAbsent icon_id k (map (marked now id) is)
  mark-IsAbsent k [] a = tt
  mark-IsAbsent k (i ∷ is) (n, a) = (λ e. n (sym (marked-id i) ∙ e), mark-IsAbsent k is a)

  mark-AreDistinct :
      (is : List Icon) → AreDistinct icon_id is → AreDistinct icon_id (map (marked now id) is)
  mark-AreDistinct [] d = tt
  mark-AreDistinct (i ∷ is) (a, d) = (
    subst (λ k. IsAbsent icon_id k (map (marked now id) is)) (sym (marked-id i))
        (mark-IsAbsent i.id is a),
    mark-AreDistinct is d,
  )

  mark-none : (is : List Icon) → IsAbsent icon_id id is → count_active (map (marked now id) is) ≡ 0
  mark-none [] a = refl
  mark-none (i ∷ is) (n, a) = ground (arith, mark-none is a, text_eq_iff i.id id, marked-active i)

  mark-one :
      (is : List Icon) (i : Icon)
      → AreDistinct icon_id is
      → find icon_id id is ≡ some i
      → count_active (map (marked now id) is) ≡ 1
  unfolding find
  mark-one [] i d f = cc
  mark-one (j ∷ is) i (a, d) f = elim (Bool-cases (text_eq j.id id)) [
    | inl e ↦
        let none' =
          mark-none is (subst (λ k. IsAbsent icon_id k is) ((text_eq_iff j.id id).0 e) a) in
        ground (arith, marked-active j)
    | inr e ↦ ground (arith, marked-active j, mark-one is i d)
  ]

removed :
    (id : Text) (is : List Icon) (i : Icon)
    → find icon_id id is ≡ some i
    → count_active is ≡ count_active (i ∷ []) + count_active (remove icon_id id is)
unfolding find remove
removed id [] i f = cc
removed id (j ∷ is) i f = ground (arith, removed id is i)

pub mark_active-AreSafe :
    (now : ℕ) (id : Text) (is : List Icon) → AreSafe is → AreSafe (mark_active now id is)
unfolding mark_active
mark_active-AreSafe now id is a = mark-AreSafe now id is a

remove-AreSafe : (id : Text) (is : List Icon) → AreSafe is → AreSafe (remove icon_id id is)
unfolding remove
remove-AreSafe id [] a = tt
remove-AreSafe id (i ∷ is) (s, a) = elim (Bool-cases (text_eq i.id id)) [
  | inl e ↦ rw e a
  | inr e ↦ rw e (s, remove-AreSafe id is a)
]

promote-AreSafe : (now : ℕ) (is : List Icon) → AreSafe is → AreSafe (promote now is)
unfolding is_safe_stored_icon
promote-AreSafe now [] a = tt
promote-AreSafe now (i ∷ is) (s, a) = (s, a)

-- The icons without the one with the identifier; the first becomes active where the one was.
abbrev pub left : ℕ → Text → Icon → List Icon → List Icon
left now id i is = if i.active then promote now (remove icon_id id is) else remove icon_id id is

pub left-AreSafe :
    (now : ℕ) (id : Text) (i : Icon) (is : List Icon) → AreSafe is → AreSafe (left now id i is)
left-AreSafe now id i is a = elim (Bool-cases i.active) [
  | inl e ↦ rw e (promote-AreSafe now (remove icon_id id is) (remove-AreSafe id is a))
  | inr e ↦ rw e (remove-AreSafe id is a)
]

pub IsGood-mark :
    (now : ℕ) (id : Text) (is : List Icon) (i : Icon)
    → IsGood is
    → find icon_id id is ≡ some i
    → IsGood (mark_active now id is)
unfolding mark_active
IsGood-mark now id is i (d, o) f = (mark-AreDistinct now id is d, inr (mark-one now id is i d f))

promote-IsOneActive :
    (now : ℕ) (is : List Icon) → count_active is ≡ 0 → IsOneActive (promote now is)
promote-IsOneActive now [] c = inl refl
promote-IsOneActive now (i ∷ is) c = inr (ground arith)

promote-AreDistinct :
    (now : ℕ) (is : List Icon) → AreDistinct icon_id is → AreDistinct icon_id (promote now is)
promote-AreDistinct now [] d = tt
promote-AreDistinct now (i ∷ is) (a, d) = (a, d)

found-one :
    (id : Text) (is : List Icon) (i : Icon)
    → IsOneActive is
    → find icon_id id is ≡ some i
    → count_active is ≡ 1
unfolding find
found-one id is i (inl e) f = let g : find icon_id id [] ≡ some i = rw e at f in cc
found-one id is i (inr c) f = c

pub IsGood-remove :
    (now : ℕ) (id : Text) (is : List Icon) (i : Icon)
    → IsGood is
    → find icon_id id is ≡ some i
    → IsGood (left now id i is)
IsGood-remove now id is i (d, o) f =
    let c = removed id is i f in
    let one = found-one id is i o f in
    let e = AreDistinct-remove icon_id id is d in
    elim (Bool-cases i.active) [
      | inl a ↦ rw a (
        promote-AreDistinct now (remove icon_id id is) e,
        promote-IsOneActive now (remove icon_id id is) (ground arith),
      )
      | inr a ↦ rw a (e, inr (ground arith))
    ]

one :
    (is : List Icon) (i : Icon)
    → IsOneActive is
    → i.active ≡ (length is == 0)
    → IsOneActive (is ++ i ∷ [])
one [] i o act = inr (ground arith)
one (j ∷ is) i (inl e) act = cc
one (j ∷ is) i (inr c) act = inr (ground (arith, count-append is i))

pub IsGood-append :
    (is : List Icon) (i : Icon)
    → IsGood is
    → IsAbsent icon_id i.id is
    → i.active ≡ (length is == 0)
    → IsGood (is ++ i ∷ [])
IsGood-append is i (d, o) a act = (AreDistinct-append icon_id i is a d, one is i o act)
