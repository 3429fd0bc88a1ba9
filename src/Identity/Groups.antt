-- ===== src/Identity/Groups.antt =====
-- The groups of a user.
use home_rdp_gateway.Base.{
  ◌≡◌, ◌↔◌, ◌⊎◌, inl, inr, refl, sym, Bool, true, false, not, ◌&&◌, Bool-cases, none, some, List,
  [], ◌∷◌, any, if◌then◌else◌, arith,
}
use mathlib.Core.Path.{subst}
use home_rdp_gateway.Base.Texts.{Text, text_eq, text_eq_refl, text_eq_iff}
use home_rdp_gateway.Base.Assoc.{lookup, erase, assign, lookup-assign, lookup-erase}
use home_rdp_gateway.Base.Members.{IsIn, any_to, any_from}
use home_rdp_gateway.Go.Strings.{trim_space, is_empty}
use home_rdp_gateway.Identity.User.{
  User, text_leb, insert_text, sort_texts, members, groups, add_groups, set_groups, in_group,
}

-- The list names the group, with white space around it.
abbrev names : Text → Text → Bool
names name h = not (is_empty (trim_space h)) && text_eq (trim_space h) name

lookup-add_groups :
    (name : Text) (gs : List Text) (m : List (Text × Bool))
    → lookup name (add_groups gs m) ≡ (if any (names name) gs then some true else lookup name m)
unfolding add_groups
lookup-add_groups name [] m = refl
lookup-add_groups name (g ∷ gs) m = ground (
  arith,
  lookup-add_groups name gs m,
  lookup-add_groups name gs (assign (trim_space g) true m),
  lookup-assign name (trim_space g) true m,
)

-- One of the groups, not blank, is the group, both without the white space around them.
abbrev pub IsNamed : Text → List Text → Type 0
IsNamed name gs = (h : Text) × IsIn h gs × (is_empty (trim_space h) ≡ false) × (trim_space h ≡ name)

any-names_iff : (name : Text) (gs : List Text) → (any (names name) gs ≡ true) ↔ IsNamed name gs
any-names_iff name gs = (
  (λ a.
      let (h, m, q) = any_to (names name) gs a in
      (h, m, ground arith, (text_eq_iff (trim_space h) name).0 (ground arith))),
  (λ (h, m, b, e).
      let q = (text_eq_iff (trim_space h) name).1 e in any_from (names name) gs h m (ground arith)),
)

-- After SetGroups a user is in a group exactly when the group is not blank and one of the names that
-- were set is the group, both without the white space around them; the groups before do not matter.
pub in_group-set_groups_iff :
    (group : Text) (gs : List Text) (u : User)
    → (in_group group (set_groups gs u) ≡ true)
      ↔ ((is_empty (trim_space group) ≡ false) × IsNamed (trim_space group) gs)
unfolding in_group set_groups lookup
in_group-set_groups_iff group gs u =
    let name = trim_space group in
    let found = lookup-add_groups name gs [] in
    (
      (λ h.
          let a : any (names name) gs ≡ true = ground (arith, found) in
          (ground arith, (any-names_iff name gs).0 a)),
      (λ (b, n). let a = (any-names_iff name gs).1 n in ground (arith, found)),
    )

-- Each key is held once.
abbrev Unique : List (Text × Bool) → Type 0
Unique [] = Unit
Unique ((k, b) ∷ m) = (lookup k m ≡ none) × Unique m

erase-Unique : (k : Text) (m : List (Text × Bool)) → Unique m → Unique (erase k m)
unfolding erase
erase-Unique k [] u = tt
erase-Unique k ((j, b) ∷ m) (n, u) = elim (Bool-cases (text_eq j k)) [
  | inl e ↦ rw (e, erase) (erase-Unique k m u)
  | inr e ↦ rw (e, erase) (ground (arith, lookup-erase j k m), erase-Unique k m u)
]

add_groups-Unique : (gs : List Text) (m : List (Text × Bool)) → Unique m → Unique (add_groups gs m)
unfolding add_groups assign
add_groups-Unique [] m u = u
add_groups-Unique (g ∷ gs) m u = elim (Bool-cases (is_empty (trim_space g))) [
  | inl e ↦ rw e (add_groups-Unique gs m u)
  | inr e ↦ rw e (
      add_groups-Unique gs (assign (trim_space g) true m) (
        ground (arith, lookup-erase (trim_space g) (trim_space g) m, text_eq_refl (trim_space g)),
        erase-Unique (trim_space g) m u,
      ))
]

members_to :
    (m : List (Text × Bool)) (n : Text) → Unique m → IsIn n (members m) → lookup n m ≡ some true
unfolding members lookup
members_to [] n u i = absurd i
members_to ((k, true) ∷ m) n (a, u) (inl e) = ground (arith, (text_eq_iff k n).1 (sym e))
members_to ((k, true) ∷ m) n (a, u) (inr i) = ground (arith, members_to m n u i, text_eq_iff k n)
members_to ((k, false) ∷ m) n (a, u) i = ground (arith, members_to m n u i, text_eq_iff k n)

members_from : (m : List (Text × Bool)) (n : Text) → lookup n m ≡ some true → IsIn n (members m)
unfolding members lookup
members_from [] n e = cc
members_from ((k, true) ∷ m) n e = elim (Bool-cases (text_eq k n)) [
  | inl q ↦ inl (sym ((text_eq_iff k n).0 q))
  | inr q ↦ inr (members_from m n (ground arith))
]
members_from ((k, false) ∷ m) n e = members_from m n (ground arith)

insert_text_to : (s n : Text) (ts : List Text) → IsIn n (insert_text s ts) → (n ≡ s) ⊎ IsIn n ts
unfolding insert_text
insert_text_to s n [] i = i
insert_text_to s n (t ∷ ts) i = elim (Bool-cases (text_leb s t)) [
  | inl e ↦ subst (λ (b : Bool). IsIn n (if b then s ∷ t ∷ ts else t ∷ insert_text s ts)) e i
  | inr e ↦
      elim (subst (λ (b : Bool). IsIn n (if b then s ∷ t ∷ ts else t ∷ insert_text s ts)) e i) [
        | inl q ↦ inr (inl q)
        | inr j ↦ elim (insert_text_to s n ts j) [ inl q ↦ inl q | inr k ↦ inr (inr k) ]
      ]
]

insert_text_from : (s n : Text) (ts : List Text) → (n ≡ s) ⊎ IsIn n ts → IsIn n (insert_text s ts)
unfolding insert_text
insert_text_from s n [] i = i
insert_text_from s n (t ∷ ts) i = elim (Bool-cases (text_leb s t)) [
  | inl e ↦ rw e i
  | inr e ↦ rw e (elim i [
    | inl q ↦ inr (insert_text_from s n ts (inl q))
    | inr j ↦ elim j [ inl q ↦ inl q | inr k ↦ inr (insert_text_from s n ts (inr k)) ]
  ])
]

sort_texts_iff : (n : Text) (ts : List Text) → IsIn n (sort_texts ts) ↔ IsIn n ts
unfolding sort_texts
sort_texts_iff n [] = (λ i. i, λ i. i)
sort_texts_iff n (t ∷ ts) = (
  (λ i. elim (insert_text_to t n (sort_texts ts) i) [
    | inl q ↦ inl q
    | inr j ↦ inr ((sort_texts_iff n ts).0 j)
  ]),
  (λ i. elim i [
    | inl q ↦ insert_text_from t n (sort_texts ts) (inl q)
    | inr j ↦ insert_text_from t n (sort_texts ts) (inr ((sort_texts_iff n ts).1 j))
  ]),
)

-- The groups that a user reports after SetGroups are the names that were set, without the white space
-- around them and without the blank ones.
pub groups-set_groups_iff :
    (name : Text) (gs : List Text) (u : User)
    → IsIn name (groups (set_groups gs u)) ↔ IsNamed name gs
unfolding groups set_groups lookup
groups-set_groups_iff name gs u =
    let m = add_groups gs [] in
    let found = lookup-add_groups name gs [] in
    (
      (λ i.
          let e =
            members_to m name (add_groups-Unique gs [] tt)
              ((sort_texts_iff name (members m)).0 i) in
          (any-names_iff name gs).0 (ground (arith, found))),
      (λ n.
          let a = (any-names_iff name gs).1 n in
          (sort_texts_iff name (members m)).1 (members_from m name (ground (arith, found)))),
    )
