-- ===== src/Web/Administrators.antt =====
-- The routes for administrators: AdminOnly of cmd/rdpgw/web/authz.go behind a user whose groups the
-- provider named.
use home_rdp_gateway.Base.{
  ◌≡◌, ◌↔◌, refl, sym, ap, ◌∙◌, Bool, true, false, not, ◌&&◌, some, List, any, if◌then◌else◌, arith,
}
use home_rdp_gateway.Base.Texts.{Text}
use home_rdp_gateway.Base.Members.{IsIn, any_to, any_from}
use mathlib.Core.Path.{subst}
use home_rdp_gateway.Go.Trim.{trim_space_idem}
use home_rdp_gateway.Go.Strings.{trim_space, is_empty}
use home_rdp_gateway.Identity.User.{User, in_group, set_groups}
use home_rdp_gateway.Identity.Groups.{IsNamed, in_group-set_groups_iff}
use home_rdp_gateway.Web.Middleware.{unauthorized, forbidden, passes, answers, is_admin, admin_only}

-- One of the administrators' groups, not blank, is one of the groups, both without the white space around
-- them.
abbrev pub IsAdministrator : List Text → List Text → Type 0
IsAdministrator admin_groups gs =
    (g : Text) × IsIn g admin_groups × (is_empty (trim_space g) ≡ false) × IsNamed (trim_space g) gs

-- The test of IsAdmin for one of the administrators' groups.
abbrev names : List Text → User → Text → Bool
names gs u g = not (is_empty (trim_space g)) && in_group (trim_space g) (set_groups gs u)

names-IsNamed :
    (gs : List Text) (u : User) (g : Text)
    → names gs u g ≡ true
    → (is_empty (trim_space g) ≡ false) × IsNamed (trim_space g) gs
names-IsNamed gs u g h =
    let (_, n) = (in_group-set_groups_iff (trim_space g) gs u).0 (ground arith) in
    (ground arith, subst (λ t. IsNamed t gs) (trim_space_idem g) n)

IsNamed-names :
    (gs : List Text) (u : User) (g : Text)
    → is_empty (trim_space g) ≡ false
    → IsNamed (trim_space g) gs
    → names gs u g ≡ true
IsNamed-names gs u g b n =
    let i = (in_group-set_groups_iff (trim_space g) gs u).1 (
      ap is_empty (trim_space_idem g) ∙ b,
      subst (λ t. IsNamed t gs) (sym (trim_space_idem g)) n,
    ) in
    ground arith

deciding :
    (a b : Bool) (v : User) {P : Type 0}
    → (b ≡ true → P)
    → (P → b ≡ true)
    → (((if not a then answers unauthorized else if b then passes v else answers forbidden)
          ≡ passes v)
        ↔ ((a ≡ true) × P))
      × (((if not a then answers unauthorized else if b then passes v else answers forbidden)
            ≡ answers forbidden)
          ↔ ((a ≡ true) × (P → ⊥)))
deciding false b v to from = ((λ h. cc, λ (e, p). cc), (λ h. cc, λ (e, p). cc))
deciding true true v to from =
    ((λ h. (refl, to refl), λ _. refl), (λ h. cc, λ (e, n). absurd (n (to refl))))
deciding true false v to from =
    ((λ h. cc, λ (e, p). let q = from p in cc), (λ h. (refl, λ p. let q = from p in cc), λ _. refl))

-- A route for administrators serves a user whose groups were set by SetGroups exactly when the user is
-- authenticated and one of the groups is one of the administrators', without the white space around them;
-- an authenticated user without one is answered "forbidden".
pub admin_only-set_groups :
    (admin_groups gs : List Text) (u : User)
    → ((admin_only admin_groups (some (set_groups gs u)) ≡ passes (set_groups gs u))
        ↔ ((u.authenticated ≡ true) × IsAdministrator admin_groups gs))
      × ((admin_only admin_groups (some (set_groups gs u)) ≡ answers forbidden)
          ↔ ((u.authenticated ≡ true) × (IsAdministrator admin_groups gs → ⊥)))
unfolding admin_only is_admin set_groups
admin_only-set_groups admin_groups gs u =
    let yes_if : any (names gs u) admin_groups ≡ true → IsAdministrator admin_groups gs = λ e.
      let (g, m, q) = any_to (names gs u) admin_groups e in
      let (b, n) = names-IsNamed gs u g q in (g, m, b, n) in
    let if_yes : IsAdministrator admin_groups gs → any (names gs u) admin_groups ≡ true =
      λ (g, m, b, n). any_from (names gs u) admin_groups g m (IsNamed-names gs u g b n) in
    deciding u.authenticated (any (names gs u) admin_groups) (set_groups gs u) yes_if if_yes
