-- ===== src/Security/Hosts.antt =====
-- CheckHost of cmd/rdpgw/security/basic.go, on the hosts of cmd/rdpgw/dashboard/hosts.go.
use home_rdp_gateway.Base.{
  ◌≡◌, ◌↔◌, ◌⊎◌, inl, inr, refl, sym, ap, ◌∙◌, Bool, true, false, ◌&&◌, ◌||◌, Bool-cases,
  Option-cases, Option, none, some, List, [], ◌∷◌, any, if◌then◌else◌, arith,
}
use mathlib.Core.Path.{subst}
use home_rdp_gateway.Base.Texts.{Text, text_eq, text_eq_sound, text_eq_refl, codes}
use home_rdp_gateway.Go.Strings.{is_empty}
use home_rdp_gateway.Dashboard.Entry.{Entry, type_host}
use home_rdp_gateway.Base.Members.{IsIn, any_to, any_from}
use home_rdp_gateway.Security.HostTemplate.{resolve_preferred_username_host}
use home_rdp_gateway.Security.HostTemplate.Rendered.{
  IsResolved, resolve_preferred_username_host_iff,
}

abbrev pub is_enabled_host : Entry → Bool
is_enabled_host e = text_eq e.entry_type type_host && e.enabled

unfoldable pub enabled_host_addresses : List Entry → List Text
enabled_host_addresses [] = []
enabled_host_addresses (e ∷ es) =
    let rest = enabled_host_addresses es in if is_enabled_host e then e.host ∷ rest else rest

-- One round of the loop over the hosts.
abbrev pub resolves_to : Text → Text → Text → Bool
resolves_to username host h = elim (resolve_preferred_username_host h username) [
  | none ↦ false
  | some resolved ↦ text_eq resolved host
]

-- The selections that the switch leads to the loop, `signed` being refused on the way.
abbrev pub is_selection : Text → Bool
is_selection s =
    text_eq s (codes "any") || text_eq s (codes "roundrobin") || text_eq s (codes "unsigned")

abbrev is_none : List Text → Bool
is_none [] = true
is_none (h ∷ hs) = false

-- `none` is a ManagedHostList that is nil, `some none` one that returns an error.
unfoldable pub check_host : Option (Option (List Text)) → Text → Text → Text → Bool
check_host none selection username host = false
check_host (some none) selection username host = false
check_host (some (some hosts)) selection username host =
    if is_none hosts
    then false
    else if text_eq selection (codes "signed")
    then false
    else if is_selection selection
    then (if is_empty username then false else any (resolves_to username host) hosts)
    else false

host_to :
    (es : List Entry) (h : Text)
    → IsIn h (enabled_host_addresses es)
    → (e : Entry) × IsIn e es × (is_enabled_host e ≡ true) × (h ≡ e.host)
unfolding enabled_host_addresses
host_to [] h m = absurd m
host_to (e ∷ es) h m = elim (Bool-cases (is_enabled_host e)) [
  | inl v ↦
      let q : enabled_host_addresses (e ∷ es) ≡ e.host ∷ enabled_host_addresses es =
        rw (v, enabled_host_addresses) refl in
      elim (subst (IsIn h) q m) [
        | inl r ↦ (e, inl refl, v, r)
        | inr k ↦ let (x, i, w, q) = host_to es h k in (x, inr i, w, q)
      ]
  | inr v ↦
      let q : enabled_host_addresses (e ∷ es) ≡ enabled_host_addresses es =
        rw (v, enabled_host_addresses) refl in
      let (x, i, w, r) = host_to es h (subst (IsIn h) q m) in (x, inr i, w, r)
]

host_from :
    (es : List Entry) (e : Entry)
    → IsIn e es
    → is_enabled_host e ≡ true
    → IsIn e.host (enabled_host_addresses es)
unfolding enabled_host_addresses
host_from [] e m v = absurd m
host_from (x ∷ es) e (inl q) v =
    rw (ap is_enabled_host (sym q) ∙ v, enabled_host_addresses) (inl (ap (λ (y : Entry). y.host) q))
host_from (x ∷ es) e (inr m) v = elim (Bool-cases (is_enabled_host x)) [
  | inl w ↦ rw (w, enabled_host_addresses) (inr (host_from es e m v))
  | inr w ↦ rw (w, enabled_host_addresses) (host_from es e m v)
]

resolves_to_iff :
    (username host h : Text) → (resolves_to username host h ≡ true) ↔ IsResolved h username host
resolves_to_iff username host h = (
  (λ r. elim (Option-cases (resolve_preferred_username_host h username)) [
    | inl n ↦ let bad : false ≡ true = rw (n, resolves_to) at r in cc
    | inr (found, e) ↦
        let same : text_eq found host ≡ true = rw (e, resolves_to) at r in
        (resolve_preferred_username_host_iff h username host).0
          (e ∙ ap some (text_eq_sound found host same))
  ]),
  (λ v.
      rw ((resolve_preferred_username_host_iff h username host).1 v, resolves_to)
        (text_eq_refl host)),
)

-- Some entry is an enabled host whose address, with the user's name put in, is the host, a valid one.
abbrev pub IsManaged : List Entry → Text → Text → Type 0
IsManaged es username host =
    (e : Entry) × IsIn e es
    × (e.entry_type ≡ type_host)
    × (e.enabled ≡ true)
    × IsResolved e.host username host

any_iff :
    (es : List Entry) (username host : Text)
    → (any (resolves_to username host) (enabled_host_addresses es) ≡ true)
      ↔ IsManaged es username host
any_iff es username host = (
  (λ a.
      let (h, m, r) = any_to (resolves_to username host) (enabled_host_addresses es) a in
      let (e, k, v, q) = host_to es h m in
      let kind = text_eq_sound e.entry_type type_host (ground arith) in
      let resolved = ap (resolves_to username host) (sym q) ∙ r in
      (e, k, kind, ground arith, (resolves_to_iff username host e.host).0 resolved)),
  (λ (e, k, kind, enabled, resolved).
      let v : is_enabled_host e ≡ true = rw (kind, enabled) refl in
      any_from (resolves_to username host) (enabled_host_addresses es) e.host (host_from es e k v)
        ((resolves_to_iff username host e.host).1 resolved)),
)

some_host : (p : Text → Bool) (hs : List Text) → any p hs ≡ true → is_none hs ≡ false
some_host p [] a = cc
some_host p (h ∷ hs) a = refl

-- The selections with which CheckHost looks at the list of hosts.
abbrev pub IsListed : Text → Type 0
IsListed selection =
    (selection ≡ codes "any") ⊎ (selection ≡ codes "roundrobin") ⊎ (selection ≡ codes "unsigned")

is_selection-IsListed : (s : Text) → is_selection s ≡ true → IsListed s
is_selection-IsListed s h = elim (Bool-cases (text_eq s (codes "any"))) [
  | inl a ↦ inl (text_eq_sound s (codes "any") a)
  | inr a ↦ elim (Bool-cases (text_eq s (codes "roundrobin"))) [
    | inl r ↦ inr (inl (text_eq_sound s (codes "roundrobin") r))
    | inr r ↦ inr (inr (text_eq_sound s (codes "unsigned") (ground arith)))
  ]
]

IsListed-is_selection :
    (s : Text) → IsListed s → (text_eq s (codes "signed") ≡ false) × (is_selection s ≡ true)
IsListed-is_selection s (inl e) = rw e (refl, refl)
IsListed-is_selection s (inr (inl e)) = rw e (refl, refl)
IsListed-is_selection s (inr (inr e)) = rw e (refl, refl)

-- With the entries of the dashboard as the managed hosts, CheckHost accepts a host exactly when the
-- selection is `any`, `roundrobin` or `unsigned`, the user has a name, and the host is the address of
-- some enabled host entry with the user's name in the first place for it, without white space around it, and is not
-- empty, has no line break and no tab, and, where it has a colon, is a host and a port between 1 and 65535.
pub check_host_iff :
    (es : List Entry) (selection username host : Text)
    → (check_host (some (some (enabled_host_addresses es))) selection username host ≡ true)
      ↔ (IsListed selection × (is_empty username ≡ false) × IsManaged es username host)
unfolding check_host
check_host_iff es selection username host = (
  (λ c.
      let a : any (resolves_to username host) (enabled_host_addresses es) ≡ true = ground arith in
      (
        is_selection-IsListed selection (ground arith),
        ground arith,
        (any_iff es username host).0 a,
      )),
  (λ (listed, u, m).
      let (s, l) = IsListed-is_selection selection listed in
      let a = (any_iff es username host).1 m in
      rw (some_host (resolves_to username host) (enabled_host_addresses es) a, s, l, u) a),
)
