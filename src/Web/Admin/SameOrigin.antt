-- ===== src/Web/Admin/SameOrigin.antt =====
-- What changes through the administration comes from the site itself.
use home_rdp_gateway.Base.{
  ◌≡◌, ◌≢◌, refl, [], ◌∷◌, ◌⊎◌, Bool, true, false, ◌||◌, Bool-cases, inl, inr, Option, none, some,
  Option-cases, if◌then◌else◌, arith,
}
use home_rdp_gateway.Base.Texts.{Text, text_eq, text_eq_iff, codes}
use home_rdp_gateway.Go.Strings.{is_empty, trim_space, to_lower}
use home_rdp_gateway.Web.Admin.Origin.{
  Url, Source, effective_origin_port, request_origin_url, request_referer_url,
  same_configured_origin, same_origin_allowed, with_host, same_origin_admin_request,
}
use home_rdp_gateway.Web.Admin.AuthUsers.{
  Administration, Answer, Circumstance, Call, lists_users, creates, updates, deletes, run_call,
  guarded, handle,
}

guarded-allowed :
    (allowed has_store has_path : Bool) (result : Administration × Answer) (a : Administration)
    → (guarded allowed has_store has_path result a).0 ≢ a
    → allowed ≡ true
guarded-allowed true has_store has_path result a n = refl
guarded-allowed false has_store has_path result a n = absurd (n refl)

handle-allowed :
    (allowed has_store has_path : Bool) (c : Circumstance) (call : Call) (a : Administration)
    → (handle allowed has_store has_path c call a).0 ≢ a
    → allowed ≡ true
unfolding handle run_call
handle-allowed allowed true has_path c lists_users a n = absurd (n refl)
handle-allowed allowed false has_path c lists_users a n = absurd (n refl)
handle-allowed allowed has_store has_path c (creates body) a n =
    guarded-allowed allowed has_store has_path (run_call c (creates body) a) a n
handle-allowed allowed has_store has_path c (updates name body) a n =
    guarded-allowed allowed has_store has_path (run_call c (updates name body) a) a n
handle-allowed allowed has_store has_path c (deletes name) a n =
    guarded-allowed allowed has_store has_path (run_call c (deletes name) a) a n

-- The header Origin names no page: it is "" or "null", or no address with a host.
abbrev pub NamesNoPage : (Text → Option Url) → Text → Type 0
NamesNoPage parse_url origin =
    (trim_space origin ≡ [])
    ⊎ (trim_space origin ≡ codes "null")
    ⊎ (parse_url (trim_space origin) ≡ none)
    ⊎ ((u : Url) × (parse_url (trim_space origin) ≡ some u) × (u.host ≡ []))

-- The header names the page that a request comes from.
abbrev pub ComesFrom : (Text → Option Url) → Source → Url → Type 0
ComesFrom parse_url r target =
    (parse_url (trim_space r.origin) ≡ some target)
    ⊎ (NamesNoPage parse_url r.origin × (parse_url (trim_space r.referer) ≡ some target))

-- The port of an address: the one that it names, else 443 for https, 80 for http, and none for another scheme.
abbrev pub IsPortOf : Url → Text → Type 0
IsPortOf u p =
    ((u.port ≢ []) × (p ≡ u.port))
    ⊎ ((u.port ≡ []) × (to_lower u.scheme ≡ codes "https") × (p ≡ codes "443"))
    ⊎ ((u.port ≡ []) × (to_lower u.scheme ≡ codes "http") × (p ≡ codes "80"))
    ⊎ ((u.port ≡ [])
        × (to_lower u.scheme ≢ codes "https")
        × (to_lower u.scheme ≢ codes "http")
        × (p ≡ []))

-- The page has the scheme of the gateway, if that names one, its host and its port.
abbrev pub IsOfGateway : (Text → Text → Bool) → Url → Url → Type 0
IsOfGateway equal_fold gateway target =
    (equal_fold target.scheme (if is_empty gateway.scheme then target.scheme else gateway.scheme)
      ≡ true)
    × (equal_fold target.hostname gateway.hostname ≡ true)
    × ((p : Text) × IsPortOf target p × IsPortOf gateway p)

scheme_differs : (s t : Text) → text_eq s t ≡ false → s ≢ t
scheme_differs s t h e =
    let same = (text_eq_iff s t).1 e in let bad : true ≡ false = ground arith in cc

without_port : (u : Url) → u.port ≡ [] → IsPortOf u (effective_origin_port u)
unfolding effective_origin_port
without_port u e =
    let scheme = to_lower u.scheme in
    elim (Bool-cases (text_eq scheme (codes "https"))) [
      | inl s ↦
          inr (
            inl
              (e, (text_eq_iff scheme (codes "https")).0 s, rw (e, s, effective_origin_port) refl))
      | inr n ↦ elim (Bool-cases (text_eq scheme (codes "http"))) [
        | inl s ↦ inr (
            inr (
              inl (
                e,
                (text_eq_iff scheme (codes "http")).0 s,
                rw (e, n, s, effective_origin_port) refl,
              )))
        | inr m ↦ inr (
            inr (
              inr (
                e,
                scheme_differs scheme (codes "https") n,
                scheme_differs scheme (codes "http") m,
                rw (e, n, m, effective_origin_port) refl,
              )))
      ]
    ]

is_empty-nil : (s : Text) → is_empty s ≡ true → s ≡ []
is_empty-nil [] h = refl
is_empty-nil (x ∷ s) h = cc

is_empty-full : (s : Text) → is_empty s ≡ false → s ≢ []
is_empty-full [] h = cc
is_empty-full (x ∷ s) h = cc

effective_origin_port-IsPortOf : (u : Url) → IsPortOf u (effective_origin_port u)
unfolding effective_origin_port
effective_origin_port-IsPortOf u = elim (Bool-cases (is_empty u.port)) [
  | inl e ↦ without_port u (is_empty-nil u.port e)
  | inr n ↦ inl (is_empty-full u.port n, rw (n, effective_origin_port) refl)
]

configured :
    (equal_fold : Text → Text → Bool) (gateway target : Url) (r : Source)
    → is_empty gateway.host ≡ false
    → same_origin_allowed equal_fold (some gateway) target r ≡ true
    → IsOfGateway equal_fold gateway target
unfolding same_origin_allowed same_configured_origin
configured equal_fold gateway target r full h =
    let ports = text_eq_iff (effective_origin_port target) (effective_origin_port gateway) in
    (
      ground arith,
      ground arith,
      (
        effective_origin_port target,
        effective_origin_port-IsPortOf target,
        rw (ports.0 (ground arith)) (effective_origin_port-IsPortOf gateway),
      ),
    )

with_host-some :
    (parse_url : Text → Option Url) (o : Option Url) (u : Url)
    → with_host parse_url o ≡ some u
    → o ≡ some u
with_host-some parse_url none u h = h
with_host-some parse_url (some v) u h = elim (Bool-cases (is_empty v.host)) [
  | inl e ↦ let bad : ◌≡◌ {A = Option Url} none (some u) = rw e at h in cc
  | inr e ↦ rw e at h
]

with_host-none :
    (parse_url : Text → Option Url) (o : Option Url)
    → with_host parse_url o ≡ none
    → (o ≡ none) ⊎ ((u : Url) × (o ≡ some u) × (u.host ≡ []))
with_host-none parse_url none h = inl refl
with_host-none parse_url (some v) h = elim (Bool-cases (is_empty v.host)) [
  | inl e ↦ inr (v, refl, is_empty-nil v.host e)
  | inr e ↦ let bad : ◌≡◌ {A = Option Url} (some v) none = rw e at h in cc
]

origin-none :
    (parse_url : Text → Option Url) (r : Source)
    → request_origin_url parse_url r ≡ none
    → NamesNoPage parse_url r.origin
unfolding request_origin_url
origin-none parse_url r h =
    let origin = trim_space r.origin in
    elim (Bool-cases (is_empty origin)) [
      | inl e ↦ inl (is_empty-nil origin e)
      | inr e ↦ elim (Bool-cases (text_eq origin (codes "null"))) [
        | inl n ↦ inr (inl ((text_eq_iff origin (codes "null")).0 n))
        | inr n ↦
            inr (
              inr
                (with_host-none parse_url (parse_url origin) (rw (e, n, request_origin_url) at h)))
      ]
    ]

origin-parsed :
    (parse_url : Text → Option Url) (r : Source) (u : Url)
    → request_origin_url parse_url r ≡ some u
    → parse_url (trim_space r.origin) ≡ some u
unfolding request_origin_url
origin-parsed parse_url r u h =
    elim (Bool-cases
      (is_empty (trim_space r.origin) || text_eq (trim_space r.origin) (codes "null"))) [
        | inl e ↦
            let bad : ◌≡◌ {A = Option Url} none (some u) = rw (e, request_origin_url) at h in cc
        | inr e ↦
            with_host-some parse_url (parse_url (trim_space r.origin)) u
              (rw (e, request_origin_url) at h)
      ]

referer-parsed :
    (parse_url : Text → Option Url) (r : Source) (u : Url)
    → request_referer_url parse_url r ≡ some u
    → parse_url (trim_space r.referer) ≡ some u
unfolding request_referer_url
referer-parsed parse_url r u h = elim (Bool-cases (is_empty (trim_space r.referer))) [
  | inl e ↦ let bad : ◌≡◌ {A = Option Url} none (some u) = rw (e, request_referer_url) at h in cc
  | inr e ↦
      with_host-some parse_url (parse_url (trim_space r.referer)) u
        (rw (e, request_referer_url) at h)
]

-- A request comes from a page of the gateway.
abbrev pub IsSameOrigin : (Text → Option Url) → (Text → Text → Bool) → Url → Source → Type 0
IsSameOrigin parse_url equal_fold gateway r =
    (target : Url) × ComesFrom parse_url r target × IsOfGateway equal_fold gateway target

same_origin_admin_request-IsSameOrigin :
    (parse_url : Text → Option Url) (equal_fold : Text → Text → Bool) (gateway : Url) (r : Source)
    → is_empty gateway.host ≡ false
    → same_origin_admin_request equal_fold parse_url (some gateway) r ≡ true
    → IsSameOrigin parse_url equal_fold gateway r
unfolding same_origin_admin_request
same_origin_admin_request-IsSameOrigin parse_url equal_fold gateway r full h =
    elim (Option-cases (request_origin_url parse_url r)) [
      | inr (target, e) ↦
          let allowed : same_origin_allowed equal_fold (some gateway) target r ≡ true =
            rw (e, same_origin_admin_request) at h in
          (
            target,
            inl (origin-parsed parse_url r target e),
            configured equal_fold gateway target r full allowed,
          )
      | inl n ↦ elim (Option-cases (request_referer_url parse_url r)) [
        | inr (target, e) ↦
            let allowed : same_origin_allowed equal_fold (some gateway) target r ≡ true =
              rw (n, e, same_origin_admin_request) at h in
            (
              target,
              inr (origin-none parse_url r n, referer-parsed parse_url r target e),
              configured equal_fold gateway target r full allowed,
            )
        | inl e ↦ let bad : false ≡ true = rw (n, e, same_origin_admin_request) at h in cc
      ]
    ]

-- Where the address of the gateway has a host, a request of whatever kind that changes the users, or the configuration of the
-- helper, comes from a page of the gateway: the header Origin or, if that names no page, Referer names a page of the scheme of the
-- gateway, if that names one, of its host and of its port, the port of the scheme where none is named.
pub handle-IsSameOrigin :
    (parse_url : Text → Option Url) (equal_fold : Text → Text → Bool) (gateway : Url) (r : Source)
    (has_store has_path : Bool) (c : Circumstance) (call : Call) (a : Administration)
    → is_empty gateway.host ≡ false
    → (handle
        (same_origin_admin_request equal_fold parse_url (some gateway) r)
        has_store
        has_path
        c
        call
        a).0
      ≢ a
    → IsSameOrigin parse_url equal_fold gateway r
handle-IsSameOrigin parse_url equal_fold gateway r has_store has_path c call a full changed =
    let allowed = same_origin_admin_request equal_fold parse_url (some gateway) r in
    same_origin_admin_request-IsSameOrigin parse_url equal_fold gateway r full
      (handle-allowed allowed has_store has_path c call a changed)
