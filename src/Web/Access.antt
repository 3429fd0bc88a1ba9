-- ===== src/Web/Access.antt =====
-- What the handlers in front of a route let through: the middleware of the router and the header
-- authentication behind it, as the main function of cmd/rdpgw/main.go composes them.
use home_rdp_gateway.Base.{
  ℕ, ◌≡◌, ◌⊎◌, inl, inr, refl, sym, ap, ◌∙◌, Bool, true, false, not, ◌&&◌, Bool-cases, Option, none,
  some, if◌then◌else◌, arith,
}
use home_rdp_gateway.Base.Texts.{Text, codes}
use home_rdp_gateway.Go.Strings.{is_empty}
use home_rdp_gateway.Identity.User.{
  text, texts, User, new_user, set_attribute, attr_remote_addr, attr_client_ip, attr_proxies,
  attr_auth_source, auth_source_header,
}
use home_rdp_gateway.Web.TrustedProxy.{Checker, is_trusted_remote_addr, client_ip_and_proxies}
use home_rdp_gateway.Web.Middleware.{
  Session, broken, empty, holds, Request, header, Status, unauthorized, server_error, Passage,
  passes, answers, is_header_session, admit, enrich_context, HeaderConfig, optional, from_headers,
  header_authenticated,
}

-- The identity that the session of a request stands for.
abbrev pub session_user : Text → Session → Option User
session_user uuid broken = none
session_user uuid empty = some (new_user uuid)
session_user uuid (holds id) = some id

Passage-cases : (p : Passage) → ((u : User) × (p ≡ passes u)) ⊎ ((s : Status) × (p ≡ answers s))
Passage-cases (passes u) = inl (u, refl)
Passage-cases (answers s) = inr (s, refl)

-- The branches of Header.Authenticated: a trusted address, an authenticated user, a header that is empty
-- and a session that can be saved.
abbrev signing : Bool → Bool → Bool → Bool → User → User → Passage × Option User
signing t a n k id v =
    if not t
    then (answers unauthorized, none)
    else if a
    then (passes id, none)
    else if n
    then (answers unauthorized, none)
    else if k
    then (passes v, some v)
    else (answers server_error, none)

signing-passes :
    (t a n k : Bool) (id v u : User) (saved : Option User)
    → signing t a n k id v ≡ (passes u, saved)
    → (t ≡ true)
      × (((a ≡ true) × (u ≡ id) × (saved ≡ none)) ⊎ ((n ≡ false) × (u ≡ v) × (saved ≡ some u)))
signing-passes false a n k id v u saved h = cc
signing-passes true true n k id v u saved h = (refl, inl (refl, cc, cc))
signing-passes true false true k id v u saved h = cc
signing-passes true false false true id v u saved h = (refl, inr (refl, cc, cc))
signing-passes true false false false id v u saved h = cc

module _ (parse_ip : Text → Option Text) (checker : Checker) where
  -- A route behind the header authentication.
  unfoldable pub header_route : HeaderConfig → ℕ → Bool → Text → Request → Passage × Option User
  header_route c now saves uuid r = elim (enrich_context parse_ip checker uuid r) [
    | answers status ↦ (answers status, none)
    | passes id ↦ header_authenticated parse_ip checker c now saves r id
  ]

  -- What the middleware makes of an identity.
  abbrev pub enriched : Request → User → User
  enriched r id =
      let (ip, proxies) =
        client_ip_and_proxies parse_ip checker r.remote_addr (header (codes "X-Forwarded-For") r) in
      set_attribute attr_remote_addr (text r.remote_addr)
        (set_attribute attr_proxies (texts proxies) (set_attribute attr_client_ip (text ip) id))

  admit-passes :
      (r : Request) (id u : User)
      → admit parse_ip checker r id ≡ passes u
      → ((is_header_session id && not (is_trusted_remote_addr parse_ip checker r.remote_addr))
          ≡ false)
        × (u ≡ enriched r id)
  unfolding admit
  admit-passes r id u h =
      elim (Bool-cases
        (is_header_session id && not (is_trusted_remote_addr parse_ip checker r.remote_addr))) [
          | inl e ↦ let bad : answers unauthorized ≡ passes u = rw e at h in cc
          | inr e ↦ let good : passes (enriched r id) ≡ passes u = rw e at h in (e, cc)
        ]

  session-passes :
      (uuid : Text) (r : Request) (u : User) (s : Session)
      → elim s [
        | broken ↦ answers server_error
        | empty ↦ admit parse_ip checker r (new_user uuid)
        | holds id ↦ admit parse_ip checker r id
      ]
        ≡ passes u
      → (id : User) × (session_user uuid s ≡ some id)
        × ((is_header_session id && not (is_trusted_remote_addr parse_ip checker r.remote_addr))
            ≡ false)
        × (u ≡ enriched r id)
  session-passes uuid r u broken h = cc
  session-passes uuid r u empty h =
      let (a, b) = admit-passes r (new_user uuid) u h in (new_user uuid, refl, a, b)
  session-passes uuid r u (holds id) h = let (a, b) = admit-passes r id u h in (id, refl, a, b)

  pub enrich_context-passes :
      (uuid : Text) (r : Request) (u : User)
      → enrich_context parse_ip checker uuid r ≡ passes u
      → (id : User) × (session_user uuid r.session ≡ some id)
        × ((is_header_session id && not (is_trusted_remote_addr parse_ip checker r.remote_addr))
            ≡ false)
        × (u ≡ enriched r id)
  unfolding enrich_context
  enrich_context-passes uuid r u h = session-passes uuid r u r.session h

  -- The middleware leaves the mark of an authenticated user as it is.
  enriched-authenticated :
      (r : Request) (id : User) → (enriched r id).authenticated ≡ id.authenticated
  unfolding set_attribute
  enriched-authenticated r id = refl

  optional-keeps :
      (name : Text) (r : Request) (set : Text → User → User) (id : User)
      → ((v : Text) (u : User)
          → ((set v u).authenticated ≡ u.authenticated) × ((set v u).user_name ≡ u.user_name))
      → ((optional name r set id).authenticated ≡ id.authenticated)
        × ((optional name r set id).user_name ≡ id.user_name)
  optional-keeps name r set id k = let same = k (header name r) id in ground (arith)

  from_headers-signs_in :
      (c : HeaderConfig) (now : ℕ) (r : Request) (name : Text) (id : User)
      → ((from_headers c now r name id).authenticated ≡ true)
        × ((from_headers c now r name id).user_name ≡ name)
  unfolding from_headers set_attribute
  from_headers-signs_in c now r name id =
      let signed_in =
        set_attribute attr_auth_source (text auth_source_header)
          (record id { user_name = name; authenticated = true; auth_time = now }) in
      let with_id =
        optional c.user_id_header r (λ v u. set_attribute (codes "user_id") (text v) u) signed_in in
      let with_email = optional c.email_header r (λ v u. record u { email = v }) with_id in
      let (a, n) =
        optional-keeps c.user_id_header r (λ v u. set_attribute (codes "user_id") (text v) u)
          signed_in (λ v u. (refl, refl)) in
      let (b, m) =
        optional-keeps c.email_header r (λ v u. record u { email = v }) with_id
          (λ v u. (refl, refl)) in
      let (d, o) =
        optional-keeps c.display_name_header r (λ v u. record u { display_name = v }) with_email
          (λ v u. (refl, refl)) in
      (d ∙ b ∙ a, o ∙ m ∙ n)

  header_authenticated-passes :
      (c : HeaderConfig) (now : ℕ) (saves : Bool) (r : Request) (id u : User) (saved : Option User)
      → header_authenticated parse_ip checker c now saves r id ≡ (passes u, saved)
      → (is_trusted_remote_addr parse_ip checker r.remote_addr ≡ true)
        × (((id.authenticated ≡ true) × (u ≡ id) × (saved ≡ none))
            ⊎ ((is_empty (header c.user_header r) ≡ false)
                × (u ≡ from_headers c now r (header c.user_header r) id)
                × (saved ≡ some u)))
  unfolding header_authenticated
  header_authenticated-passes c now saves r id u saved h =
      signing-passes (is_trusted_remote_addr parse_ip checker r.remote_addr) id.authenticated
        (is_empty (header c.user_header r)) saves id
        (from_headers c now r (header c.user_header r) id) u saved h

  -- A route behind the header authentication is served only to a trusted address, and to an authenticated
  -- user: the one that the session holds, or the one that the header for user names gives, which is then
  -- not empty and is saved.
  pub header_route-IsTrusted :
      (c : HeaderConfig) (now : ℕ) (saves : Bool) (uuid : Text) (r : Request) (u : User)
      (saved : Option User)
      → header_route c now saves uuid r ≡ (passes u, saved)
      → (is_trusted_remote_addr parse_ip checker r.remote_addr ≡ true)
        × (u.authenticated ≡ true)
        × (((id : User) × (session_user uuid r.session ≡ some id)
              × (id.authenticated ≡ true)
              × (u ≡ enriched r id)
              × (saved ≡ none))
            ⊎ ((is_empty (header c.user_header r) ≡ false)
                × (u.user_name ≡ header c.user_header r)
                × (saved ≡ some u)))
  unfolding header_route set_attribute
  header_route-IsTrusted c now saves uuid r u saved h =
      elim (Passage-cases (enrich_context parse_ip checker uuid r)) [
        | inr (s, e) ↦
            let bad : (answers s, none) ≡ (passes u, saved) = rw (e, header_route) at h in cc
        | inl (v, e) ↦
            let served : header_authenticated parse_ip checker c now saves r v ≡ (passes u, saved) =
              rw (e, header_route) at h in
            let (id, found, sound, made) = enrich_context-passes uuid r v e in
            let (trusted, how) = header_authenticated-passes c now saves r v u saved served in
            elim how [
              | inl (a, same, unsaved) ↦ (
                trusted,
                ap (λ (w : User). w.authenticated) same ∙ a,
                inl (
                  id,
                  found,
                  sym (ap (λ (w : User). w.authenticated) made) ∙ a,
                  same ∙ made,
                  unsaved,
                ),
              )
              | inr (n, same, kept) ↦
                  let (signed, named) = from_headers-signs_in c now r (header c.user_header r) v in
                  (
                    trusted,
                    ap (λ (w : User). w.authenticated) same ∙ signed,
                    inr (n, ap (λ (w : User). w.user_name) same ∙ named, kept),
                  )
            ]
      ]
