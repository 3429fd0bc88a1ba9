-- ===== src/Web/Oidc/SignIn.antt =====
-- Who is signed in by HandleCallback of cmd/rdpgw/web/oidc.go.
use home_rdp_gateway.Base.{
  ℕ, ◌≡◌, ◌<◌, ◌≤◌, ◌⊎◌, inl, inr, Option-cases, refl, sym, ap, ◌∙◌, Bool, true, false, not, Option,
  none, some, [], arith,
}
use home_rdp_gateway.Base.Texts.{Text, text_eq, text_eq_iff, codes}
use home_rdp_gateway.Base.Assoc.{lookup}
use home_rdp_gateway.Base.Options.{demand, chain-some, demand-some, demand-true}
use home_rdp_gateway.Go.Strings.{is_empty}
use home_rdp_gateway.Identity.User.{User, set_attribute, add_groups, set_groups}
use home_rdp_gateway.Web.Oidc.Transactions.{
  Transaction, ConsumedStates, read_transaction, Consumed, failed, unknown, found, consume, Uri,
  safe_redirect_url,
}
use home_rdp_gateway.Web.Oidc.Claims.{
  Claims, text_claim, find_username_in_claims, extract_groups, default_claim, with_email,
  with_display_name, populate_identity,
}
use home_rdp_gateway.Web.Oidc.Callback.{
  OauthToken, Provider, checked_nonce, signed_in, sign_in, redirects, Callback, save_identity,
  complete, handle_callback,
}
use home_rdp_gateway.Web.Oidc.Replay.{Attempt, consume-found, not_early, get_transaction-some}

-- The provider gave a token for the code and the verifier of the transaction, with an ID token that it
-- verifies and that holds the claims.
pub data Vouches (p : Provider) : Text → Text → OauthToken → Claims → Type 0 where
  vouched :
      (auth_code verifier : Text) (token : OauthToken) (raw id_token payload : Text)
      (claims : Claims)
      → p.exchange auth_code verifier ≡ some token
      → token.id_token ≡ some raw
      → p.verify raw ≡ some id_token
      → p.payload id_token ≡ some payload
      → p.unmarshal_claims payload ≡ some claims
      → Vouches p auth_code verifier token claims

-- The user is the one of the claims, who is authenticated now by the provider.
abbrev pub IsUserOf : Claims → Text → ℕ → User → Type 0
IsUserOf claims groups_claim now user =
    (user.authenticated ≡ true)
    × (user.auth_time ≡ now)
    × (user.user_name ≡ find_username_in_claims claims)
    × (is_empty user.user_name ≡ false)
    × (user.group_membership
        ≡ add_groups (extract_groups (lookup (default_claim groups_claim) claims)) [])

with_email-user_name :
    (email : Option Text) (u : User) → (with_email email u).user_name ≡ u.user_name
with_email-user_name none u = refl
with_email-user_name (some e) u = refl

with_display_name-user_name :
    (a b : Option Text) (u : User) → (with_display_name a b u).user_name ≡ u.user_name
with_display_name-user_name (some n) b u = refl
with_display_name-user_name none (some n) u = refl
with_display_name-user_name none none u = refl

some_inj : {A : Type 0} {a b : A} → ◌≡◌ {A = Option A} (some a) (some b) → a ≡ b
some_inj h = cc

populate_identity-some :
    (claims : Claims) (groups_claim : Text) (id user : User)
    → populate_identity claims groups_claim id ≡ some user
    → (user.user_name ≡ find_username_in_claims claims)
      × (is_empty user.user_name ≡ false)
      × (user.group_membership
          ≡ add_groups (extract_groups (lookup (default_claim groups_claim) claims)) [])
unfolding populate_identity set_groups
populate_identity-some claims groups_claim id user h =
    let (named, k) = demand-some (not (is_empty (find_username_in_claims claims))) _ user h in
    let e = some_inj k in
    let email = text_claim claims (codes "email") in
    let shown = text_claim claims (codes "name") in
    let other_name = text_claim claims (codes "display_name") in
    let base : User = record id { user_name = find_username_in_claims claims } in
    let n : user.user_name ≡ find_username_in_claims claims =
      sym (ap (λ (u : User). u.user_name) e)
      ∙ with_display_name-user_name shown other_name (with_email email base)
      ∙ with_email-user_name email base in
    (n, rw n (ground arith), sym (ap (λ (u : User). u.group_membership) e))

checked_nonce-some :
    (t : Transaction) (claims : Claims) (b : Bool)
    → checked_nonce t claims ≡ some b
    → text_claim claims (codes "nonce") ≡ some t.nonce
unfolding checked_nonce
checked_nonce-some t claims b h =
    let (nonce, e, k) =
      chain-some (text_claim claims (codes "nonce")) (λ n. demand (text_eq n t.nonce)) b h in
    let same = demand-true (text_eq nonce t.nonce) b k in
    rw (sym ((text_eq_iff nonce t.nonce).0 same)) e

signed_in-IsUserOf :
    (claims : Claims) (groups_claim : Text) (now : ℕ) (access_token : Text) (id u user : User)
    → populate_identity claims groups_claim id ≡ some u
    → ◌≡◌ {A = Option User} (some (signed_in now access_token u)) (some user)
    → IsUserOf claims groups_claim now user
unfolding signed_in set_attribute
signed_in-IsUserOf claims groups_claim now access_token id u user h k =
    let e = some_inj k in
    let (n, ne, g) = populate_identity-some claims groups_claim id u h in
    let name = sym (ap (λ (w : User). w.user_name) e) in
    (
      sym (ap (λ (w : User). w.authenticated) e),
      sym (ap (λ (w : User). w.auth_time) e),
      name ∙ n,
      rw name ne,
      sym (ap (λ (w : User). w.group_membership) e) ∙ g,
    )

-- A sign-in that succeeds was vouched for, for the verifier of the transaction, with its nonce.
sign_in-some :
    (p : Provider) (groups_claim : Text) (now : ℕ) (auth_code : Text) (t : Transaction)
    (id user : User)
    → sign_in p groups_claim now auth_code t id ≡ some user
    → (token : OauthToken) × (claims : Claims) × Vouches p auth_code t.code_verifier token claims
      × (is_empty t.code_verifier ≡ false)
      × (text_claim claims (codes "nonce") ≡ some t.nonce)
      × IsUserOf claims groups_claim now user
unfolding sign_in
sign_in-some p groups_claim now auth_code t id user h =
    let (v, h1) = demand-some (not (is_empty t.code_verifier)) _ user h in
    let (token, e1, h2) = chain-some (p.exchange auth_code t.code_verifier) _ user h1 in
    let (raw, e2, h3) = chain-some token.id_token _ user h2 in
    let (id_token, e3, h4) = chain-some (p.verify raw) _ user h3 in
    let (payload, e4, h5) = chain-some (p.payload id_token) _ user h4 in
    let (claims, e5, h6) = chain-some (p.unmarshal_claims payload) _ user h5 in
    let (checked, e6, h7) = chain-some (checked_nonce t claims) _ user h6 in
    let (u, e7, h8) = chain-some (populate_identity claims groups_claim id) _ user h7 in
    (
      token,
      claims,
      vouched auth_code t.code_verifier token raw id_token payload claims e1 e2 e3 e4 e5,
      ground arith,
      checked_nonce-some t claims checked e6,
      signed_in-IsUserOf claims groups_claim now token.access_token id u user e7 h8,
    )

save_identity-some :
    (p : Provider) (parse_uri : Text → Option Uri) (groups_claim : Text) (t : Transaction)
    (saves : Bool) (o : Option User) (user : User)
    → (save_identity p parse_uri groups_claim t saves o).1 ≡ some user
    → (o ≡ some user)
      × ((save_identity p parse_uri groups_claim t saves o).0
          ≡ redirects (safe_redirect_url parse_uri t.redirect_url))
unfolding save_identity
save_identity-some p parse_uri groups_claim t true (some u) user h = (h, refl)
save_identity-some p parse_uri groups_claim t false (some u) user h = cc
save_identity-some p parse_uri groups_claim t saves none user h = cc

complete-some :
    (p : Provider) (parse_uri : Text → Option Uri) (groups_claim : Text) (r : Callback)
    (o : Consumed) (user : User)
    → (complete p parse_uri groups_claim r o).1 ≡ some user
    → (t : Transaction) × (o ≡ found t)
      × (sign_in p groups_claim r.now r.auth_code t r.id ≡ some user)
      × ((complete p parse_uri groups_claim r o).0
          ≡ redirects (safe_redirect_url parse_uri t.redirect_url))
unfolding complete
complete-some p parse_uri groups_claim r failed user h = cc
complete-some p parse_uri groups_claim r unknown user h = cc
complete-some p parse_uri groups_claim r (found t) user h =
    let (e, a) =
      save_identity-some p parse_uri groups_claim t r.saves_identity
        (sign_in p groups_claim r.now r.auth_code t r.id) user h in
    (t, refl, e, a)

-- What the callback has of the request: where it came from.
abbrev pub attempt_of : Callback → Attempt
attempt_of r = record { session = r.session; state = r.state; clock = r.clock; saves = r.saves }

-- No mark of the state is kept, or the one that is kept has run out by then.
abbrev pub IsFree : Text → ℕ → ConsumedStates → Type 0
IsFree state now c =
    (lookup state c.states ≡ none) ⊎ ((e : ℕ) × (lookup state c.states ≡ some e) × (e ≤ now))

IsFree-when :
    (state : Text) (now : ℕ) (c : ConsumedStates)
    → ((e : ℕ) → lookup state c.states ≡ some e → e ≤ now)
    → IsFree state now c
IsFree-when state now c h = elim (Option-cases (lookup state c.states)) [
  | inl q ↦ inl q
  | inr (e, q) ↦ inr (e, q, h e q)
]

-- When HandleCallback saves an identity, then the session held a transaction whose state is the one that the request
-- names and that expires after the time of the check, and the state was not marked as consumed, or its mark had run out; it has a verifier, for which, with the code of the request, the provider
-- gave a token whose ID token it verifies; the claims of that carry the nonce of the transaction; the identity is
-- authenticated now, has the first of the user names of the claims, which is not "", and the groups of the
-- claims and no others; and the answer is a redirect to what is safe of the place that the transaction names.
pub handle_callback-saved :
    (p : Provider) (parse_uri : Text → Option Uri) (groups_claim : Text)
    (unmarshal : Text → Option Transaction) (r : Callback) (c : ConsumedStates) (user : User)
    → (handle_callback p parse_uri groups_claim unmarshal r c).2 ≡ some user
    → (t : Transaction) × (token : OauthToken) × (claims : Claims) × (read_transaction unmarshal
          r.session
        ≡ some t)
      × (t.state ≡ r.state)
      × (r.clock.checked < t.expires_at)
      × IsFree r.state r.clock.marked c
      × (is_empty t.code_verifier ≡ false)
      × Vouches p r.auth_code t.code_verifier token claims
      × (text_claim claims (codes "nonce") ≡ some t.nonce)
      × IsUserOf claims groups_claim r.now user
      × ((handle_callback p parse_uri groups_claim unmarshal r c).1
          ≡ redirects (safe_redirect_url parse_uri t.redirect_url))
unfolding handle_callback
handle_callback-saved p parse_uri groups_claim unmarshal r c user h =
    let a = attempt_of r in
    let (t, f, s, answer) =
      complete-some p parse_uri groups_claim r
        (consume unmarshal r.saves r.clock r.session r.state c).1 user h in
    let (held, new, states, v) = consume-found unmarshal a c t f in
    let (token, claims, w, verifier, nonce, u) =
      sign_in-some p groups_claim r.now r.auth_code t r.id user s in
    let (kept, same, valid) =
      get_transaction-some unmarshal r.clock.checked r.session r.state t held in
    let free = IsFree-when r.state r.clock.marked c (λ e q. not_early unmarshal a e c t q f) in
    (t, token, claims, kept, same, valid, free, verifier, w, nonce, u, answer)
