-- ===== src/Web/Oidc/RoundTrip.antt =====
-- A sign-in that Authenticated begins is completed by HandleCallback.
use home_rdp_gateway.Base.{
  ℕ, ◌≡◌, refl, ◌+◌, ◌<◌, Bool, true, false, Bool-cases, inl, inr, Option, none, some, Option-cases,
  ltb, arith,
}
use home_rdp_gateway.Base.Texts.{Text, text_eq_refl, codes}
use home_rdp_gateway.Base.Assoc.{lookup}
use home_rdp_gateway.Go.Strings.{is_empty}
use home_rdp_gateway.Identity.User.{User}
use home_rdp_gateway.Web.Oidc.Transactions.{
  cache_expiration, Transaction, ConsumedStates, Slot, holds, read_transaction, get_transaction,
  mark_consumed, found, Clock, consume_marked, consume_found, consume, Uri, safe_redirect_url,
  new_transaction,
}
use home_rdp_gateway.Web.Oidc.Claims.{
  Claims, text_claim, find_username_in_claims, populate_identity,
}
use home_rdp_gateway.Web.Oidc.Callback.{
  OauthToken, Provider, checked_nonce, signed_in, sign_in, redirects, Callback, save_identity,
  complete, handle_callback, start, authenticated,
}
use home_rdp_gateway.Web.Oidc.Replay.{lookup-unexpired-none}
use home_rdp_gateway.Web.Oidc.SignIn.{Vouches, vouched}

-- The transaction that Authenticated begins.
abbrev pub begun : (Text → Option Uri) → ℕ → Text → Text → Text → Text → Transaction
begun parse_uri now request_uri state nonce verifier = record {
  state = state;
  redirect_url = safe_redirect_url parse_uri request_uri;
  nonce = nonce;
  code_verifier = verifier;
  expires_at = now + cache_expiration;
}

get_transaction-held :
    (unmarshal : Text → Option Transaction) (now : ℕ) (value : Text) (t : Transaction)
    → unmarshal value ≡ some t
    → now < t.expires_at
    → get_transaction unmarshal now (some (holds value)) t.state ≡ some t
unfolding get_transaction read_transaction
get_transaction-held unmarshal now value t h l =
    let same = text_eq_refl t.state in
    let early : ltb now t.expires_at ≡ true = ground arith in
    rw (h, read_transaction, get_transaction) (rw same (rw early refl))

mark_consumed-fresh :
    (state : Text) (now : ℕ) (c : ConsumedStates)
    → is_empty state ≡ false
    → lookup state c.states ≡ none
    → (mark_consumed state now c).1 ≡ true
unfolding mark_consumed
mark_consumed-fresh state now c ne h = ground (arith, lookup-unexpired-none state now c.states h)

consume_marked-true :
    (t : Transaction) (m : ConsumedStates × Bool)
    → m.1 ≡ true
    → (consume_marked true t m).1 ≡ found t
unfolding consume_marked
consume_marked-true t (c, true) h = refl
consume_marked-true t (c, false) h = cc

consume-held :
    (unmarshal : Text → Option Transaction) (clock : Clock) (value : Text) (t : Transaction)
    (c : ConsumedStates)
    → unmarshal value ≡ some t
    → clock.checked < t.expires_at
    → is_empty t.state ≡ false
    → lookup t.state c.states ≡ none
    → (consume unmarshal true clock (some (holds value)) t.state c).1 ≡ found t
unfolding consume consume_found
consume-held unmarshal clock value t c h l ne fresh =
    rw (get_transaction-held unmarshal clock.checked value t h l) (
      consume_marked-true t (mark_consumed t.state clock.marked c)
        (mark_consumed-fresh t.state clock.marked c ne fresh))

start-stored :
    (p : Provider) (parse_uri : Text → Option Uri) (groups_claim : Text)
    (marshal : Transaction → Option Text) (saves : Bool) (state : Text) (t : Transaction)
    (slot : Slot)
    → (start p parse_uri groups_claim marshal saves state (some t)).1 ≡ some slot
    → (value : Text) × (slot ≡ holds value) × (marshal t ≡ some value)
unfolding start
start-stored p parse_uri groups_claim marshal true state t slot h =
    elim (Option-cases (marshal t)) [
      | inl e ↦ let bad : ◌≡◌ {A = Option Slot} none (some slot) = rw (e, start) at h in cc
      | inr (value, e) ↦
          let same : ◌≡◌ {A = Option Slot} (some (holds value)) (some slot) = rw (e, start) at h in
          (value, ground arith, e)
    ]
start-stored p parse_uri groups_claim marshal false state t slot h =
    elim (Option-cases (marshal t)) [
      | inl e ↦ let bad : ◌≡◌ {A = Option Slot} none (some slot) = rw (e, start) at h in cc
      | inr (value, e) ↦ let bad : ◌≡◌ {A = Option Slot} none (some slot) = rw (e, start) at h in cc
    ]

authenticated-stored :
    (p : Provider) (parse_uri : Text → Option Uri) (groups_claim : Text)
    (marshal : Transaction → Option Text) (saves : Bool) (now : ℕ)
    (request_uri state nonce verifier : Text) (id : User) (slot : Slot)
    → (authenticated p parse_uri groups_claim marshal saves now request_uri
        (some state)
        (some nonce)
        (some verifier)
        id).1
      ≡ some slot
    → (value : Text) × (slot ≡ holds value)
      × (marshal (begun parse_uri now request_uri state nonce verifier) ≡ some value)
unfolding authenticated new_transaction
authenticated-stored p parse_uri groups_claim marshal saves now request_uri state nonce verifier id
      slot h =
    elim (Bool-cases id.authenticated) [
      | inl e ↦ let bad : ◌≡◌ {A = Option Slot} none (some slot) = rw (e, authenticated) at h in cc
      | inr e ↦
          start-stored p parse_uri groups_claim marshal saves state
            (begun parse_uri now request_uri state nonce verifier) slot (rw (e, authenticated) at h)
    ]

checked_nonce-same :
    (t : Transaction) (claims : Claims)
    → text_claim claims (codes "nonce") ≡ some t.nonce
    → checked_nonce t claims ≡ some true
unfolding checked_nonce
checked_nonce-same t claims h = let same = text_eq_refl t.nonce in rw h (rw same refl)

populate_identity-named :
    (claims : Claims) (groups_claim : Text) (id : User)
    → is_empty (find_username_in_claims claims) ≡ false
    → (u : User) × (populate_identity claims groups_claim id ≡ some u)
unfolding populate_identity
populate_identity-named claims groups_claim id h =
    elim (Option-cases (populate_identity claims groups_claim id)) [
      | inl e ↦ let bad : ◌≡◌ {A = Option User} (some _) none = rw (h, populate_identity) at e in cc
      | inr (u, e) ↦ (u, e)
    ]

sign_in-vouched :
    (p : Provider) (groups_claim : Text) (now : ℕ) (t : Transaction) (id : User)
    (auth_code verifier : Text) (token : OauthToken) (claims : Claims)
    → Vouches p auth_code verifier token claims
    → t.code_verifier ≡ verifier
    → is_empty verifier ≡ false
    → text_claim claims (codes "nonce") ≡ some t.nonce
    → is_empty (find_username_in_claims claims) ≡ false
    → (user : User) × (sign_in p groups_claim now auth_code t id ≡ some user)
unfolding sign_in
sign_in-vouched p groups_claim now t id _ _ token claims
      (vouched auth_code verifier _ raw id_token payload _ e1 e2 e3 e4 e5) v ne n name =
    let (u, e) = populate_identity-named claims groups_claim id name in
    (
      signed_in now token.access_token u,
      rw v (
          rw ne (
            rw e1
              (rw e2 (rw e3 (rw e4 (rw e5 (rw (checked_nonce-same t claims n) (rw e refl)))))))),
    )

-- The callback whose session can be saved.
abbrev pub callback : Text → Text → Slot → Clock → ℕ → User → Callback
callback state auth_code slot clock later id = record {
  state = state;
  auth_code = auth_code;
  session = some slot;
  clock = clock;
  now = later;
  saves = true;
  saves_identity = true;
  id = id;
}

-- A sign-in that begins is completed. When Authenticated has stored what it begins, and the callback comes with that
-- session and state before the two minutes are over, for a state that is not "" and was not consumed, the provider vouches
-- for the code and the verifier, which is not "", with claims that carry the nonce and a user name, and the session can be
-- saved, then HandleCallback saves an identity and redirects to what is safe of the request that began.
-- `unmarshal` reads back what `marshal` writes, as JSON does.
pub handle_callback-authenticated :
    (p : Provider) (parse_uri : Text → Option Uri) (groups_claim : Text)
    (marshal : Transaction → Option Text) (unmarshal : Text → Option Transaction) (saves : Bool)
    (now : ℕ) (request_uri state nonce verifier auth_code : Text) (id later_id : User) (slot : Slot)
    (clock : Clock) (later : ℕ) (c : ConsumedStates) (token : OauthToken) (claims : Claims)
    → ((t : Transaction) (value : Text) → marshal t ≡ some value → unmarshal value ≡ some t)
    → (authenticated p parse_uri groups_claim marshal saves now request_uri
        (some state)
        (some nonce)
        (some verifier)
        id).1
      ≡ some slot
    → clock.checked < now + cache_expiration
    → is_empty state ≡ false
    → lookup state c.states ≡ none
    → is_empty verifier ≡ false
    → Vouches p auth_code verifier token claims
    → text_claim claims (codes "nonce") ≡ some nonce
    → is_empty (find_username_in_claims claims) ≡ false
    → (user : User) × ((handle_callback p parse_uri groups_claim unmarshal
          (callback state auth_code slot clock later later_id)
          c).2
        ≡ some user)
      × ((handle_callback p parse_uri groups_claim unmarshal
            (callback state auth_code slot clock later later_id)
            c).1
          ≡ redirects (safe_redirect_url parse_uri (safe_redirect_url parse_uri request_uri)))
unfolding handle_callback complete save_identity
handle_callback-authenticated p parse_uri groups_claim marshal unmarshal saves now request_uri state
      nonce verifier auth_code id later_id slot clock later c token claims json stored l ne fresh v
      w n name =
    let t = begun parse_uri now request_uri state nonce verifier in
    let (value, q, m) =
      authenticated-stored p parse_uri groups_claim marshal saves now request_uri state nonce
        verifier id slot stored in
    let got = consume-held unmarshal clock value t c (json t value m) l ne fresh in
    let (user, e) =
      sign_in-vouched p groups_claim later t later_id auth_code verifier token claims w refl v n
        name in
    (user, rw q (rw got (rw e refl)), rw q (rw got (rw e refl)))
