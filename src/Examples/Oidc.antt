-- ===== src/Examples/Oidc.antt =====
-- Sign-in with an OpenID provider.
use home_rdp_gateway.Base.{
  ℕ, ◌≡◌, ◌≤◌, ◌<◌, ◌+◌, refl, sym, ap, Bool, true, false, ◌&&◌, ◌==◌, Bool-cases, inl, inr, Option,
  none, some, [], ◌∷◌, if◌then◌else◌, arith,
}
use home_rdp_gateway.Base.Texts.{Text, text_eq, text_eq_sound, codes}
use home_rdp_gateway.Base.Assoc.{lookup, erase, assign}
use home_rdp_gateway.Go.Strings.{is_empty}
use home_rdp_gateway.Identity.User.{
  text, User, set_attribute, set_groups, add_groups, attr_access_token, attr_auth_source,
  auth_source_oidc,
}
use home_rdp_gateway.Web.Oidc.Transactions.{
  cache_expiration, Transaction, new_consumed_states, unexpired, mark_consumed, Slot, holds,
  read_transaction, get_transaction, consume, consume_found, consume_marked, Uri, safe_redirect_url,
  new_transaction,
}
use home_rdp_gateway.Web.Oidc.Claims.{
  Claim, Claims, text_claim, find_candidate, find_username_in_claims, extract_groups,
  populate_identity,
}
use home_rdp_gateway.Web.Oidc.Callback.{
  OauthToken, Provider, checked_nonce, signed_in, sign_in, redirects, Callback, save_identity,
  complete, handle_callback, start, authenticated,
}
use home_rdp_gateway.Web.Oidc.Replay.{Attempt, consume_once}
use home_rdp_gateway.Web.Oidc.SignIn.{Vouches, vouched, IsUserOf, IsFree, handle_callback-saved}
use home_rdp_gateway.Web.Oidc.RoundTrip.{callback, handle_callback-authenticated}

abbrev cookie : Slot
cookie = holds (codes "j")

-- The transaction of a request that came at the time 1.
abbrev transaction : Transaction
transaction = record {
  state = codes "s";
  redirect_url = codes "/";
  nonce = codes "n";
  code_verifier = codes "v";
  expires_at = 1 + cache_expiration;
}

abbrev unmarshal_one : Text → Option Transaction
unmarshal_one value = some transaction

abbrev at : ℕ → ℕ → Attempt
at checked marked = record {
  session = some cookie;
  state = codes "s";
  clock = record { checked = checked; marked = marked };
  saves = true;
}

-- The second attempt reads the clock just before the transaction expires, and again when it has.
consume_once_example :
    (1 + cache_expiration ≤ 1 + cache_expiration)
    × (cache_expiration < 1 + cache_expiration)
    × (1 + cache_expiration ≤ 1 + cache_expiration)
unfolding consume consume_found consume_marked get_transaction read_transaction mark_consumed
    unexpired lookup new_consumed_states
consume_once_example =
    consume_once unmarshal_one (at 1 1) (at cache_expiration (1 + cache_expiration)) (at 2 2 ∷ [])
      (new_consumed_states 0) transaction transaction refl refl (omega arith, tt) (omega arith) refl

abbrev claims : Claims
claims = (codes "nonce", Claim.text (codes "n")) ∷ (codes "upn", Claim.text (codes "ann")) ∷ []

abbrev token : OauthToken
token = record { access_token = codes "at"; id_token = some (codes "it") }

abbrev provider : Provider
provider = record {
  exchange = λ auth_code verifier. some token;
  verify = λ raw. some raw;
  payload = λ id_token. some id_token;
  unmarshal_claims = λ payload. some claims;
  auth_code_url = λ state nonce verifier. codes "p";
}

abbrev no_uri : Text → Option Uri
no_uri url = none

abbrev nobody : User
nobody = record {
  authenticated = false;
  domain = [];
  user_name = [];
  display_name = [];
  email = [];
  auth_time = 0;
  session_id = codes "id";
  expiry = 0;
  attributes = [];
  group_membership = [];
}

abbrev ann : User
ann = record nobody {
  authenticated = true;
  user_name = codes "ann";
  auth_time = 3;
  attributes =
      (attr_auth_source, text auth_source_oidc) ∷ (attr_access_token, text (codes "at")) ∷ [];
}

abbrev returning : Callback
returning = callback (codes "s") (codes "c") cookie (record { checked = 2; marked = 2 }) 3 nobody

handle_callback-saved_example :
    (t : Transaction) × (tok : OauthToken) × (cs : Claims) × (read_transaction unmarshal_one
        (some cookie)
      ≡ some t)
    × (t.state ≡ codes "s")
    × (2 < t.expires_at)
    × IsFree (codes "s") 2 (new_consumed_states 0)
    × (is_empty t.code_verifier ≡ false)
    × Vouches provider (codes "c") t.code_verifier tok cs
    × (text_claim cs (codes "nonce") ≡ some t.nonce)
    × IsUserOf cs [] 3 ann
    × ((handle_callback provider no_uri [] unmarshal_one returning (new_consumed_states 0)).1
        ≡ redirects (safe_redirect_url no_uri t.redirect_url))
unfolding handle_callback complete save_identity sign_in signed_in checked_nonce populate_identity
    find_username_in_claims find_candidate extract_groups text_claim set_groups add_groups
    set_attribute assign erase consume consume_found consume_marked get_transaction read_transaction
    mark_consumed unexpired lookup new_consumed_states safe_redirect_url
handle_callback-saved_example =
    handle_callback-saved provider no_uri [] unmarshal_one returning (new_consumed_states 0) ann
      refl

abbrev same_transaction : Transaction → Transaction → Bool
same_transaction t u =
    text_eq t.state u.state
    && text_eq t.redirect_url u.redirect_url
    && text_eq t.nonce u.nonce
    && text_eq t.code_verifier u.code_verifier
    && t.expires_at == u.expires_at

same_transaction_sound : (t u : Transaction) → same_transaction t u ≡ true → t ≡ u
same_transaction_sound t u h =
    let a = text_eq_sound t.state u.state (ground arith) in
    let b = text_eq_sound t.redirect_url u.redirect_url (ground arith) in
    let c = text_eq_sound t.nonce u.nonce (ground arith) in
    let d = text_eq_sound t.code_verifier u.code_verifier (ground arith) in
    let e : t.expires_at ≡ u.expires_at = ground arith in
    λ i. record {
      state = a i;
      redirect_url = b i;
      nonce = c i;
      code_verifier = d i;
      expires_at = e i;
    }

-- JSON, as far as one transaction is concerned.
abbrev marshal_one : Transaction → Option Text
marshal_one t = if same_transaction t transaction then some (codes "j") else none

unmarshal-marshal_one :
    (t : Transaction) (value : Text) → marshal_one t ≡ some value → unmarshal_one value ≡ some t
unmarshal-marshal_one t value h = elim (Bool-cases (same_transaction t transaction)) [
  | inl e ↦ ap some (sym (same_transaction_sound t transaction e))
  | inr e ↦ let bad : ◌≡◌ {A = Option Text} none (some value) = rw e at h in cc
]

handle_callback-authenticated_example :
    (user : User) × ((handle_callback provider no_uri [] unmarshal_one returning
        (new_consumed_states 0)).2
      ≡ some user)
    × ((handle_callback provider no_uri [] unmarshal_one returning (new_consumed_states 0)).1
        ≡ redirects (safe_redirect_url no_uri (safe_redirect_url no_uri (codes "/x"))))
unfolding authenticated start new_transaction safe_redirect_url lookup new_consumed_states
    text_claim find_username_in_claims find_candidate
handle_callback-authenticated_example =
    handle_callback-authenticated provider no_uri [] marshal_one unmarshal_one true 1 (codes "/x")
      (codes "s") (codes "n") (codes "v") (codes "c") nobody nobody cookie
      (record { checked = 2; marked = 2 }) 3 (new_consumed_states 0) token claims
      unmarshal-marshal_one refl (omega arith) refl refl refl
      (vouched (codes "c") (codes "v") token (codes "it") (codes "it") (codes "it") claims refl refl
        refl refl refl)
      refl refl
