-- ===== src/Web/Oidc/Callback.antt =====
-- HandleCallback and Authenticated of cmd/rdpgw/web/oidc.go.
use home_rdp_gateway.Base.{ℕ, Bool, true, not, Option, none, some, if◌then◌else◌}
use home_rdp_gateway.Base.Texts.{Text, text_eq, codes}
use home_rdp_gateway.Base.Options.{◌>>=◌, demand}
use home_rdp_gateway.Go.Strings.{is_empty}
use home_rdp_gateway.Identity.User.{
  text, User, set_attribute, attr_access_token, attr_auth_source, auth_source_oidc,
}
use home_rdp_gateway.Web.Oidc.Transactions.{
  Transaction, ConsumedStates, Slot, Consumed, failed, unknown, found, Clock, consume,
  new_transaction, Uri, safe_redirect_url,
}
use home_rdp_gateway.Web.Oidc.Claims.{Claims, text_claim, populate_identity}

pub record OauthToken : Type 0 where
  pub access_token : Text
  pub id_token : Option Text

-- The provider: the token for a code and a verifier, an ID token that is verified, as it is written, its
-- payload, the claims that a payload holds, and the address of the provider's page.
pub record Provider : Type 0 where
  pub exchange : Text → Text → Option OauthToken
  pub verify : Text → Option Text
  pub payload : Text → Option Text
  pub unmarshal_claims : Text → Option Claims
  pub auth_code_url : Text → Text → Text → Text

unfoldable pub checked_nonce : Transaction → Claims → Option Bool
unfolding text_claim
checked_nonce t claims = do
  nonce ← text_claim claims (codes "nonce")
  demand (text_eq nonce t.nonce)

unfoldable pub signed_in : ℕ → Text → User → User
unfolding set_attribute
signed_in now access_token id = set_attribute attr_auth_source (text auth_source_oidc) (
    set_attribute attr_access_token (text access_token)
      (record id { authenticated = true; auth_time = now }))

-- HandleCallback from the transaction to the identity of the user who signs in, `none` for "authentication
-- failed".
unfoldable pub sign_in : Provider → Text → ℕ → Text → Transaction → User → Option User
unfolding checked_nonce populate_identity signed_in
sign_in p groups_claim now auth_code t id = do
  verifier ← demand (not (is_empty t.code_verifier))
  token ← p.exchange auth_code t.code_verifier
  raw_id_token ← token.id_token
  id_token ← p.verify raw_id_token
  payload ← p.payload id_token
  claims ← p.unmarshal_claims payload
  nonce ← checked_nonce t claims
  user ← populate_identity claims groups_claim id
  some (signed_in now token.access_token user)

-- What is answered: the request goes on, 500 with "authentication failed" or "failed to save session", 400
-- with "unknown state", or a redirect.
pub data Answer : Type 0 where
  passes : Answer
  authentication_failed : Answer
  session_failed : Answer
  unknown_state : Answer
  redirects : Text → Answer

-- A request to the callback: its query, its session, the readings of the clock, whether the session can be saved
-- without its transaction and with the identity, and the identity of its context.
pub record Callback : Type 0 where
  pub state : Text
  pub auth_code : Text
  pub session : Option Slot
  pub clock : Clock
  pub now : ℕ
  pub saves : Bool
  pub saves_identity : Bool
  pub id : User

module _ (p : Provider) (parse_uri : Text → Option Uri) (groups_claim : Text) where
  unfoldable pub save_identity : Transaction → Bool → Option User → Answer × Option User
  unfolding safe_redirect_url
  save_identity t saves none = (authentication_failed, none)
  save_identity t saves (some user) =
      if saves
      then (redirects (safe_redirect_url parse_uri t.redirect_url), some user)
      else (session_failed, none)

  unfoldable pub complete : Callback → Consumed → Answer × Option User
  unfolding save_identity sign_in
  complete r failed = (authentication_failed, none)
  complete r unknown = (unknown_state, none)
  complete r (found t) =
      save_identity t r.saves_identity (sign_in p groups_claim r.now r.auth_code t r.id)

  -- HandleCallback: the answer, and the identity that the session then holds, if any is saved.
  unfoldable pub handle_callback :
      (Text → Option Transaction)
      → Callback
      → ConsumedStates
      → ConsumedStates × Answer × Option User
  unfolding consume complete
  handle_callback unmarshal r c =
      let (after, consumed) = consume unmarshal r.saves r.clock r.session r.state c in
      let (answer, saved) = complete r consumed in (after, answer, saved)

  -- Authenticated: the answer, and what is stored under OIDCSTATE, if anything is. `marshal` is json.Marshal, `saves` whether the session can be read and saved;
  -- the texts are those of randomURLSafeString.
  unfoldable pub start :
      (Transaction → Option Text) → Bool → Text → Option Transaction → Answer × Option Slot
  start marshal saves state none = (authentication_failed, none)
  start marshal saves state (some t) = elim (marshal t) [
    | none ↦ (session_failed, none)
    | some value ↦
        if saves
        then (redirects (p.auth_code_url state t.nonce t.code_verifier), some (Slot.holds value))
        else (session_failed, none)
  ]

  unfoldable pub authenticated :
      (Transaction → Option Text)
      → Bool
      → ℕ
      → Text
      → Option Text
      → Option Text
      → Option Text
      → User
      → Answer × Option Slot
  unfolding start safe_redirect_url new_transaction
  authenticated marshal saves now request_uri none fresh verifier id =
      if id.authenticated then (passes, none) else (authentication_failed, none)
  authenticated marshal saves now request_uri (some state) fresh verifier id =
      if id.authenticated
      then (passes, none)
      else start marshal saves state
          (new_transaction fresh verifier now state (safe_redirect_url parse_uri request_uri))
