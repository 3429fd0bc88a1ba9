-- ===== src/Web/Oidc/Transactions.antt =====
-- The transactions of cmd/rdpgw/web/oidc.go: the states that are consumed, what the session keeps of a sign-in
-- that has begun, and the places that it may lead back to.
use home_rdp_gateway.Base.{
  ℕ, ◌+◌, Bool, true, false, not, ◌||◌, ◌==◌, ltb, Option, none, some, List, [], ◌∷◌, if◌then◌else◌,
}
use home_rdp_gateway.Base.Texts.{Text, text_eq, codes}
use home_rdp_gateway.Base.Assoc.{lookup}
use home_rdp_gateway.Base.Options.{◌>>=◌, demand}
use home_rdp_gateway.Go.Strings.{is_empty, has_prefix, cut}

abbrev pub cache_expiration : ℕ
cache_expiration = 120000000000

pub record Transaction : Type 0 where
  pub state : Text
  pub redirect_url : Text
  pub nonce : Text
  pub code_verifier : Text
  pub expires_at : ℕ

pub record ConsumedStates : Type 0 where
  pub ttl : ℕ
  pub states : List (Text × ℕ)

-- newOIDCConsumedStateCache; a ttl below 0 is as 0.
unfoldable pub new_consumed_states : ℕ → ConsumedStates
new_consumed_states ttl = record { ttl = if ttl == 0 then cache_expiration else ttl; states = [] }

-- The states that expire after `now`.
unfoldable pub unexpired : ℕ → List (Text × ℕ) → List (Text × ℕ)
unexpired now [] = []
unexpired now ((state, expires_at) ∷ states) =
    let rest = unexpired now states in
    if ltb now expires_at then (state, expires_at) ∷ rest else rest

-- The states after markConsumed, and its result. It keeps no state twice, so a new one stands in front.
unfoldable pub mark_consumed : Text → ℕ → ConsumedStates → ConsumedStates × Bool
unfolding unexpired lookup
mark_consumed state now c =
    let kept = unexpired now c.states in
    if is_empty state then (c, false) else elim (lookup state kept) [
      | some expires_at ↦ (record c { states = kept }, false)
      | none ↦ (record c { states = (state, now + c.ttl) ∷ kept }, true)
    ]

-- newOIDCTransaction; `nonce` and `verifier` are the texts of randomURLSafeString.
unfoldable pub new_transaction : Option Text → Option Text → ℕ → Text → Text → Option Transaction
new_transaction nonce verifier now state redirect_url = do
  n ← nonce
  v ← verifier
  some (record {
    state = state;
    redirect_url = redirect_url;
    nonce = n;
    code_verifier = v;
    expires_at = now + cache_expiration;
  })

-- What stands in the session under OIDCSTATE.
pub data Slot : Type 0 where
  absent : Slot
  no_text : Slot
  holds : Text → Slot

-- The form of earlier versions, a state and a redirect with a bar between them.
unfoldable pub parse_bar : Text → Option Transaction
unfolding cut
parse_bar s = do
  parts ← cut b'|' s
  some (record {
    state = parts.0;
    redirect_url = parts.1;
    nonce = [];
    code_verifier = [];
    expires_at = 0;
  })

-- `none` is a session that cannot be read; `unmarshal` is json.Unmarshal into a transaction.
unfoldable pub read_transaction : (Text → Option Transaction) → Option Slot → Option Transaction
unfolding parse_bar
read_transaction unmarshal none = none
read_transaction unmarshal (some absent) = none
read_transaction unmarshal (some no_text) = none
read_transaction unmarshal (some (holds value)) = elim (unmarshal value) [
  | some t ↦ some t
  | none ↦ parse_bar value
]

unfoldable pub get_transaction :
    (Text → Option Transaction) → ℕ → Option Slot → Text → Option Transaction
unfolding read_transaction
get_transaction unmarshal now session state = do
  t ← read_transaction unmarshal session
  same ← demand (text_eq t.state state)
  valid ← demand (ltb now t.expires_at)
  some t

pub data Consumed : Type 0 where
  failed : Consumed
  unknown : Consumed
  found : Transaction → Consumed

-- The readings of the clock in consumeOIDCTransaction: by getOIDCTransaction, and for markConsumed.
pub record Clock : Type 0 where
  pub checked : ℕ
  pub marked : ℕ

-- The consumed states, and the transaction if the state is new; `saves` is whether the session, without its
-- transaction, can be saved.
unfoldable pub consume_marked :
    Bool → Transaction → ConsumedStates × Bool → ConsumedStates × Consumed
consume_marked saves t (c, false) = (c, unknown)
consume_marked saves t (c, true) = (c, if saves then found t else failed)

unfoldable pub consume_found :
    Bool → ℕ → Text → Option Transaction → ConsumedStates → ConsumedStates × Consumed
unfolding consume_marked mark_consumed
consume_found saves now state none c = (c, unknown)
consume_found saves now state (some t) c = consume_marked saves t (mark_consumed state now c)

-- consumeOIDCTransaction.
unfoldable pub consume :
    (Text → Option Transaction)
    → Bool
    → Clock
    → Option Slot
    → Text
    → ConsumedStates
    → ConsumedStates × Consumed
unfolding consume_found get_transaction
consume unmarshal saves clock none state c = (c, failed)
consume unmarshal saves clock (some slot) state c =
    consume_found saves clock.marked state
      (get_transaction unmarshal clock.checked (some slot) state) c

-- What url.ParseRequestURI finds; `request_uri` is the text of RequestURI.
pub record Uri : Type 0 where
  pub is_abs : Bool
  pub host : Text
  pub path : Text
  pub request_uri : Text

unfoldable pub safe_redirect_url : (Text → Option Uri) → Text → Text
safe_redirect_url parse_uri url =
    if is_empty url || not (has_prefix url (codes "/")) || has_prefix url (codes "//")
    then codes "/"
    else elim (parse_uri url) [
      | none ↦ codes "/"
      | some u ↦
          if u.is_abs
            || not (is_empty u.host)
            || not (has_prefix u.path (codes "/"))
            || has_prefix u.path (codes "//")
          then codes "/"
          else u.request_uri
    ]
