-- ===== src/Web/Middleware.antt =====
-- The handlers that stand in front of others: context.go, session.go, header.go, authz.go and basic.go of
-- cmd/rdpgw/web. A handler either passes the request on with an identity or answers it. Of a request only
-- what these handlers read is kept; the session store is a library, whose answer is part of the request.
use home_rdp_gateway.Base.{
  ℕ, Bool, true, false, not, ◌&&◌, Option, none, some, List, [], any, if◌then◌else◌,
}
use home_rdp_gateway.Base.Texts.{Text, text_eq, codes}
use home_rdp_gateway.Base.Assoc.{lookup}
use home_rdp_gateway.Go.Strings.{trim_space, is_empty}
use home_rdp_gateway.Identity.User.{
  text, texts, User, new_user, set_attribute, text_attribute, in_group, attr_remote_addr,
  attr_client_ip, attr_proxies, attr_auth_source, auth_source_header,
}
use home_rdp_gateway.Web.TrustedProxy.{Checker, is_trusted_remote_addr, client_ip_and_proxies}

-- What the session holds: it cannot be read, it holds no identity, or it holds one.
pub data Session : Type 0 where
  broken empty : Session
  holds : User → Session

pub record Request : Type 0 where
  pub remote_addr : Text
  pub headers : List (Text × Text)
  pub session : Session

-- `r.Header.Get`, "" for a header that is not there. The names of the headers of a request and the name that is asked
-- for are in the canonical form, in which net/http keeps and looks up names.
unfoldable pub header : Text → Request → Text
unfolding lookup
header name r = elim (lookup name r.headers) [ none ↦ [] | some value ↦ value ]

-- The statuses that are answered.
pub data Status : Type 0 where
  unauthorized forbidden server_error : Status

-- The request goes on with the identity, or is answered.
pub data Passage : Type 0 where
  passes : User → Passage
  answers : Status → Passage

abbrev pub is_header_session : User → Bool
is_header_session id =
    id.authenticated && text_eq (text_attribute attr_auth_source id) auth_source_header

module _ (parse_ip : Text → Option Text) (checker : Checker) where
  -- The body of enrichContextWithTrustedProxies for the identity of the session.
  unfoldable pub admit : Request → User → Passage
  admit r id =
      if is_header_session id && not (is_trusted_remote_addr parse_ip checker r.remote_addr)
      then answers unauthorized
      else let (ip, proxies) =
          client_ip_and_proxies parse_ip checker r.remote_addr
            (header (codes "X-Forwarded-For") r) in
        passes (
          set_attribute attr_remote_addr (text r.remote_addr) (
            set_attribute attr_proxies (texts proxies) (set_attribute attr_client_ip (text ip) id)))

  -- `uuid` is the identifier of a new user.
  unfoldable pub enrich_context : Text → Request → Passage
  enrich_context uuid r = elim r.session [
    | broken ↦ answers server_error
    | empty ↦ admit r (new_user uuid)
    | holds id ↦ admit r id
  ]

-- The headers that the proxy sets; "" for one that is not configured.
pub record HeaderConfig : Type 0 where
  pub user_header : Text
  pub user_id_header : Text
  pub email_header : Text
  pub display_name_header : Text

abbrev pub optional : Text → Request → (Text → User → User) → User → User
optional name r set id =
    let value = header name r in
    if is_empty name then id else if is_empty value then id else set value id

-- The identity that the headers give.
unfoldable pub from_headers : HeaderConfig → ℕ → Request → Text → User → User
from_headers c now r name id =
    let signed_in =
      set_attribute attr_auth_source (text auth_source_header)
        (record id { user_name = name; authenticated = true; auth_time = now }) in
    optional c.display_name_header r (λ v u. record u { display_name = v })
      (optional c.email_header r (λ v u. record u { email = v })
        (optional c.user_id_header r (λ v u. set_attribute (codes "user_id") (text v) u) signed_in))

module _ (parse_ip : Text → Option Text) (checker : Checker) where
  -- Header.Authenticated, and the identity that it saves in the session; `saves` is whether the session
  -- can be saved.
  unfoldable pub header_authenticated :
      HeaderConfig → ℕ → Bool → Request → User → Passage × Option User
  header_authenticated c now saves r id =
      let name = header c.user_header r in
      let signed_in = from_headers c now r name id in
      if not (is_trusted_remote_addr parse_ip checker r.remote_addr)
      then (answers unauthorized, none)
      else if id.authenticated
      then (passes id, none)
      else if is_empty name
      then (answers unauthorized, none)
      else if saves
      then (passes signed_in, some signed_in)
      else (answers server_error, none)

unfoldable pub is_admin : Option User → List Text → Bool
is_admin none admin_groups = false
is_admin (some id) admin_groups =
    any (λ g. not (is_empty (trim_space g)) && in_group (trim_space g) id) admin_groups

unfoldable pub admin_only : List Text → Option User → Passage
admin_only admin_groups none = answers unauthorized
admin_only admin_groups (some id) =
    if not id.authenticated
    then answers unauthorized
    else if is_admin (some id) admin_groups
    then passes id
    else answers forbidden

-- What the authentication helper says: it cannot be reached, or whether it accepts.
pub data Verdict : Type 0 where
  unreachable : Verdict
  accepts : Bool → Verdict

-- BasicAuthHandler.BasicAuth: `socket` is the address of the helper, `ask` the helper, `credentials`
-- what r.BasicAuth() reads.
unfoldable pub basic_auth :
    Text → (Text → Text → Verdict) → ℕ → Option (Text × Text) → User → Passage
basic_auth socket ask now none id = answers unauthorized
basic_auth socket ask now (some (username, password)) id =
    if is_empty socket then answers unauthorized else elim (ask username password) [
      | unreachable ↦ answers server_error
      | accepts ok ↦
          if ok
          then passes (record id { user_name = username; authenticated = true; auth_time = now })
          else answers unauthorized
    ]
