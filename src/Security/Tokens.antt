-- ===== src/Security/Tokens.antt =====
-- cmd/rdpgw/security/jwt.go: the PAA token of a session. The libraries that sign, encrypt and open a
-- token, and the OpenID provider, are parameters.
use home_rdp_gateway.Base.{ℕ, Bool, true, false, not, ◌&&◌, Option, none, some, ltb, if◌then◌else◌}
use home_rdp_gateway.Base.Texts.{Text, text_eq}
use home_rdp_gateway.Go.Strings.{is_empty}
use home_rdp_gateway.Protocol.Gateway.{Check}
use home_rdp_gateway.Identity.User.{
  Attribute, text, texts, User, get_attribute, text_attribute, attr_access_token, attr_auth_source,
  attr_client_ip, auth_source_oidc,
}

-- `customClaims`.
pub record CustomClaims : Type 0 where
  pub remote_server : Text
  pub client_ip : Text
  pub access_token : Text
  pub auth_source : Text
  pub user_name : Text

-- Whether an attribute is a text that is equal to the given one.
abbrev pub is_text : Option Attribute → Text → Bool
is_text none t = false
is_text (some (text s)) t = text_eq t s
is_text (some (texts ss)) t = false

module _ (open_token : Text → Option CustomClaims) (user_info : Text → Option Text) where
  -- `open_token` is the claims of a token that parses, decrypts, is signed with the key and is valid at
  -- the time of the call; `user_info` is the subject that the provider reports for an access token.
  unfoldable pub check_paa_cookie : Check
  check_paa_cookie cookie info =
      if is_empty cookie then (false, info) else elim (open_token cookie) [
        | none ↦ (false, info)
        | some claims ↦
            let named = record info {
              target_server = claims.remote_server;
              remote_addr = claims.client_ip;
            } in
            if is_empty claims.access_token
            then (false, named)
            else elim (user_info claims.access_token) [
              | none ↦ (false, named)
              | some subject ↦ (true, record named { user_name = subject })
            ]
      ]

-- `id` is the identity in the context of the request, `verify` is VerifyClientIP.
unfoldable pub check_session : Bool → User → Option Check → Check
check_session verify id later host info =
    if not (text_eq info.target_server host)
    then (false, info)
    else if verify && not (is_text (get_attribute attr_client_ip id) info.remote_addr)
    then (false, info)
    else elim later [ none ↦ (true, info) | some check ↦ check host info ]

pub data TokenError : Type 0 where
  signing_key_short encryption_key_short no_encrypter no_identity no_access_token : TokenError
  no_client_ip not_serialized : TokenError

pub data Token : Type 0 where
  token : Text → Token
  refused : TokenError → Token

-- The claims that GeneratePAAToken puts in the token.
unfoldable pub paa_claims : User → Text → Text → CustomClaims
paa_claims id username server =
    let access = text_attribute attr_access_token id in
    let source = text_attribute attr_auth_source id in
    record {
      remote_server = server;
      client_ip = text_attribute attr_client_ip id;
      access_token = access;
      auth_source = if is_empty source && not (is_empty access) then auth_source_oidc else source;
      user_name = username;
    }

-- The lengths of the two keys, and what signs and encrypts the claims, none where the library refuses to
-- make it of the keys.
unfoldable pub generate_paa_token :
    Option (CustomClaims → Option Text) → ℕ → ℕ → Option User → Text → Text → Token
generate_paa_token sealer signing encryption identity username server =
    if ltb signing 32
    then refused signing_key_short
    else if ltb encryption 32
    then refused encryption_key_short
    else elim sealer [
      | none ↦ refused no_encrypter
      | some seal ↦ elim identity [
        | none ↦ refused no_identity
        | some id ↦
            if is_empty (text_attribute attr_access_token id)
            then refused no_access_token
            else if is_empty (text_attribute attr_client_ip id)
            then refused no_client_ip
            else elim (seal (paa_claims id username server)) [
              | none ↦ refused not_serialized
              | some t ↦ token t
            ]
      ]
    ]
