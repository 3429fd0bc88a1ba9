-- ===== src/Security/Sessions.antt =====
-- The checks of the two gateways that cmd/rdpgw/main.go builds, and what they mean for a session.

use home_rdp_gateway.Base.{
  ℕ, ◌≡◌, refl, sym, ap, ◌∙◌, inl, inr, Bool, true, false, Bool-cases, Option-cases, Option, none,
  some, List, if◌then◌else◌, arith,
}
use mathlib.Core.Path.{subst}
use home_rdp_gateway.Base.Integers.{ℤ}
use home_rdp_gateway.Base.Texts.{Text, text_eq, text_eq_sound}
use home_rdp_gateway.Base.Outcome.{returns}
use home_rdp_gateway.Go.Strings.{is_empty}
use home_rdp_gateway.Utf.Utf8.{runes}
use home_rdp_gateway.Dashboard.Entry.{Entry}
use home_rdp_gateway.Transport.{Received}
use home_rdp_gateway.Identity.User.{User, get_attribute, attr_client_ip}
use home_rdp_gateway.Protocol.Gateway.{
  Gateway, Check, Tunnel, TunnelInfo, Conn, Processor, RedirectFlags,
}
use home_rdp_gateway.Protocol.Processor.{ProcessError, process, new_processor}
use home_rdp_gateway.Protocol.Processor.Tracking.{IsShown, Guards, process-fit}
use home_rdp_gateway.Security.Hosts.{enabled_host_addresses, check_host, IsManaged, check_host_iff}
use home_rdp_gateway.Security.Tokens.{CustomClaims, check_paa_cookie, check_session, is_text}

-- `conf.Caps` as buildGateway uses it; the redirection flags are put together by it.
pub record Caps : Type 0 where
  pub redirect_flags : RedirectFlags
  pub idle_timeout : ℤ
  pub smart_card_auth : Bool

-- CheckHost as a check of a tunnel. A host that a client asks for is valid UTF-8, as DecodeUTF16 makes
-- it, so that equality of code points is equality of the bytes.
unfoldable pub host_check : Option (Option (List Text)) → Text → Check
host_check managed selection host info =
    (check_host managed selection (runes info.user_name) (runes host), info)

module _ (open_token : Text → Option CustomClaims) (user_info : Text → Option Text) (verify : Bool)
    (id : User) (managed : Option (Option (List Text))) (selection : Text) where
  unfoldable pub build_gateway : Caps → Bool → Gateway
  build_gateway caps token_auth = record {
    check_paa_cookie = if token_auth then some (check_paa_cookie open_token user_info) else none;
    check_client_name = none;
    check_host =
        if token_auth
        then some (check_session verify id none)
        else some (host_check managed selection);
    redirect_flags = caps.redirect_flags;
    idle_timeout = caps.idle_timeout;
    smart_card_auth = caps.smart_card_auth;
    token_auth = token_auth;
  }

  -- The token is good: it opens to these claims, and the provider knows its access token.
  pub record IsGood (cookie : Text) (claims : CustomClaims) : Type 0 where
    pub opens : open_token cookie ≡ some claims
    pub subject : Text
    pub known : user_info claims.access_token ≡ some subject

  -- The fields of a tunnel come from a good token that the client sent.
  pub record IsFrom (frames : List Received) (i : TunnelInfo) : Type 0 where
    pub cookie : Text
    pub shown : IsShown frames cookie
    pub claims : CustomClaims
    pub good : IsGood cookie claims
    pub server : i.target_server ≡ claims.remote_server
    pub address : i.remote_addr ≡ claims.client_ip

  -- A good token that the client sent, over this transport, names the address, and, where client addresses are verified, the address of the client
  -- who is connected.
  pub record IsGranted (frames : List Received) (peer : Text) : Type 0 where
    pub cookie : Text
    pub shown : IsShown frames cookie
    pub claims : CustomClaims
    pub good : IsGood cookie claims
    pub server : claims.remote_server ≡ peer
    pub address : verify ≡ true → is_text (get_attribute attr_client_ip id) claims.client_ip ≡ true

  cookie-IsFrom :
      (frames : List Received) (arg : Text) (i : TunnelInfo)
      → IsShown frames arg
      → (check_paa_cookie open_token user_info arg i).0 ≡ true
      → IsFrom frames (check_paa_cookie open_token user_info arg i).1
  unfolding check_paa_cookie
  cookie-IsFrom frames arg i shown h = elim (Bool-cases (is_empty arg)) [
    | inl e ↦ let bad : false ≡ true = rw e at h in cc
    | inr e ↦ elim (Option-cases (open_token arg)) [
      | inl o ↦ let bad : false ≡ true = rw (e, o) at h in cc
      | inr (claims, o) ↦ elim (Bool-cases (is_empty claims.access_token)) [
        | inl a ↦ let bad : false ≡ true = rw (e, o, a) at h in cc
        | inr a ↦ elim (Option-cases (user_info claims.access_token)) [
          | inl u ↦ let bad : false ≡ true = rw (e, o, a, u) at h in cc
          | inr (subject, u) ↦
              rw (e, o, a, u)
                (record {
                  cookie = arg;
                  shown = shown;
                  claims = claims;
                  good = record { opens = o; subject = subject; known = u };
                  server = refl;
                  address = refl;
                })
        ]
      ]
    ]
  ]

  session-IsGranted :
      (frames : List Received) (arg : Text) (i : TunnelInfo)
      → IsFrom frames i
      → (check_session verify id none arg i).0 ≡ true
      → IsGranted frames arg
  unfolding check_session
  session-IsGranted frames arg i f h = elim (Bool-cases (text_eq i.target_server arg)) [
    | inr e ↦ let bad : false ≡ true = rw e at h in cc
    | inl e ↦ record {
      cookie = f.cookie;
      shown = f.shown;
      claims = f.claims;
      good = f.good;
      server = sym f.server ∙ text_eq_sound i.target_server arg e;
      address = λ v.
          subst (λ a. is_text (get_attribute attr_client_ip id) a ≡ true) f.address (ground arith);
    }
  ]

  token_guards :
      (caps : Caps) (frames : List Received)
      → Guards
          (build_gateway caps true)
          (IsShown frames)
          (λ i. Unit {0})
          (IsFrom frames)
          (IsGranted frames)
  unfolding build_gateway
  token_guards caps frames = record {
    cookie = λ arg i j c s h. subst (IsFrom frames) (sym h.1) (cookie-IsFrom frames arg i c h.0);
    name = λ arg i j f h. subst (IsFrom frames) (sym h) f;
    host = λ arg i j f h. session-IsGranted frames arg i f h.0;
  }

  -- A session of the gateway for tokens, whatever the client sends: if it started with no connection
  -- and ends with one, then one of the messages that the client sent is a request for a tunnel with a token that opens, whose access token the provider knows,
  -- that names the address which the connection leads to and, where client addresses are verified, the
  -- address of this client.
  pub process-IsGranted :
      (caps : Caps) (dial : Text → Bool) (t : Tunnel) (fuel : ℕ) (p : Processor)
      (e : Option ProcessError) (conn : Conn)
      → t.rwc ≡ none
      → process dial fuel (new_processor (build_gateway caps true) t) ≡ returns (p, e)
      → p.tunnel.rwc ≡ some conn
      → IsGranted t.transport_in conn.peer
  process-IsGranted caps dial t fuel p e conn fresh ended open_conn =
      process-fit (build_gateway caps true) (IsShown t.transport_in) (λ i. Unit {0})
        (IsFrom t.transport_in) (IsGranted t.transport_in) (token_guards caps t.transport_in) dial t
        fuel p e conn fresh (λ m r k. (m, r, k, refl)) tt ended open_conn

  named_guards :
      (caps : Caps) (user : Text)
      → Guards
          (build_gateway caps false)
          (λ arg. Unit {0})
          (λ i. i.user_name ≡ user)
          (λ i. i.user_name ≡ user)
          (λ host. check_host managed selection (runes user) (runes host) ≡ true)
  unfolding build_gateway host_check
  named_guards caps user = record {
    cookie = λ arg i j c s h. ap (λ (k : TunnelInfo). k.user_name) h ∙ s;
    name = λ arg i j s h. ap (λ (k : TunnelInfo). k.user_name) h ∙ s;
    host =
        λ arg i j s h. subst (λ u. check_host managed selection (runes u) (runes arg) ≡ true) s h.0;
  }

  -- The gateway without tokens lets a session only to a host that CheckHost accepts for its user.
  pub process-checked :
      (caps : Caps) (dial : Text → Bool) (t : Tunnel) (fuel : ℕ) (p : Processor)
      (e : Option ProcessError) (conn : Conn)
      → t.rwc ≡ none
      → process dial fuel (new_processor (build_gateway caps false) t) ≡ returns (p, e)
      → p.tunnel.rwc ≡ some conn
      → check_host managed selection (runes t.info.user_name) (runes conn.peer) ≡ true
  process-checked caps dial t fuel p e conn fresh ended open_conn =
      process-fit (build_gateway caps false) _ _ _ _ (named_guards caps t.info.user_name) dial t
        fuel p e conn fresh (λ m r k. tt) refl ended open_conn

module _ (open_token : Text → Option CustomClaims) (user_info : Text → Option Text) (verify : Bool)
    (id : User) where
  -- A session of the gateway without tokens, whatever the client sends: if it started with no connection
  -- and ends with one, then its user has a name and the connection leads to a host that an enabled entry
  -- of the dashboard names for that user.
  pub process-IsManaged :
      (entries : List Entry) (selection : Text) (caps : Caps) (dial : Text → Bool) (t : Tunnel)
      (fuel : ℕ) (p : Processor) (e : Option ProcessError) (conn : Conn)
      → t.rwc ≡ none
      → process dial fuel (
          new_processor
            (build_gateway open_token user_info verify id
              (some (some (enabled_host_addresses entries)))
              selection
              caps
              false)
            t)
        ≡ returns (p, e)
      → p.tunnel.rwc ≡ some conn
      → (is_empty (runes t.info.user_name) ≡ false)
        × IsManaged entries (runes t.info.user_name) (runes conn.peer)
  process-IsManaged entries selection caps dial t fuel p e conn fresh ended open_conn =
      let ok = (check_host_iff entries selection (runes t.info.user_name) (runes conn.peer)).0 (
        process-checked open_token user_info verify id
          (some (some (enabled_host_addresses entries))) selection caps dial t fuel p e conn fresh
          ended open_conn) in
      (ok.1, ok.2)
