-- ===== src/Security/TokenRoundTrip.antt =====
-- A token that GeneratePAAToken makes, shown to the checks of a session.
use home_rdp_gateway.Base.{
  ℕ, ◌≡◌, ◌↔◌, refl, ◌∙◌, inl, inr, Bool, true, false, Bool-cases, Option-cases, Option, none, some,
  ltb, arith,
}
use home_rdp_gateway.Base.Texts.{Text, text_eq_refl, text_eq_iff}
use home_rdp_gateway.Go.Strings.{is_empty}
use home_rdp_gateway.Protocol.Gateway.{TunnelInfo}
use home_rdp_gateway.Identity.User.{
  User, Attribute, text, texts, get_attribute, text_attribute, text_of, attr_access_token,
  attr_client_ip,
}
use home_rdp_gateway.Security.Tokens.{
  CustomClaims, is_text, check_paa_cookie, check_session, paa_claims, generate_paa_token, token,
  refused, signing_key_short, encryption_key_short, no_access_token, no_client_ip, not_serialized,
}

-- What the code relies on of the libraries: a token that is sealed is not "" and opens to its claims, as
-- it does until it expires.
pub record Opens (seal : CustomClaims → Option Text) (open_token : Text → Option CustomClaims)
    : Type 0 where
  pub opens : (c : CustomClaims) (t : Text) → seal c ≡ some t → open_token t ≡ some c
  pub filled : (c : CustomClaims) (t : Text) → seal c ≡ some t → is_empty t ≡ false

-- What a generated token says of its making.
pub record IsMade (seal : CustomClaims → Option Text) (id : User) (username server t : Text)
    : Type 0 where
  pub sealed : seal (paa_claims id username server) ≡ some t
  pub access : is_empty (text_attribute attr_access_token id) ≡ false
  pub client : is_empty (text_attribute attr_client_ip id) ≡ false

generate-IsMade :
    (seal : CustomClaims → Option Text) (signing encryption : ℕ) (id : User)
    (username server t : Text)
    → generate_paa_token (some seal) signing encryption (some id) username server ≡ token t
    → IsMade seal id username server t
unfolding generate_paa_token
generate-IsMade seal signing encryption id username server t h =
    elim (Bool-cases (ltb signing 32)) [
      | inl a ↦ let bad : refused signing_key_short ≡ token t = rw a at h in cc
      | inr a ↦ elim (Bool-cases (ltb encryption 32)) [
        | inl b ↦ let bad : refused encryption_key_short ≡ token t = rw (a, b) at h in cc
        | inr b ↦ elim (Bool-cases (is_empty (text_attribute attr_access_token id))) [
          | inl c ↦ let bad : refused no_access_token ≡ token t = rw (a, b, c) at h in cc
          | inr c ↦ elim (Bool-cases (is_empty (text_attribute attr_client_ip id))) [
            | inl d ↦ let bad : refused no_client_ip ≡ token t = rw (a, b, c, d) at h in cc
            | inr d ↦ elim (Option-cases (seal (paa_claims id username server))) [
              | inl s ↦ let bad : refused not_serialized ≡ token t = rw (a, b, c, d, s) at h in cc
              | inr (x, s) ↦
                  let same : token x ≡ token t = rw (a, b, c, d, s) at h in
                  record { sealed = s ∙ cc; access = c; client = d }
            ]
          ]
        ]
      ]
    ]

is_text-text_of :
    (o : Option Attribute) → is_empty (text_of o) ≡ false → is_text o (text_of o) ≡ true
is_text-text_of none h = cc
is_text-text_of (some (text t)) h = text_eq_refl t
is_text-text_of (some (texts ts)) h = cc

is_text-own :
    (s : Text) (id : User)
    → is_empty (text_attribute s id) ≡ false
    → is_text (get_attribute s id) (text_attribute s id) ≡ true
unfolding text_attribute
is_text-own s id h = is_text-text_of (get_attribute s id) h

-- A token that GeneratePAAToken makes for a server, from an identity whose access token the provider
-- knows, and that is shown while it opens: CheckPAACookie accepts it and puts the server, the address
-- of the client and the subject into the tunnel; CheckSession then accepts, for the same identity, that
-- server and no other.
pub generate-check :
    (seal : CustomClaims → Option Text) (open_token : Text → Option CustomClaims)
    (user_info : Text → Option Text) (signing encryption : ℕ) (id : User)
    (username server t subject host : Text) (verify : Bool) (info : TunnelInfo)
    → Opens seal open_token
    → generate_paa_token (some seal) signing encryption (some id) username server ≡ token t
    → user_info (text_attribute attr_access_token id) ≡ some subject
    → let r = check_paa_cookie open_token user_info t info in
      (r.0 ≡ true)
      × (r.1 ≡ record info {
        target_server = server;
        remote_addr = text_attribute attr_client_ip id;
        user_name = subject;
      })
      × (((check_session verify id none host r.1).0 ≡ true) ↔ (server ≡ host))
unfolding check_paa_cookie check_session
generate-check seal open_token user_info signing encryption id username server t subject host verify
      info o h u =
    let made = generate-IsMade seal signing encryption id username server t h in
    let opened = o.opens (paa_claims id username server) t made.sealed in
    let filled = o.filled (paa_claims id username server) t made.sealed in
    let own = is_text-own attr_client_ip id made.client in
    unfold paa_claims in
    (rw (filled, opened, made.access, u)
      (
        refl,
        refl,
        (
          (λ c. (text_eq_iff server host).0 (ground (arith, own))),
          (λ e. let q = (text_eq_iff server host).1 e in ground (arith, own)),
        ),
      ))
