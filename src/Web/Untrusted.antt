-- ===== src/Web/Untrusted.antt =====
-- What the middleware makes of a request from an address that is not trusted.
use home_rdp_gateway.Base.{
  ◌≡◌, inl, inr, refl, sym, ap, ◌∙◌, Bool, false, not, ◌&&◌, Bool-cases, Option, some, List, [],
  if◌then◌else◌, arith,
}
use home_rdp_gateway.Base.Texts.{Text, text_eq, codes}
use home_rdp_gateway.Base.Assoc.{lookup-assign}
use home_rdp_gateway.Identity.User.{
  text, texts, User, new_user, set_attribute, get_attribute, text_of, text_attribute,
  attr_remote_addr, attr_client_ip, attr_proxies, attr_auth_source, auth_source_header,
}
use home_rdp_gateway.Web.TrustedProxy.{
  Checker, is_trusted_remote_addr, client_ip_and_proxies, remote_of,
}
use home_rdp_gateway.Web.Middleware.{
  Session, broken, empty, holds, Request, header, unauthorized, passes, answers, is_header_session,
  admit, enrich_context,
}
use home_rdp_gateway.Web.Access.{enrich_context-passes}

module _ (parse_ip : Text → Option Text) (checker : Checker) where
  untrusted-client :
      (addr forwarded : Text)
      → is_trusted_remote_addr parse_ip checker addr ≡ false
      → client_ip_and_proxies parse_ip checker addr forwarded ≡ (remote_of parse_ip addr, [])
  unfolding client_ip_and_proxies
  untrusted-client addr forwarded t = rw t refl

  -- The attributes that the middleware sets last.
  abbrev marked : Text → Text → List Text → User → User
  marked addr ip proxies id =
      set_attribute attr_remote_addr (text addr)
        (set_attribute attr_proxies (texts proxies) (set_attribute attr_client_ip (text ip) id))

  marked-lookup :
      (addr ip : Text) (proxies : List Text) (id : User) (k : Text)
      → get_attribute k (marked addr ip proxies id) ≡ (
          if text_eq attr_remote_addr k
          then some (text addr)
          else if text_eq attr_proxies k
          then some (texts proxies)
          else if text_eq attr_client_ip k
          then some (text ip)
          else get_attribute k id)
  unfolding get_attribute set_attribute
  marked-lookup addr ip proxies id k =
      let inner = set_attribute attr_client_ip (text ip) id in
      let middle = set_attribute attr_proxies (texts proxies) inner in
      rw
        (
          lookup-assign k attr_remote_addr (text addr) middle.attributes,
          lookup-assign k attr_proxies (texts proxies) inner.attributes,
          lookup-assign k attr_client_ip (text ip) id.attributes,
        )
        refl

  marked-attributes :
      (addr ip : Text) (proxies : List Text) (id : User)
      → (get_attribute attr_client_ip (marked addr ip proxies id) ≡ some (text ip))
        × (get_attribute attr_proxies (marked addr ip proxies id) ≡ some (texts proxies))
        × (get_attribute attr_auth_source (marked addr ip proxies id)
            ≡ get_attribute attr_auth_source id)
  marked-attributes addr ip proxies id = (
    marked-lookup addr ip proxies id attr_client_ip,
    marked-lookup addr ip proxies id attr_proxies,
    marked-lookup addr ip proxies id attr_auth_source,
  )

  marked-is_header_session :
      (addr ip : Text) (proxies : List Text) (id : User)
      → is_header_session (marked addr ip proxies id) ≡ is_header_session id
  unfolding text_attribute set_attribute
  marked-is_header_session addr ip proxies id =
      let (_, _, source) = marked-attributes addr ip proxies id in
      ap (λ a. id.authenticated && text_eq (text_of a) auth_source_header) source

  sound_untrusted : (b t : Bool) → t ≡ false → (b && not t) ≡ false → b ≡ false
  sound_untrusted b t e h = ground arith

  admit-untrusted :
      (r : Request) (id : User)
      → is_trusted_remote_addr parse_ip checker r.remote_addr ≡ false
      → admit parse_ip checker r id ≡ (
          if is_header_session id
          then answers unauthorized
          else passes (marked r.remote_addr (remote_of parse_ip r.remote_addr) [] id))
  unfolding admit
  admit-untrusted r id t =
      rw (t, untrusted-client r.remote_addr (header (codes "X-Forwarded-For") r) t)
        (elim (Bool-cases (is_header_session id)) [ inl e ↦ rw e refl | inr e ↦ rw e refl ])

  alike :
      (uuid : Text) (r : Request) (forged : List (Text × Text)) (s : Session)
      → is_trusted_remote_addr parse_ip checker r.remote_addr ≡ false
      → enrich_context parse_ip checker uuid (record r { headers = forged; session = s })
        ≡ enrich_context parse_ip checker uuid (record r { session = s })
  unfolding enrich_context
  alike uuid r forged broken t = refl
  alike uuid r forged empty t =
      admit-untrusted (record r { headers = forged; session = empty }) (new_user uuid) t
      ∙ sym (admit-untrusted (record r { session = empty }) (new_user uuid) t)
  alike uuid r forged (holds id) t =
      admit-untrusted (record r { headers = forged; session = holds id }) id t
      ∙ sym (admit-untrusted (record r { session = holds id }) id t)

  -- From an address that is not trusted the middleware does not read the headers: a request that passes
  -- passes with the same user whatever its headers are, the client address of the user is the one of the
  -- connection, without proxies, and the user is not one that headers have signed in.
  pub enrich_context-untrusted :
      (uuid : Text) (r : Request) (u : User)
      → is_trusted_remote_addr parse_ip checker r.remote_addr ≡ false
      → enrich_context parse_ip checker uuid r ≡ passes u
      → ((forged : List (Text × Text))
          → enrich_context parse_ip checker uuid (record r { headers = forged }) ≡ passes u)
        × (get_attribute attr_client_ip u ≡ some (text (remote_of parse_ip r.remote_addr)))
        × (get_attribute attr_proxies u ≡ some (texts []))
        × (is_header_session u ≡ false)
  enrich_context-untrusted uuid r u t h =
      let (id, found, sound, made) = enrich_context-passes parse_ip checker uuid r u h in
      let client = untrusted-client r.remote_addr (header (codes "X-Forwarded-For") r) t in
      let plain : u ≡ marked r.remote_addr (remote_of parse_ip r.remote_addr) [] id =
        rw client at made in
      let (ip, proxies, source) =
        marked-attributes r.remote_addr (remote_of parse_ip r.remote_addr) [] id in
      (
        λ forged. alike uuid r forged r.session t ∙ h,
        ap (get_attribute attr_client_ip) plain ∙ ip,
        ap (get_attribute attr_proxies) plain ∙ proxies,
        ap is_header_session plain
            ∙ marked-is_header_session r.remote_addr (remote_of parse_ip r.remote_addr) [] id
            ∙ sound_untrusted (is_header_session id)
                (is_trusted_remote_addr parse_ip checker r.remote_addr) t sound,
      )
