-- ===== src/Web/InternalDns.antt =====
-- cmd/rdpgw/web/internal_dns.go: the address of a remote desktop server, resolved for hosts of the internal
-- domains. Whether net.ParseIP reads a text and the lookup are parameters. Names are lowered as strings.ToLower lowers
-- ASCII letters: the domains and hosts are ASCII, as names in the DNS are.
use home_rdp_gateway.Base.{
  ℕ, ◌≡◌, ◌⊎◌, inl, inr, refl, Bool, true, false, not, ◌&&◌, ◌||◌, ◌==◌, Bool-cases, Option, none,
  some, List, [], ◌∷◌, any, if◌then◌else◌, arith,
}
use home_rdp_gateway.Base.Texts.{Text, text_eq, codes}
use home_rdp_gateway.Go.Strings.{trim_space, is_empty, to_lower, has_suffix}
use home_rdp_gateway.Go.Net.{split_host_port, join_host_port}

abbrev is_bracket : ℕ → Bool
is_bracket c = c == b'[' || c == b']'

unfoldable pub brackets_left : Text → Text
brackets_left [] = []
brackets_left (c ∷ s) = let rest = brackets_left s in if is_bracket c then rest else c ∷ s

unfoldable pub brackets_right : Text → Text
brackets_right [] = []
brackets_right (c ∷ s) =
    let rest = brackets_right s in if is_bracket c && is_empty rest then [] else c ∷ rest

-- `strings.Trim(host, "[]")`.
abbrev pub trim_brackets : Text → Text
trim_brackets s = brackets_right (brackets_left s)

-- `strings.TrimSuffix(s, ".")`.
unfoldable pub trim_dot : Text → Text
trim_dot [] = []
trim_dot (c ∷ s) = let rest = trim_dot s in if c == b'.' && is_empty s then [] else c ∷ rest

-- `strings.TrimPrefix(s, ".")`.
abbrev pub trim_first_dot : Text → Text
trim_first_dot [] = []
trim_first_dot (c ∷ s) = if c == b'.' then s else c ∷ s

-- The three branches behind SplitHostPort join the same port.
unfoldable pub normalize_dns_server_address : Text → Text
normalize_dns_server_address dns_server =
    let server = trim_space dns_server in
    if is_empty server then [] else elim (split_host_port server) [
      | some parts ↦ server
      | none ↦ join_host_port server (codes "53")
    ]

-- The host, and the port if the address has one.
abbrev pub Address : Type 0
Address = Text × Option Text

unfoldable pub split_rdp_address : Text → Option Address
split_rdp_address address =
    let trimmed = trim_space address in
    if any (λ c. c == b':') trimmed
    then elim (split_host_port trimmed) [
      | none ↦ none
      | some (host, port) ↦ some (trim_brackets host, some port)
    ]
    else some (trimmed, none)

abbrev pub join_rdp_address : Text → Option Text → Text
join_rdp_address host none = host
join_rdp_address host (some port) = join_host_port host port

abbrev pub normal_domain : Text → Text
normal_domain domain = trim_first_dot (trim_dot (to_lower (trim_space domain)))

unfoldable pub matches_internal_domain : Text → List Text → Bool
matches_internal_domain name domains =
    let host = trim_dot (to_lower (trim_space name)) in
    if is_empty host
    then false
    else any
        (λ d.
          let domain = normal_domain d in
          not (is_empty domain) && (text_eq host domain || has_suffix host (b'.' ∷ domain)))
        domains

pub data ResolveError : Type 0 where
  bad_address bad_override lookup_failed no_addresses : ResolveError

pub data Resolved : Type 0 where
  resolved : Text → Resolved
  failed : ResolveError → Resolved

-- The end of resolveRDPAddress, on what the lookup gives, none for an error.
abbrev pub looked_up : Option Text → Text → Option (List Text) → Resolved
looked_up port override (some (ip ∷ ips)) = resolved (join_rdp_address ip port)
looked_up port override (some []) =
    if not (is_empty override)
    then resolved (join_rdp_address override port)
    else failed no_addresses
looked_up port override none =
    if not (is_empty override)
    then resolved (join_rdp_address override port)
    else failed lookup_failed

module _ (is_ip : Text → Bool) (lookup_ip : Text → Text → Option (List Text))
    (internal_dns_server : Text) (internal_domains : List Text) where
  -- The address is split.
  unfoldable pub resolve_split : Text → Text → Bool → Address → Resolved
  resolve_split address override_text force (host, port) =
      let override = trim_space override_text in
      let server = normalize_dns_server_address internal_dns_server in
      if is_ip host
      then resolved address
      else if not (is_empty override) && not (is_ip override)
      then failed bad_override
      else if force && not (is_empty override)
      then resolved (join_rdp_address override port)
      else if not (matches_internal_domain host internal_domains) || is_empty server
      then resolved address
      else looked_up port override (lookup_ip server host)

  unfoldable pub resolve_rdp_address : Text → Text → Bool → Resolved
  resolve_rdp_address address override force = elim (split_rdp_address address) [
    | none ↦ failed bad_address
    | some parts ↦ resolve_split address override force parts
  ]

  -- A place of the host, with the port as it was: the override, an address, or the first address that the
  -- internal DNS server gives for a host of the internal domains.
  abbrev pub IsPlace : Text → Text → Option Text → Text → Type 0
  IsPlace override host port r =
      (ip : Text) × (r ≡ join_rdp_address ip port)
      × (((ip ≡ override) × (is_ip override ≡ true))
          ⊎ ((matches_internal_domain host internal_domains ≡ true)
              × ((ips : List Text) × (lookup_ip (normalize_dns_server_address internal_dns_server)
                      host
                    ≡ some (ip ∷ ips)))))

  looked_up-IsPlace :
      (host : Text) (port : Option Text) (override r : Text) (l : Option (List Text))
      → matches_internal_domain host internal_domains ≡ true
      → (not (is_empty override) && not (is_ip override)) ≡ false
      → lookup_ip (normalize_dns_server_address internal_dns_server) host ≡ l
      → looked_up port override l ≡ resolved r
      → IsPlace override host port r
  looked_up-IsPlace host port override r none i o e h = elim (Bool-cases (is_empty override)) [
    | inl k ↦ let bad : failed lookup_failed ≡ resolved r = rw k at h in cc
    | inr k ↦
        let same : resolved (join_rdp_address override port) ≡ resolved r = rw k at h in
        (override, cc, inl (refl, ground arith))
  ]
  looked_up-IsPlace host port override r (some []) i o e h = elim (Bool-cases (is_empty override)) [
    | inl k ↦ let bad : failed no_addresses ≡ resolved r = rw k at h in cc
    | inr k ↦
        let same : resolved (join_rdp_address override port) ≡ resolved r = rw k at h in
        (override, cc, inl (refl, ground arith))
  ]
  looked_up-IsPlace host port override r (some (ip ∷ ips)) i o e h = (ip, cc, inr (i, (ips, e)))

  -- An address that is resolved is the address that was asked for, or it keeps the port of that and puts in
  -- place of the host the override, which is then the text of an address, or the first address that the
  -- internal DNS server gives for the host, which is then one of the internal domains; a host that is an
  -- address is left as it is.
  pub resolve_rdp_address-IsPlace :
      (address override host r : Text) (port : Option Text) (force : Bool)
      → split_rdp_address address ≡ some (host, port)
      → resolve_rdp_address address override force ≡ resolved r
      → (r ≡ address) ⊎ ((is_ip host ≡ false) × IsPlace (trim_space override) host port r)
  unfolding resolve_rdp_address resolve_split
  resolve_rdp_address-IsPlace address text host r port force split h =
      let override = trim_space text in
      let server = normalize_dns_server_address internal_dns_server in
      let k : resolve_split address text force (host, port) ≡ resolved r =
        rw (split, resolve_rdp_address) at h in
      elim (Bool-cases (is_ip host)) [
        | inl a ↦ let same : resolved address ≡ resolved r = rw (a, resolve_split) at k in inl cc
        | inr a ↦ elim (Bool-cases (not (is_empty override) && not (is_ip override))) [
          | inl b ↦ let bad : failed bad_override ≡ resolved r = rw (a, b, resolve_split) at k in cc
          | inr b ↦ elim (Bool-cases (force && not (is_empty override))) [
            | inl c ↦
                let same : resolved (join_rdp_address override port) ≡ resolved r =
                  rw (a, b, c, resolve_split) at k in
                inr (a, (override, cc, inl (refl, ground arith)))
            | inr c ↦
                elim (Bool-cases
                  (not (matches_internal_domain host internal_domains) || is_empty server)) [
                    | inl d ↦
                        let same : resolved address ≡ resolved r =
                          rw (a, b, c, d, resolve_split) at k in
                        inl cc
                    | inr d ↦
                        let rest : looked_up port override (lookup_ip server host) ≡ resolved r =
                          rw (a, b, c, d, resolve_split) at k in
                        inr (
                          a,
                          looked_up-IsPlace host port override r (lookup_ip server host)
                              (ground arith) b refl rest,
                        )
                  ]
          ]
        ]
      ]
