-- ===== src/Web/TrustedProxy.antt =====
-- cmd/rdpgw/web/trusted_proxy.go. The address arithmetic of package net is a parameter: `parse_ip` is the
-- text of the address that a text spells, `parse_cidr` the test for an address of the network that a
-- text spells, both none for an error.
use home_rdp_gateway.Base.{Bool, false, not, Option, none, some, List, [], ◌∷◌, any, if◌then◌else◌}
use home_rdp_gateway.Base.Texts.{Text}
use home_rdp_gateway.Go.Strings.{trim_space, is_empty, split}
use home_rdp_gateway.Go.Net.{split_host_port}

abbrev pub Network : Type 0
Network = Text → Bool

-- A checker has its networks; none stands for a nil one.
abbrev pub Checker : Type 0
Checker = Option (List Network)

unfoldable pub new_trusted_proxy_checker :
    (Text → Option Network) → List Text → Option (List Network)
new_trusted_proxy_checker parse_cidr [] = some []
new_trusted_proxy_checker parse_cidr (cidr ∷ cidrs) =
    let text = trim_space cidr in
    let rest = new_trusted_proxy_checker parse_cidr cidrs in
    if is_empty text then rest else elim (parse_cidr text) [
      | none ↦ none
      | some network ↦ elim rest [ none ↦ none | some networks ↦ some (network ∷ networks) ]
    ]

abbrev pub networks_of : Checker → List Network
networks_of none = []
networks_of (some networks) = networks

module _ (parse_ip : Text → Option Text) where
  unfoldable pub remote_ip_string : Text → Text
  remote_ip_string remote_addr = elim (split_host_port remote_addr) [
    | some (host, port) ↦ host
    | none ↦ elim (parse_ip remote_addr) [ some ip ↦ ip | none ↦ [] ]
  ]

  -- A checker with no network trusts nobody.
  unfoldable pub is_trusted_remote_addr : Checker → Text → Bool
  is_trusted_remote_addr checker remote_addr = elim (parse_ip (remote_ip_string remote_addr)) [
    | none ↦ false
    | some ip ↦ any (λ (network : Network). network ip) (networks_of checker)
  ]

  -- The loop over the parts: all of them are addresses.
  unfoldable pub parse_all : List Text → Option (List Text)
  parse_all [] = some []
  parse_all (part ∷ parts) =
      let candidate = trim_space part in
      let rest = parse_all parts in
      if is_empty candidate then none else elim (parse_ip candidate) [
        | none ↦ none
        | some ip ↦ elim rest [ none ↦ none | some ips ↦ some (ip ∷ ips) ]
      ]

  unfoldable pub first_valid_forwarded_for : Text → Option (Text × List Text)
  first_valid_forwarded_for header =
      if is_empty header then none else elim (parse_all (split b',' header)) [
        | none ↦ none
        | some ips ↦ elim ips [ [] ↦ none | ip ∷ proxies ↦ some (ip, proxies) ]
      ]

  -- The remote address as it stands where it holds no address.
  abbrev pub remote_of : Text → Text
  remote_of remote_addr =
      let ip = remote_ip_string remote_addr in if is_empty ip then remote_addr else ip

  unfoldable pub client_ip_and_proxies : Checker → Text → Text → Text × List Text
  client_ip_and_proxies checker remote_addr forwarded =
      if not (is_trusted_remote_addr checker remote_addr)
      then (remote_of remote_addr, [])
      else elim (first_valid_forwarded_for forwarded) [
        | none ↦ (remote_of remote_addr, [])
        | some (ip, proxies) ↦ (ip, proxies)
      ]
