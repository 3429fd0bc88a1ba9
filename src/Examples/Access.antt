-- ===== src/Examples/Access.antt =====
-- Requests in front of the routes.
use home_rdp_gateway.Base.{
  Bool, ◌≡◌, ◌↔◌, ◌⊎◌, refl, true, false, Option, none, some, List, [], ◌∷◌,
}
use home_rdp_gateway.Base.Texts.{Text, text_eq, codes}
use home_rdp_gateway.Base.Assoc.{lookup, erase, assign}
use home_rdp_gateway.Go.Strings.{
  is_empty, trim_space, trim_left, trim_right, split, to_lower, lower, has_suffix,
}
use home_rdp_gateway.Go.Net.{split_host_port, join_host_port}
use home_rdp_gateway.Identity.User.{
  text, texts, User, new_user, set_groups, set_attribute, get_attribute, attr_client_ip,
  attr_proxies, attr_remote_addr, attr_auth_source, auth_source_header,
}
use home_rdp_gateway.Web.TrustedProxy.{
  Network, Checker, is_trusted_remote_addr, client_ip_and_proxies, remote_ip_string, remote_of,
  first_valid_forwarded_for, parse_all,
}
use home_rdp_gateway.Web.Middleware.{
  empty, Request, header, forbidden, passes, answers, is_header_session, admit, enrich_context,
  HeaderConfig, from_headers, header_authenticated, admin_only,
}
use home_rdp_gateway.Web.Access.{header_route, session_user, enriched, header_route-IsTrusted}
use home_rdp_gateway.Web.Untrusted.{enrich_context-untrusted}
use home_rdp_gateway.Web.InternalDns.{
  split_rdp_address, brackets_left, brackets_right, resolve_rdp_address, resolve_split,
  normalize_dns_server_address, matches_internal_domain, trim_dot, resolved, IsPlace,
  resolve_rdp_address-IsPlace,
}
use home_rdp_gateway.Web.Administrators.{IsAdministrator, admin_only-set_groups}

abbrev user : User
user = record {
  authenticated = true;
  domain = [];
  user_name = codes "ann";
  display_name = [];
  email = [];
  auth_time = 0;
  session_id = codes "id";
  expiry = 0;
  attributes = [];
  group_membership = [];
}

-- Every text is an address; the network is the one of the proxy "p".
abbrev any_ip : Text → Option Text
any_ip t = some t

abbrev proxy_network : Network
proxy_network ip = text_eq ip (codes "p")

abbrev checker : Checker
checker = some (proxy_network ∷ [])

abbrev from_proxy : Request
from_proxy = record {
  remote_addr = codes "p:1";
  headers = (codes "X-User", codes "ann") ∷ [];
  session = empty;
}

abbrev from_client : Request
from_client = record {
  remote_addr = codes "c:1";
  headers = (codes "X-User", codes "ann") ∷ (codes "X-Forwarded-For", codes "q") ∷ [];
  session = empty;
}

abbrev config : HeaderConfig
config = record {
  user_header = codes "X-User";
  user_id_header = [];
  email_header = [];
  display_name_header = [];
}

admin_only-set_groups_example :
    ((admin_only (codes "ops" ∷ []) (some (set_groups (codes " ops" ∷ []) user))
        ≡ passes (set_groups (codes " ops" ∷ []) user))
      ↔ ((user.authenticated ≡ true) × IsAdministrator (codes "ops" ∷ []) (codes " ops" ∷ [])))
    × ((admin_only (codes "ops" ∷ []) (some (set_groups (codes " ops" ∷ []) user))
          ≡ answers forbidden)
        ↔ ((user.authenticated ≡ true)
            × (IsAdministrator (codes "ops" ∷ []) (codes " ops" ∷ []) → ⊥)))
admin_only-set_groups_example = admin_only-set_groups (codes "ops" ∷ []) (codes " ops" ∷ []) user

-- The new user of a request from an address, with what the middleware notes.
abbrev noted : Text → Text → User
noted addr ip = record user {
  authenticated = false;
  user_name = [];
  attributes =
      (attr_remote_addr, text addr) ∷ (attr_proxies, texts []) ∷ (attr_client_ip, text ip) ∷ [];
}

passes_client :
    enrich_context any_ip checker (codes "id") from_client
    ≡ passes (noted (codes "c:1") (codes "c"))
unfolding enrich_context admit client_ip_and_proxies is_trusted_remote_addr remote_ip_string
    split_host_port header lookup new_user set_attribute assign erase get_attribute
    first_valid_forwarded_for parse_all split
passes_client = refl

untrusted : is_trusted_remote_addr any_ip checker from_client.remote_addr ≡ false
unfolding is_trusted_remote_addr remote_ip_string split_host_port
untrusted = refl

enrich_context-untrusted_example :
    ((forged : List (Text × Text))
      → enrich_context any_ip checker (codes "id") (record from_client { headers = forged })
        ≡ passes (noted (codes "c:1") (codes "c")))
    × (get_attribute attr_client_ip (noted (codes "c:1") (codes "c"))
        ≡ some (text (remote_of any_ip (codes "c:1"))))
    × (get_attribute attr_proxies (noted (codes "c:1") (codes "c")) ≡ some (texts []))
    × (is_header_session (noted (codes "c:1") (codes "c")) ≡ false)
enrich_context-untrusted_example =
    enrich_context-untrusted any_ip checker (codes "id") from_client
      (noted (codes "c:1") (codes "c")) untrusted passes_client

abbrev signed_in : User
signed_in = record (noted (codes "p:1") (codes "p")) {
  authenticated = true;
  user_name = codes "ann";
  auth_time = 5;
  attributes =
      (attr_auth_source, text auth_source_header) ∷ (noted (codes "p:1") (codes "p")).attributes;
}

served :
    header_route any_ip checker config 5 true (codes "id") from_proxy
    ≡ (passes signed_in, some signed_in)
unfolding header_route header_authenticated from_headers enrich_context admit client_ip_and_proxies
    is_trusted_remote_addr remote_ip_string split_host_port header lookup new_user set_attribute
    assign erase get_attribute first_valid_forwarded_for parse_all split
served = refl

header_route-IsTrusted_example :
    (is_trusted_remote_addr any_ip checker from_proxy.remote_addr ≡ true)
    × (signed_in.authenticated ≡ true)
    × (((id : User) × (session_user (codes "id") from_proxy.session ≡ some id)
          × (id.authenticated ≡ true)
          × (signed_in ≡ enriched any_ip checker from_proxy id)
          × (some signed_in ≡ none))
        ⊎ ((is_empty (header config.user_header from_proxy) ≡ false)
            × (signed_in.user_name ≡ header config.user_header from_proxy)
            × (some signed_in ≡ some signed_in)))
header_route-IsTrusted_example =
    header_route-IsTrusted any_ip checker config 5 true (codes "id") from_proxy signed_in
      (some signed_in) served

abbrev no_ip : Text → Bool
no_ip t = false

abbrev one_lookup : Text → Text → Option (List Text)
one_lookup server host = some (codes "10.0.0.9" ∷ [])

abbrev domains : List Text
domains = codes ".corp" ∷ []

splits : split_rdp_address (codes "a.Corp:3389") ≡ some (codes "a.Corp", some (codes "3389"))
unfolding split_rdp_address trim_space trim_left trim_right split_host_port brackets_left
    brackets_right
splits = refl

resolves :
    resolve_rdp_address no_ip one_lookup (codes "dns") domains (codes "a.Corp:3389") [] false
    ≡ resolved (codes "10.0.0.9:3389")
unfolding resolve_rdp_address resolve_split normalize_dns_server_address matches_internal_domain
    trim_dot has_suffix to_lower lower split_rdp_address trim_space trim_left trim_right
    split_host_port join_host_port brackets_left brackets_right
resolves = refl

resolve_rdp_address-IsPlace_example :
    (codes "10.0.0.9:3389" ≡ codes "a.Corp:3389")
    ⊎ ((no_ip (codes "a.Corp") ≡ false)
        × IsPlace no_ip one_lookup
            (codes "dns")
            domains
            (trim_space [])
            (codes "a.Corp")
            (some (codes "3389"))
            (codes "10.0.0.9:3389"))
resolve_rdp_address-IsPlace_example =
    resolve_rdp_address-IsPlace no_ip one_lookup (codes "dns") domains (codes "a.Corp:3389") []
      (codes "a.Corp") (codes "10.0.0.9:3389") (some (codes "3389")) false splits resolves
