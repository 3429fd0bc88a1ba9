-- ===== src/Web/Admin/Origin.antt =====
-- Where a request for the administration comes from: sameOriginAdminRequest of
-- cmd/rdpgw/web/admin_handlers.go. Of a URL the parts are kept that package net/url gives; url.Parse and
-- strings.EqualFold are parameters.
use home_rdp_gateway.Base.{Bool, false, not, ◌||◌, Option, none, some, [], if◌then◌else◌}
use home_rdp_gateway.Base.Texts.{Text, text_eq, codes}
use home_rdp_gateway.Go.Strings.{trim_space, is_empty, to_lower}

-- The scheme, the host with its port, the host without it, and the port of a URL.
pub record Url : Type 0 where
  pub scheme : Text
  pub host : Text
  pub hostname : Text
  pub port : Text

-- The headers Origin and Referer of a request, "" for none, and its host.
pub record Source : Type 0 where
  pub origin : Text
  pub referer : Text
  pub host : Text

unfoldable pub effective_origin_port : Url → Text
unfolding to_lower
effective_origin_port u =
    let scheme = to_lower u.scheme in
    if not (is_empty u.port)
    then u.port
    else if text_eq scheme (codes "https")
    then codes "443"
    else if text_eq scheme (codes "http")
    then codes "80"
    else []

module _ (parse_url : Text → Option Url) where
  -- A URL that has a host.
  abbrev pub with_host : Option Url → Option Url
  with_host none = none
  with_host (some u) = if is_empty u.host then none else some u

  unfoldable pub request_origin_url : Source → Option Url
  unfolding trim_space
  request_origin_url r =
      let raw = trim_space r.origin in
      if is_empty raw || text_eq raw (codes "null") then none else with_host (parse_url raw)

  unfoldable pub request_referer_url : Source → Option Url
  unfolding trim_space
  request_referer_url r =
      let raw = trim_space r.referer in if is_empty raw then none else with_host (parse_url raw)

module _ (equal_fold : Text → Text → Bool) where
  unfoldable pub same_configured_origin : Url → Url → Bool
  unfolding effective_origin_port
  same_configured_origin target configured =
      let scheme = if is_empty configured.scheme then target.scheme else configured.scheme in
      if is_empty configured.hostname
      then false
      else if not (equal_fold target.scheme scheme)
      then false
      else if not (equal_fold target.hostname configured.hostname)
      then false
      else text_eq (effective_origin_port target) (effective_origin_port configured)

  -- `gateway` is the address of the gateway, if one is configured.
  unfoldable pub same_origin_allowed : Option Url → Url → Source → Bool
  unfolding same_configured_origin
  same_origin_allowed none target r = equal_fold target.host r.host
  same_origin_allowed (some gateway) target r =
      if is_empty gateway.host
      then equal_fold target.host r.host
      else same_configured_origin target gateway

  -- The two headers, one after the other.
  abbrev pub allowed_first : Option Url → Source → Option Url → Option Url → Bool
  allowed_first gateway r (some target) referer = same_origin_allowed gateway target r
  allowed_first gateway r none (some target) = same_origin_allowed gateway target r
  allowed_first gateway r none none = false

  module _ (parse_url : Text → Option Url) where
    unfoldable pub same_origin_admin_request : Option Url → Source → Bool
    unfolding same_origin_allowed request_origin_url request_referer_url
    same_origin_admin_request gateway r =
        allowed_first gateway r (request_origin_url parse_url r) (request_referer_url parse_url r)
