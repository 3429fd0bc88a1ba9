-- ===== src/Examples/Administration.antt =====
-- The administration of users and entries.
use home_rdp_gateway.Base.{ℕ, ◌≡◌, refl, ap, true, false, Option, none, some, List, [], ◌∷◌, arith}
use home_rdp_gateway.Base.Texts.{Text, text_eq, codes}
use home_rdp_gateway.Base.Keyed.{find, replace}
use home_rdp_gateway.Base.Assoc.{lookup}
use home_rdp_gateway.Go.Strings.{trim_space, trim_left, trim_right, to_lower, lower}
use home_rdp_gateway.Dashboard.File.{absent, holds, read_json, write_json}
use home_rdp_gateway.Dashboard.AuthUsers.{
  AuthUser, is_valid_auth_user, list, get, put, upsert, helper_users,
}
use home_rdp_gateway.Dashboard.AuthUsers.Laws.{IsKeyed}
use home_rdp_gateway.Dashboard.AuthUsers.View.{view}
use home_rdp_gateway.Auth.Users.{users_to_map, password_of}
use home_rdp_gateway.Web.Admin.Origin.{
  Url, Source, effective_origin_port, request_origin_url, request_referer_url,
  same_configured_origin, same_origin_allowed, same_origin_admin_request,
}
use home_rdp_gateway.Web.Admin.AuthUsers.{
  Administration, Circumstance, Call, updates, run_call, update_found, after_put, regenerate,
  regenerate_from, write_auth_helper_config, finish_shown, shown, new_response, handle,
}
use home_rdp_gateway.Web.Admin.Helper.{loaded, enabled_password, handle-helper}
use home_rdp_gateway.Web.Admin.SameOrigin.{IsSameOrigin, handle-IsSameOrigin}

abbrev user : ℕ → AuthUser
user name = record {
  username = name ∷ [];
  password = b'p' ∷ [];
  enabled = true;
  created_at = 1;
  updated_at = 1;
}

abbrev before : Administration
before = record { users = holds (user b'a' ∷ user b'b' ∷ []); config = absent }

abbrev calm : Circumstance
calm = record { now = 7; fault = none; config_fault = none }

-- The user "a" is disabled.
abbrev disabling : Call
disabling = updates (codes " a") (some (record { password = none; enabled = some false }))

handle-helper_example :
    (pairs : List (Text × Text)) × ((handle true true true calm disabling before).0.config
      ≡ holds pairs)
    × IsKeyed (handle true true true calm disabling before).0.users
    × ((name : Text)
        → password_of (lookup name (users_to_map (loaded pairs)))
          ≡ enabled_password (view (handle true true true calm disabling before).0.users name))
unfolding handle run_call update_found after_put regenerate regenerate_from write_auth_helper_config
    finish_shown shown new_response get put upsert list helper_users is_valid_auth_user read_json
    write_json find replace trim_space trim_left trim_right
handle-helper_example =
    handle-helper true true true calm disabling before
      (user b'a' ∷ user b'b' ∷ [], refl, ((ground arith, tt), (tt, tt))) tt

abbrev gateway : Url
gateway = record { scheme = codes "https"; host = codes "g"; hostname = codes "g"; port = [] }

abbrev parse_any : Text → Option Url
parse_any t = some (record {
  scheme = codes "https";
  host = codes "g:443";
  hostname = codes "g";
  port = codes "443";
})

abbrev own_page : Source
own_page = record { origin = codes "https://g:443"; referer = []; host = codes "g" }

handle-IsSameOrigin_example : IsSameOrigin parse_any text_eq gateway own_page
unfolding handle run_call update_found after_put regenerate regenerate_from write_auth_helper_config
    finish_shown shown new_response get put upsert list helper_users is_valid_auth_user read_json
    write_json find replace trim_space trim_left trim_right same_origin_admin_request
    same_origin_allowed same_configured_origin request_origin_url request_referer_url
    effective_origin_port to_lower lower
handle-IsSameOrigin_example =
    handle-IsSameOrigin parse_any text_eq gateway own_page true true calm disabling before refl
      (λ q. let config = ap (λ (a : Administration). a.config) q in cc)
