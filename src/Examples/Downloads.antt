-- ===== src/Examples/Downloads.antt =====
-- The download of an entry.
use home_rdp_gateway.Base.{◌≡◌, ◌++◌, refl, true, false, Option, none, some, [], ◌∷◌}
use home_rdp_gateway.Base.Texts.{Text, codes}
use home_rdp_gateway.Base.Keyed.{find}
use home_rdp_gateway.Go.Strconv.{atoi, signed, digits_from, format_int}
use home_rdp_gateway.Go.Strings.{
  trim_space, trim_left, trim_right, to_lower, lower, has_suffix, cut, replace_once,
}
use home_rdp_gateway.Go.Net.{split_host_port}
use home_rdp_gateway.Identity.User.{User, groups, members, sort_texts, insert_text}
use home_rdp_gateway.Dashboard.File.{holds, read_json}
use home_rdp_gateway.Dashboard.EntryIcon.{
  normalize_entry_icon, is_uploaded_entry_icon, uploaded_entry_icon_id,
}
use home_rdp_gateway.Dashboard.Entry.{Entry, type_host, group_names, visible_entries, visible_among}
use home_rdp_gateway.Dashboard.Entry.Laws.{IsFor}
use home_rdp_gateway.Dashboard.Store.{FileStore, found, get, read_locked, base}
use home_rdp_gateway.Security.HostTemplate.{
  resolve_preferred_username_host, replace_first, validate_rendered_host,
}
use home_rdp_gateway.Web.InternalDns.{resolved}
use home_rdp_gateway.Rdp.Builder.{
  new_builder, init_struct, init_field, set_variable, is_zero, is_set, field_line,
  add_struct_to_string, to_string,
}
use home_rdp_gateway.Web.Download.{
  Handler, set_field, set_setting, set_all, force_rdp_field, force_all,
  apply_rdp_redirection_policy, resolve_target, build_entry_builder, split_user, render_username,
  with_user_token, finished, build_file, serve, download_found, handle_entry_download, file_name,
}
use home_rdp_gateway.Web.Download.Served.{IsFileOf, handle_entry_download-serves}
use home_rdp_gateway.Web.Download.Settings.{GivesFields}

abbrev handler : Handler
handler = record {
  opts = record { username_template = []; split_user_domain = true; no_username = false };
  policy = record {
    clipboard = true;
    drive = false;
    printer = true;
    port = false;
    device = false;
    pnp = false;
  };
  gateway_host = codes "gw";
  rdp_defaults = [];
  paa_token_generator = some (λ user host. some host);
  enable_user_token = false;
  user_token_generator = none;
  signer = some (λ content. some content);
  read_file = λ path. none;
  read_upload = λ path. none;
  resolve = λ address override force. resolved address;
}

abbrev ann : User
ann = record {
  authenticated = true;
  domain = [];
  user_name = codes "ann@x";
  display_name = [];
  email = [];
  auth_time = 0;
  session_id = codes "id";
  expiry = 0;
  attributes = [];
  group_membership = (codes "g", true) ∷ [];
}

abbrev entry : Entry
entry = record {
  id = codes "e";
  entry_type = type_host;
  name = codes "n";
  description = [];
  icon = codes "folder";
  allowed_groups = codes "g" ∷ [];
  enabled = true;
  host = codes "h";
  uploaded_template_path = [];
  target_host_override = [];
  target_ip_override = [];
  force_target_ip_override = false;
  created_at = 3;
  updated_at = 3;
}

abbrev store : FileStore
store = record {
  metadata = holds (entry ∷ []);
  uploads = [];
  options = record { max_uploads = 2; max_storage_bytes = 100 };
}

abbrev with_end : Text → Text → Text
with_end line rest = line ++ b'\r' ∷ b'\n' ∷ rest

abbrev file : Text
file = with_end (codes "gatewayhostname:s:gw") (
    with_end (codes "full address:s:h") (
      with_end (codes "username:s:ann") (
        with_end (codes "domain:s:x") (
          with_end (codes "gatewaycredentialssource:i:5") (
            with_end (codes "gatewayprofileusagemethod:i:1") (
              with_end (codes "gatewayusagemethod:i:1") (
                with_end (codes "gatewayaccesstoken:s:h") (
                  with_end (codes "devicestoredirect:s:false") (
                    with_end (codes "drivestoredirect:s:false") (
                      with_end (codes "redirectclipboard:i:1") (
                        with_end (codes "redirectcomports:i:0") (
                          with_end (codes "redirectprinters:i:1")
                            (with_end (codes "usbdevicestoredirect:s:false") [])))))))))))))

no_files : GivesFields (λ path. none)
no_files path b e = cc

handle_entry_download-serves_example :
    (u : User) × (s : FileStore) × (e : Entry) × (◌≡◌ {A = Option User} (some ann) (some u))
    × (u.authenticated ≡ true)
    × (◌≡◌ {A = Option FileStore} (some store) (some s))
    × (get (codes "e") s ≡ found e)
    × IsFor (groups u) e
    × IsFileOf handler u e file
    × (file_name e.id ≡ codes "e.rdp")
unfolding handle_entry_download download_found serve build_file build_entry_builder resolve_target
    resolve_preferred_username_host replace_first validate_rendered_host split_user render_username
    with_user_token finished apply_rdp_redirection_policy set_all force_all set_setting set_field
    force_rdp_field to_string add_struct_to_string is_zero is_set field_line get read_locked
    new_builder init_struct init_field set_variable atoi signed digits_from format_int read_json
    find visible_entries visible_among group_names groups members sort_texts insert_text
    normalize_entry_icon is_uploaded_entry_icon uploaded_entry_icon_id file_name base has_suffix
    to_lower lower trim_space trim_left trim_right cut replace_once split_host_port
handle_entry_download-serves_example =
    handle_entry_download-serves handler (some store) (some ann) (codes "e") (codes "e.rdp") file
      no_files no_files refl
