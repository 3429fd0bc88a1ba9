-- ===== src/Examples/Uploads.antt =====
-- An upload that is withdrawn.
use home_rdp_gateway.Base.{◌≡◌, ◌++◌, refl, Bool, true, false, none, some, []}
use home_rdp_gateway.Base.Texts.{Text, codes}
use home_rdp_gateway.Base.Assoc.{assign, erase}
use home_rdp_gateway.Go.Strings.{trim_space, trim_left, trim_right, to_lower, lower, split, cut}
use home_rdp_gateway.Utf.Utf8.{encode_runes, encode_rune}
use home_rdp_gateway.Dashboard.File.{absent}
use home_rdp_gateway.Dashboard.EntryIcon.{
  normalize_entry_icon, is_uploaded_entry_icon, uploaded_entry_icon_id, is_valid_entry_icon,
}
use home_rdp_gateway.Dashboard.Entry.{validate}
use home_rdp_gateway.Dashboard.Store.{
  FileStore, System, put, save_upload, enforce_file_quota, regular_file_usage, check_quota,
}
use home_rdp_gateway.Dashboard.Icons.{ext}
use home_rdp_gateway.Rdp.Parser.{
  unmarshal, split_lines, scan, drop_cr, parse_lines, parse_line, parse_fields, three_fields,
  parse_value,
}
use home_rdp_gateway.Web.Admin.Entries.{
  bad_request, Form, Circumstance, normalize_icon, template_entry, split_csv, non_blank,
  status_for_put_error,
}
use home_rdp_gateway.Web.Admin.EntryHandlers.{
  creates_template, create_template, checked_template, after_upload, put_template,
  after_template_put, withdraw, handle,
}
use home_rdp_gateway.Web.Admin.Withdrawals.{has_slash}
use home_rdp_gateway.Web.Admin.Refusals.{handle-refused}

abbrev no_ip : Text → Bool
no_ip s = false

abbrev store : FileStore
store = record {
  metadata = absent;
  uploads = [];
  options = record { max_uploads = 2; max_storage_bytes = 100 };
}

abbrev system : System
system = record { now = 7; stat_fails = false; fault = none; remove_fails = false }

abbrev circumstance : Circumstance
circumstance = record {
  sys = system;
  upload_text = some (codes "0a");
  entry_id = some (codes "e");
  upload_fails = false;
}

-- A form with a template and no name.
abbrev nameless : Form
nameless = record {
  name = [];
  description = [];
  icon = codes "desktop";
  allowed_groups = codes "g";
  target_host_override = [];
  target_ip_override = [];
  force_target_ip_override = [];
  template = some (record { filename = codes "t.rdp"; content = some (codes "a:s:b"); size = 5 });
}

plain_text :
    (text : Text) → some (codes "0a") ≡ some text → has_slash (text ++ codes ".rdp") ≡ false
unfolding has_slash
plain_text text h =
    let same : codes "0a" ≡ text = cc in
    mathlib.Core.Path.subst (λ t. has_slash (t ++ codes ".rdp") ≡ false) same refl

handle-refused_example :
    (handle no_ip none true true circumstance (creates_template (some nameless)) store).0 ≡ store
unfolding handle create_template checked_template after_upload put_template after_template_put
    withdraw unmarshal split_lines scan drop_cr parse_lines parse_line parse_fields three_fields
    parse_value encode_runes encode_rune save_upload enforce_file_quota regular_file_usage
    check_quota ext to_lower lower trim_space trim_left trim_right cut assign erase normalize_icon
    normalize_entry_icon is_uploaded_entry_icon uploaded_entry_icon_id is_valid_entry_icon
    template_entry split_csv non_blank split put validate status_for_put_error
handle-refused_example =
    handle-refused no_ip none true true circumstance (creates_template (some nameless)) store
      bad_request (refl, plain_text) refl
