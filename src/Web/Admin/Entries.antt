-- ===== src/Web/Admin/Entries.antt =====
-- The handlers of the entries in cmd/rdpgw/web/admin_handlers.go. The form of an upload and the random texts are
-- parameters; a request behind the test of its origin and of the store is one step.
use home_rdp_gateway.Base.{
  ℕ, Bool, true, not, ◌||◌, Option, none, some, List, [], ◌∷◌, any, map, if◌then◌else◌,
}
use home_rdp_gateway.Base.Texts.{Text, text_eq, codes}
use home_rdp_gateway.Go.Strings.{is_empty, trim_space, to_lower, split}
use home_rdp_gateway.Dashboard.EntryIcon.{normalize_entry_icon, uploaded_entry_icon_id}
use home_rdp_gateway.Dashboard.File.{StoreError, validation, Reading, ok, failed}
use home_rdp_gateway.Dashboard.Entry.{Entry, type_host, type_template}
use home_rdp_gateway.Dashboard.Store.{System}
use home_rdp_gateway.Dashboard.Icons.{Icon, FileIconStore, list_icons}

-- The statuses 400, 403, 404, 500 and 503 of a refusal.
pub data Status : Type 0 where
  bad_request forbidden no_such_entry server_error unavailable : Status

-- adminEntryResponse.
pub record EntryResponse : Type 0 where
  pub id : Text
  pub entry_type : Text
  pub name : Text
  pub description : Text
  pub icon : Text
  pub allowed_groups : List Text
  pub enabled : Bool
  pub host : Text
  pub target_host_override : Text
  pub target_ip_override : Text
  pub force_target_ip_override : Bool
  pub has_uploaded_template : Bool
  pub created_at : ℕ
  pub updated_at : ℕ

unfoldable pub new_response : Entry → EntryResponse
new_response e = record {
  id = e.id;
  entry_type = e.entry_type;
  name = e.name;
  description = e.description;
  icon = normalize_entry_icon e.icon;
  allowed_groups = e.allowed_groups;
  enabled = e.enabled;
  host = e.host;
  target_host_override = e.target_host_override;
  target_ip_override = e.target_ip_override;
  force_target_ip_override = e.force_target_ip_override;
  has_uploaded_template = not (is_empty (trim_space e.uploaded_template_path));
  created_at = e.created_at;
  updated_at = e.updated_at;
}

pub data Answer : Type 0 where
  refuses : Status → Answer
  shows : EntryResponse → Answer
  lists : List EntryResponse → Answer
  deleted : Answer

unfoldable pub status_for_put_error : StoreError → Status
status_for_put_error validation = bad_request
status_for_put_error _ = server_error

unfoldable pub list_entries : Reading Entry → Answer
unfolding new_response
list_entries (failed e) = refuses server_error
list_entries (ok entries) = lists (map new_response entries)

-- The icon that is kept, or the status of its refusal.
pub data IconResult : Type 0 where
  kept : Text → IconResult
  icon_refused : Status → IconResult

unfoldable pub known_icon : Text → Text → Reading Icon → IconResult
known_icon icon id (failed e) = icon_refused server_error
known_icon icon id (ok icons) =
    if any (λ (i : Icon). text_eq i.id id) icons then kept icon else icon_refused bad_request

-- normalizeAdminEntryIcon with statusForEntryIconError; the icon store is `none` where there is none.
unfoldable pub normalize_icon : Option FileIconStore → Text → IconResult
unfolding known_icon uploaded_entry_icon_id normalize_entry_icon
normalize_icon icons value =
    let icon = normalize_entry_icon value in
    elim (uploaded_entry_icon_id icon) [
      | none ↦ kept icon
      | some id ↦ elim icons [
        | none ↦ icon_refused bad_request
        | some store ↦ known_icon icon id (list_icons store)
      ]
    ]

unfoldable pub non_blank : List Text → List Text
unfolding trim_space
non_blank [] = []
non_blank (part ∷ parts) =
    let rest = non_blank parts in
    if is_empty (trim_space part) then rest else trim_space part ∷ rest

unfoldable pub split_csv : Text → List Text
unfolding non_blank split
split_csv value = non_blank (split b',' value)

pub record CreateHostRequest : Type 0 where
  pub name : Text
  pub description : Text
  pub icon : Text
  pub allowed_groups : List Text
  pub host : Text
  pub target_ip_override : Text
  pub force_target_ip_override : Bool

pub record UpdateRequest : Type 0 where
  pub name : Option Text
  pub description : Option Text
  pub icon : Option Text
  pub allowed_groups : Option (List Text)
  pub enabled : Option Bool
  pub host : Option Text
  pub target_host_override : Option Text
  pub target_ip_override : Option Text
  pub force_target_ip_override : Option Bool

-- The file of a form: its name, its content if that can be read, and its size.
pub record FormFile : Type 0 where
  pub filename : Text
  pub content : Option Text
  pub size : ℕ

-- The values of a form, "" for none, and its file.
pub record Form : Type 0 where
  pub name : Text
  pub description : Text
  pub icon : Text
  pub allowed_groups : Text
  pub target_host_override : Text
  pub target_ip_override : Text
  pub force_target_ip_override : Text
  pub template : Option FormFile

-- What happens in a request: the system, the random texts of an upload and of an entry, and whether the upload cannot
-- be written.
pub record Circumstance : Type 0 where
  pub sys : System
  pub upload_text : Option Text
  pub entry_id : Option Text
  pub upload_fails : Bool

abbrev pub or_else : {A : Type 0} → A → Option A → A
or_else a none = a
or_else a (some b) = b

abbrev trimmed_or : Text → Option Text → Text
trimmed_or t none = t
trimmed_or t (some s) = trim_space s

-- The entry after the changes of an update, all but the icon.
unfoldable pub changed : UpdateRequest → Entry → Entry
unfolding trim_space
changed r e = record e {
  name = trimmed_or e.name r.name;
  description = trimmed_or e.description r.description;
  allowed_groups = or_else e.allowed_groups r.allowed_groups;
  enabled = or_else e.enabled r.enabled;
  host = if text_eq e.entry_type type_host then trimmed_or e.host r.host else e.host;
  target_host_override =
      if text_eq e.entry_type type_template
      then trimmed_or e.target_host_override r.target_host_override
      else e.target_host_override;
  target_ip_override = trimmed_or e.target_ip_override r.target_ip_override;
  force_target_ip_override = or_else e.force_target_ip_override r.force_target_ip_override;
}

unfoldable pub host_entry : Text → Text → CreateHostRequest → Entry
unfolding trim_space
host_entry id icon r = record {
  id = id;
  entry_type = type_host;
  name = trim_space r.name;
  description = trim_space r.description;
  icon = icon;
  allowed_groups = r.allowed_groups;
  enabled = true;
  host = trim_space r.host;
  uploaded_template_path = [];
  target_host_override = [];
  target_ip_override = trim_space r.target_ip_override;
  force_target_ip_override = r.force_target_ip_override;
  created_at = 0;
  updated_at = 0;
}

unfoldable pub template_entry : Text → Text → Text → Form → Entry
unfolding trim_space split_csv to_lower
template_entry id icon path f = record {
  id = id;
  entry_type = type_template;
  name = trim_space f.name;
  description = trim_space f.description;
  icon = icon;
  allowed_groups = split_csv f.allowed_groups;
  enabled = true;
  host = [];
  uploaded_template_path = path;
  target_host_override = trim_space f.target_host_override;
  target_ip_override = trim_space f.target_ip_override;
  force_target_ip_override =
      text_eq f.force_target_ip_override (codes "on")
      || text_eq (to_lower f.force_target_ip_override) (codes "true");
  created_at = 0;
  updated_at = 0;
}
