-- ===== src/Examples/Entries.antt =====
-- The entries of the dashboard.
use home_rdp_gateway.Base.{◌≡◌, ◌⊎◌, ◌↔◌, arith, refl, Bool, true, false, none, some, List, [], ◌∷◌}
use home_rdp_gateway.Base.Texts.{Text, codes}
use home_rdp_gateway.Base.Keyed.{find}
use home_rdp_gateway.Dashboard.File.{StoreError, holds, ok, read_json}
use home_rdp_gateway.Dashboard.EntryIcon.{
  normalize_entry_icon, is_valid_entry_icon, is_uploaded_entry_icon, uploaded_entry_icon_id,
}
use home_rdp_gateway.Go.Strings.{trim_space, trim_left, trim_right, to_lower, lower, has_suffix}
use home_rdp_gateway.Go.Net.{split_host_port}
use home_rdp_gateway.Go.Strconv.{atoi_natural}
use home_rdp_gateway.Dashboard.Entry.{
  Entry, type_host, type_template, is_host_port, is_rdp_path, validate, visible_entries,
}
use home_rdp_gateway.Base.Members.{IsIn}
use home_rdp_gateway.Dashboard.Entry.Laws.{IsFor, visible_entries_iff}
use home_rdp_gateway.Dashboard.Store.{
  Upload, FileStore, System, id_of, base, has_upload, read_locked, get, found, check_template, put,
  refused, save_upload,
}
use home_rdp_gateway.Dashboard.Store.Laws.{again, stored, put-get_entry, put-has_upload}
use home_rdp_gateway.Dashboard.Store.Quota.{IsWithin, save_upload-IsWithin}

abbrev no_ip : Text → Bool
no_ip s = false

abbrev entry : Text → Text → Text → Entry
entry id entry_type path = record {
  id = id;
  entry_type = entry_type;
  name = codes "n";
  description = [];
  icon = codes "folder";
  allowed_groups = codes "g" ∷ [];
  enabled = true;
  host = codes "h:9";
  uploaded_template_path = path;
  target_host_override = [];
  target_ip_override = [];
  force_target_ip_override = false;
  created_at = 3;
  updated_at = 3;
}

abbrev upload : Upload
upload = record { name = codes "t.rdp"; size = 10; regular = true }

-- Two entries with the same template.
abbrev entries : List Entry
entries =
    entry (codes "a") type_template (codes "t.rdp")
    ∷ entry (codes "b") type_template (codes "t.rdp")
    ∷ []

abbrev store : FileStore
store = record {
  metadata = holds entries;
  uploads = upload ∷ [];
  options = record { max_uploads = 2; max_storage_bytes = 100 };
}

abbrev system : System
system = record { now = 7; stat_fails = false; fault = none; remove_fails = false }

store_read : read_locked store.metadata ≡ ok entries
unfolding read_locked read_json normalize_entry_icon is_uploaded_entry_icon uploaded_entry_icon_id
    trim_space trim_left trim_right to_lower lower
store_read = refl

put-get_entry_example :
    ((put no_ip system (entry (codes "b") type_host []) store).1 ≡ none)
    × (get (codes "b") (put no_ip system (entry (codes "b") type_host []) store).0
        ≡ found (stored 7 (entry (codes "b") type_host []) (find id_of (codes "b") entries)))
    × (get (codes "a") (put no_ip system (entry (codes "b") type_host []) store).0
        ≡ again (find id_of (codes "a") entries))
unfolding validate check_template is_host_port split_host_port atoi_natural is_valid_entry_icon
    normalize_entry_icon is_uploaded_entry_icon uploaded_entry_icon_id trim_space trim_left
    trim_right to_lower lower
put-get_entry_example =
    put-get_entry no_ip system (entry (codes "b") type_host []) store entries (codes "a") refl refl
      refl store_read (ground arith)

put-has_upload_example :
    ((put no_ip system (entry (codes "a") type_template (codes "d/t.rdp")) store).1 ≡ none)
    × (has_upload
          (codes "d/t.rdp")
          (put no_ip system (entry (codes "a") type_template (codes "d/t.rdp")) store).0.uploads
        ≡ false)
unfolding find base validate check_template is_rdp_path has_suffix is_valid_entry_icon
    normalize_entry_icon is_uploaded_entry_icon uploaded_entry_icon_id trim_space trim_left
    trim_right to_lower lower
put-has_upload_example =
    put-has_upload no_ip system (entry (codes "a") type_template (codes "d/t.rdp"))
      (entry (codes "a") type_template (codes "t.rdp")) store entries refl refl refl refl store_read
      refl refl refl refl

save_upload-IsWithin_example :
    ((e : StoreError) × (save_upload (some (codes "00")) false 90 store ≡ (store, refused e)))
    ⊎ IsWithin store.options (save_upload (some (codes "00")) false 90 store).0.uploads
save_upload-IsWithin_example = save_upload-IsWithin (some (codes "00")) false 90 store

visible_entries_iff_example :
    IsIn (entry (codes "a") type_host []) (visible_entries entries (codes " g" ∷ [])) ↔ (
      IsIn (entry (codes "a") type_host []) entries
      × IsFor (codes " g" ∷ []) (entry (codes "a") type_host []))
visible_entries_iff_example =
    visible_entries_iff entries (codes " g" ∷ []) (entry (codes "a") type_host [])
