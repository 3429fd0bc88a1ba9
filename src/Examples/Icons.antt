-- ===== src/Examples/Icons.antt =====
-- Calls of the icon store.
use home_rdp_gateway.Base.{
  ℕ, ◌≡◌, ◌∙◌, refl, sym, ap, true, false, Option, none, some, List, [], ◌∷◌,
}
use home_rdp_gateway.Base.Texts.{Text, codes}
use home_rdp_gateway.Base.Keyed.{find}
use home_rdp_gateway.Go.Strings.{trim_space, trim_left, trim_right, to_lower, lower}
use home_rdp_gateway.Dashboard.File.{absent, holds, ok, read_json, write_json}
use home_rdp_gateway.Dashboard.Store.{
  System, base, remove_named, regular_file_usage, check_quota, enforce_file_quota,
}
use home_rdp_gateway.Dashboard.Icons.{
  Icon, FileIconStore, icon_id, ext, content_type_of, validate_icon_name, is_ico,
  validate_icon_content, is_safe_stored_icon, filter_safe_icons, read_icons, SavedIcon, written,
  saved, write_icon, quota_of, store_icon, save_icon, marked, mark_active, write_icons,
  set_active_icon, type_ico,
}
use home_rdp_gateway.Dashboard.Icons.Laws.{IsGood}
use home_rdp_gateway.Dashboard.Icons.Steps.{IsNew, IsReached, starts, saves, reached-IsGood}

abbrev fresh : FileIconStore
fresh = record {
  metadata = absent;
  files = [];
  options = record { max_icons = 4; max_storage_bytes = 100 };
}

abbrev system : System
system = record { now = 7; stat_fails = false; fault = none; remove_fails = false }

abbrev no_format : List ℕ → Option Text
no_format content = none

-- The header of an ICO file.
abbrev content : List ℕ
content = 0 ∷ 0 ∷ 1 ∷ 0 ∷ 1 ∷ 0 ∷ []

abbrev first_icon : Icon
first_icon = record {
  id = codes "ab";
  filename = codes "ab.ico";
  original_name = codes "My.ICO";
  content_type = type_ico;
  active = true;
  created_at = 7;
  updated_at = 7;
}

abbrev one : FileIconStore
one = record fresh {
  metadata = holds (first_icon ∷ []);
  files = record { name = codes "ab.ico"; size = 6; regular = true } ∷ [];
}

saved_one :
    save_icon no_format system (some (codes "ab")) written (codes "My.ICO ") content fresh
    ≡ (one, saved first_icon)
unfolding save_icon validate_icon_name ext trim_space trim_left trim_right to_lower lower
    content_type_of validate_icon_content is_ico read_icons read_json filter_safe_icons store_icon
    enforce_file_quota regular_file_usage check_quota quota_of write_icon write_json remove_named
    base
saved_one = refl

abbrev two : FileIconStore
two = record fresh {
  metadata = holds (first_icon ∷ record first_icon { id = codes "cd"; active = false } ∷ []);
}

selected_two : set_active_icon system (codes " cd") two ≡ (
  record two {
    metadata =
        holds (record first_icon { active = false } ∷ record first_icon { id = codes "cd" } ∷ []);
  },
  none,
)
unfolding set_active_icon validate_icon_name ext trim_space trim_left trim_right to_lower lower
    content_type_of read_icons read_json filter_safe_icons is_safe_stored_icon find mark_active
    marked write_icons write_json
selected_two = refl

IsNew-in_fresh : IsNew (some (codes "ab")) (record fresh { metadata = absent })
unfolding read_icons read_json filter_safe_icons find
IsNew-in_fresh = λ id e is q. let same : [] ≡ is = cc in ap (find icon_id id) (sym same)

one-IsReached :
    IsReached no_format
      (save_icon no_format system
        (some (codes "ab"))
        written
        (codes "My.ICO ")
        content
        (record fresh { metadata = absent })).0
one-IsReached =
    saves system (some (codes "ab")) written (codes "My.ICO ") content
      (record fresh { metadata = absent }) IsNew-in_fresh (starts fresh)

read_one : read_icons one ≡ ok (first_icon ∷ [])
unfolding read_icons read_json filter_safe_icons is_safe_stored_icon validate_icon_name ext
    trim_space trim_left trim_right to_lower lower content_type_of
read_one = refl

reached-IsGood_example : IsGood (first_icon ∷ [])
reached-IsGood_example =
    reached-IsGood no_format
      (save_icon no_format system (some (codes "ab")) written (codes "My.ICO ") content
        (record fresh { metadata = absent })).0
      (first_icon ∷ []) one-IsReached
      (ap (λ (r : FileIconStore × SavedIcon). read_icons r.0) saved_one ∙ read_one)
