-- ===== src/Dashboard/Icons.antt =====
-- cmd/rdpgw/dashboard/icon_store.go: the uploaded icons, one of them active. The mutex makes each call one
-- step; the metadata is written as the other stores' is, only without the step that changes the mode.
pub mod Laws
pub mod Steps
pub mod Names
pub mod Saving
pub mod Selecting
use home_rdp_gateway.Base.{
  ℕ, Bool, true, false, not, ◌&&◌, ◌||◌, ◌==◌, Option, none, some, List, [], ◌∷◌, ◌++◌, any, length,
  map, if◌then◌else◌,
}
use home_rdp_gateway.Base.Texts.{Text, text_eq, codes}
use home_rdp_gateway.Base.Keyed.{find, remove}
use home_rdp_gateway.Go.Strings.{is_empty, trim_space, to_lower}
use home_rdp_gateway.Dashboard.File.{
  StoreError, validation, read_failed, write_failed, not_found, JsonFile, Reading, ok, failed,
  read_json, WriteFault, write_json,
}
use home_rdp_gateway.Dashboard.Store.{
  FileStoreOptions, Upload, System, base, remove_named, remove_upload_file, enforce_file_quota,
}

pub record Icon : Type 0 where
  pub id : Text
  pub filename : Text
  pub original_name : Text
  pub content_type : Text
  pub active : Bool
  pub created_at : ℕ
  pub updated_at : ℕ

-- A limit that is 0 or negative is none: 0 here.
pub record FileIconStoreOptions : Type 0 where
  pub max_icons : ℕ
  pub max_storage_bytes : ℕ

pub record FileIconStore : Type 0 where
  pub metadata : JsonFile Icon
  pub files : List Upload
  pub options : FileIconStoreOptions

abbrev pub icon_id : Icon → Text
icon_id i = i.id

-- `filepath.Ext`: from the last dot of the last element.
unfoldable pub ext : Text → Text
ext [] = []
ext (c ∷ s) =
    let rest = ext s in
    if any (λ d. d == b'.' || d == b'/') s then rest else if c == b'.' then c ∷ s else []

abbrev pub type_ico : Text
type_ico = codes "image/x-icon"

abbrev pub type_png : Text
type_png = codes "image/png"

abbrev pub type_jpeg : Text
type_jpeg = codes "image/jpeg"

-- The content type of an extension.
unfoldable pub content_type_of : Text → Option Text
content_type_of e =
    if text_eq e (codes ".ico") || text_eq e (codes ".icon")
    then some type_ico
    else if text_eq e (codes ".png")
    then some type_png
    else if text_eq e (codes ".jpg") || text_eq e (codes ".jpeg")
    then some type_jpeg
    else none

unfoldable pub validate_icon_name : Text → Option (Text × Text)
validate_icon_name filename =
    let e = to_lower (ext (trim_space filename)) in
    elim (content_type_of e) [ none ↦ none | some content_type ↦ some (e, content_type) ]

-- The test of the header of an ICO file.
unfoldable pub is_ico : List ℕ → Bool
is_ico (a ∷ b ∷ c ∷ d ∷ e ∷ f ∷ content) = not (
    not (a == 0)
    || not (b == 0)
    || (not (c == 1) && not (c == 2))
    || not (d == 0)
    || e == 0
    || not (f == 0))
is_ico _ = false

abbrev pub has_format : (List ℕ → Option Text) → Text → List ℕ → Bool
has_format format name content = elim (format content) [
  | none ↦ false
  | some found ↦ text_eq found name
]

-- `format` is the format that image.DecodeConfig finds in the data.
unfoldable pub validate_icon_content : (List ℕ → Option Text) → Text → List ℕ → Bool
validate_icon_content format content_type content =
    if text_eq content_type type_png
    then has_format format (codes "png") content
    else if text_eq content_type type_jpeg
    then has_format format (codes "jpeg") content
    else text_eq content_type type_ico && is_ico content

unfoldable pub is_safe_stored_icon : Icon → Bool
is_safe_stored_icon i = elim (validate_icon_name i.filename) [
  | none ↦ false
  | some (e, content_type) ↦ text_eq i.content_type content_type
]

unfoldable pub filter_safe_icons : List Icon → List Icon
filter_safe_icons [] = []
filter_safe_icons (i ∷ is) =
    let rest = filter_safe_icons is in if is_safe_stored_icon i then i ∷ rest else rest

unfoldable pub read_icons : FileIconStore → Reading Icon
read_icons s = elim (read_json s.metadata) [
  | failed e ↦ failed e
  | ok icons ↦ ok (filter_safe_icons icons)
]

abbrev pub list_icons : FileIconStore → Reading Icon
list_icons = read_icons

-- What os.WriteFile leaves of an icon file: all of it, nothing, or a part of as many bytes.
pub data FileWrite : Type 0 where
  written not_created : FileWrite
  partial : ℕ → FileWrite

-- The file with the name, in place of the one before.
abbrev pub put_file : Text → ℕ → List Upload → List Upload
put_file name bytes files =
    remove_named name files ++ record { name = name; size = bytes; regular = true } ∷ []

pub data SavedIcon : Type 0 where
  saved : Icon → SavedIcon
  refused : StoreError → SavedIcon

-- The end of SaveIcon, once the icons are written or not.
abbrev pub placed :
    System
    → Icon
    → List Upload
    → FileIconStore
    → JsonFile Icon × Option StoreError
    → FileIconStore × SavedIcon
placed sys icon files s (file, none) = (record s { metadata = file; files = files }, saved icon)
placed sys icon files s (file, some x) = (
  record s { files = if sys.remove_fails then files else remove_named icon.filename files },
  refused x,
)

-- The file and the metadata; the file is removed where the metadata cannot be written.
unfoldable pub write_icon :
    System → FileWrite → Icon → ℕ → List Icon → FileIconStore → FileIconStore × SavedIcon
write_icon sys not_created icon bytes icons s = (s, refused write_failed)
write_icon sys (partial n) icon bytes icons s =
    (record s { files = put_file icon.filename n s.files }, refused write_failed)
write_icon sys written icon bytes icons s =
    placed sys icon (put_file icon.filename bytes s.files) s
      (write_json sys.fault (icons ++ icon ∷ []) s.metadata)

unfoldable pub quota_of : FileIconStoreOptions → FileStoreOptions
quota_of o = record { max_uploads = o.max_icons; max_storage_bytes = o.max_storage_bytes }

-- The icon that is new among `icons`.
abbrev pub new_icon : ℕ → Text → Text → Text → Text → List Icon → Icon
new_icon now id original e content_type icons = record {
  id = id;
  filename = id ++ e;
  original_name = base (trim_space original);
  content_type = content_type;
  active = length icons == 0;
  created_at = now;
  updated_at = now;
}

-- The rest of SaveIcon, from the quota on.
unfoldable pub store_icon :
    System
    → Option Text
    → FileWrite
    → Text
    → Text
    → Text
    → ℕ
    → List Icon
    → FileIconStore
    → FileIconStore × SavedIcon
store_icon sys random write original e content_type bytes icons s =
    elim (enforce_file_quota (quota_of s.options) bytes s.files) [
      | some x ↦ (s, refused x)
      | none ↦ elim random [
        | none ↦ (s, refused read_failed)
        | some id ↦
            write_icon sys write (new_icon sys.now id original e content_type icons) bytes icons s
      ]
    ]

-- `random` is what newIconID gives, none if it fails.
unfoldable pub save_icon :
    (List ℕ → Option Text)
    → System
    → Option Text
    → FileWrite
    → Text
    → List ℕ
    → FileIconStore
    → FileIconStore × SavedIcon
save_icon format sys random write original content s = elim (validate_icon_name original) [
  | none ↦ (s, refused validation)
  | some (e, content_type) ↦
      if is_empty content
      then (s, refused validation)
      else if not (validate_icon_content format content_type content)
      then (s, refused validation)
      else elim (read_icons s) [
        | failed x ↦ (s, refused x)
        | ok icons ↦ store_icon sys random write original e content_type (length content) icons s
      ]
]

-- The loop of SetActiveIcon: what it makes of an icon, and of all.
unfoldable pub marked : ℕ → Text → Icon → Icon
marked now id i =
    let active = text_eq i.id id in
    if (if active then i.active else not i.active)
    then i
    else record i { active = active; updated_at = now }

unfoldable pub mark_active : ℕ → Text → List Icon → List Icon
mark_active now id icons = map (marked now id) icons

-- A write of the icons.
unfoldable pub write_icons : System → List Icon → FileIconStore → FileIconStore × Option StoreError
write_icons sys icons s =
    let (file, err) = write_json sys.fault icons s.metadata in (record s { metadata = file }, err)

unfoldable pub set_active_icon : System → Text → FileIconStore → FileIconStore × Option StoreError
set_active_icon sys text s =
    let id = trim_space text in
    if is_empty id then (s, some validation) else elim (read_icons s) [
      | failed x ↦ (s, some x)
      | ok icons ↦ elim (find icon_id id icons) [
        | none ↦ (s, some not_found)
        | some i ↦ write_icons sys (mark_active sys.now id icons) s
      ]
    ]

-- The first icon becomes active.
abbrev pub promote : ℕ → List Icon → List Icon
promote now [] = []
promote now (i ∷ is) = record i { active = true; updated_at = now } ∷ is

-- The end of DeleteIcon: the file of the icon is removed once the icons are written.
abbrev pub cleared :
    System → Icon → FileIconStore × Option StoreError → FileIconStore × Option StoreError
cleared sys deleted (t, some x) = (t, some x)
cleared sys deleted (t, none) =
    (record t { files = remove_upload_file sys deleted.filename t.files }, none)

unfoldable pub delete_icon : System → Text → FileIconStore → FileIconStore × Option StoreError
delete_icon sys text s =
    let id = trim_space text in
    if is_empty id then (s, some validation) else elim (read_icons s) [
      | failed x ↦ (s, some x)
      | ok icons ↦ elim (find icon_id id icons) [
        | none ↦ (s, some not_found)
        | some deleted ↦
            let rest = remove icon_id id icons in
            cleared sys deleted
              (write_icons sys (if deleted.active then promote sys.now rest else rest) s)
      ]
    ]

abbrev pub first_active : List Icon → Option Icon
first_active [] = none
first_active (i ∷ is) = if i.active then some i else first_active is

pub data FoundIcon : Type 0 where
  found : Icon → FoundIcon
  missing : StoreError → FoundIcon

unfoldable pub active_icon : FileIconStore → FoundIcon
active_icon s = elim (read_icons s) [
  | failed x ↦ missing x
  | ok icons ↦ elim (first_active icons) [ none ↦ missing not_found | some i ↦ found i ]
]
