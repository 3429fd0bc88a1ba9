-- ===== src/Dashboard/Store.antt =====
-- cmd/rdpgw/dashboard/store.go: the entries, and the templates that were uploaded for them. The mutex
-- makes each call one step. Paths are slash-separated; a file of the upload directory is known by its
-- name there. What the operating system answers is a parameter of the call.
pub mod Laws
pub mod Quota
use home_rdp_gateway.Base.{
  ℕ, ◌+◌, ◌-◌, ◌^◌, ◌≤◌, Bool, true, false, not, ◌&&◌, ◌||◌, Option, none, some, List, [], ◌∷◌,
  ◌++◌, any, map, length, ltb, leb, ◌==◌, if◌then◌else◌,
}
use home_rdp_gateway.Base.Texts.{Text, text_eq, codes}
use home_rdp_gateway.Base.Keyed.{find, replace, remove}
use home_rdp_gateway.Go.Strings.{is_empty}
use home_rdp_gateway.Dashboard.EntryIcon.{normalize_entry_icon}
use home_rdp_gateway.Dashboard.File.{
  StoreError, validation, stat_failed, read_failed, write_failed, not_found, JsonFile, Reading, ok,
  failed, read_json, WriteFault, write_json,
}
use home_rdp_gateway.Dashboard.Entry.{Entry, type_template, validate}

-- A limit that is 0 or negative is none: 0 here.
pub record FileStoreOptions : Type 0 where
  pub max_uploads : ℕ
  pub max_storage_bytes : ℕ

-- An item of the upload directory.
pub record Upload : Type 0 where
  pub name : Text
  pub size : ℕ
  pub regular : Bool

pub record FileStore : Type 0 where
  pub metadata : JsonFile Entry
  pub uploads : List Upload
  pub options : FileStoreOptions

-- What the system does in a call: the time, whether os.Stat fails otherwise than by a missing file, the
-- step of the write that fails, and whether os.Remove fails.
pub record System : Type 0 where
  pub now : ℕ
  pub stat_fails : Bool
  pub fault : Option WriteFault
  pub remove_fails : Bool

abbrev pub id_of : Entry → Text
id_of e = e.id

abbrev pub normalized : Entry → Entry
normalized e = record e { icon = normalize_entry_icon e.icon }

unfoldable pub strip_slashes : Text → Text
strip_slashes [] = []
strip_slashes (c ∷ s) =
    let rest = strip_slashes s in if c == b'/' && is_empty rest then [] else c ∷ rest

unfoldable pub after_slash : Text → Text
after_slash [] = []
after_slash (c ∷ s) = if any (λ d. d == b'/') (c ∷ s) then after_slash s else c ∷ s

-- `filepath.Base`.
unfoldable pub base : Text → Text
unfolding strip_slashes after_slash
base [] = b'.' ∷ []
base (c ∷ s) =
    let last = after_slash (strip_slashes (c ∷ s)) in if is_empty last then b'/' ∷ [] else last

-- `.`, `..` and `/` name the upload directory or one that holds it, no item of it.
abbrev pub has_upload : Text → List Upload → Bool
has_upload path uploads = any (λ (u : Upload). text_eq u.name (base path)) uploads

unfoldable pub remove_named : Text → List Upload → List Upload
remove_named name [] = []
remove_named name (u ∷ us) =
    let rest = remove_named name us in if text_eq u.name name then rest else u ∷ rest

-- `_ = removeUploadFile(s.ResolveUpload(path))`.
unfoldable pub remove_upload_file : System → Text → List Upload → List Upload
remove_upload_file sys path uploads =
    if sys.remove_fails then uploads else remove_named (base path) uploads

unfoldable pub read_locked : JsonFile Entry → Reading Entry
read_locked file = elim (read_json file) [
  | failed e ↦ failed e
  | ok entries ↦ ok (map normalized entries)
]

unfoldable pub list : FileStore → Reading Entry
list s = read_locked s.metadata

pub data Found : Type 0 where
  found : Entry → Found
  missing : StoreError → Found

unfoldable pub get : Text → FileStore → Found
unfolding find
get id s = elim (read_locked s.metadata) [
  | failed e ↦ missing e
  | ok entries ↦ elim (find id_of id entries) [ none ↦ missing not_found | some e ↦ found e ]
]

-- The entry as it is stored at the time `now`.
abbrev pub stamped : ℕ → Entry → Option Entry → Entry
stamped now e (some old) = record e { created_at = old.created_at; updated_at = now }
stamped now e none = record e {
  created_at = if e.created_at == 0 then now else e.created_at;
  updated_at = now;
}

-- The loop of Put over the entries, and the append behind it.
unfoldable pub upsert : ℕ → Entry → List Entry → List Entry
upsert now e entries = elim (find id_of e.id entries) [
  | some old ↦ replace id_of e.id (stamped now e (some old)) entries
  | none ↦ entries ++ stamped now e none ∷ []
]

-- The path of an old entry that the new one does not keep; "" for none.
abbrev pub stale_path : Entry → Option Entry → Text
stale_path e none = []
stale_path e (some old) =
    if text_eq old.uploaded_template_path e.uploaded_template_path
    then []
    else old.uploaded_template_path

-- The write of the entries, and the removal of a file that they no longer name.
unfoldable pub commit : System → Text → List Entry → FileStore → FileStore × Option StoreError
commit sys stale entries s =
    let (file, err) = write_json sys.fault entries s.metadata in
    elim err [
      | some e ↦ (s, some e)
      | none ↦ (
        record s {
          metadata = file;
          uploads = if is_empty stale then s.uploads else remove_upload_file sys stale s.uploads;
        },
        none,
      )
    ]

module _ (is_ip : Text → Bool) where
  -- os.Stat of the template of an entry.
  unfoldable pub check_template : System → Entry → List Upload → Option StoreError
  check_template sys e uploads =
      if text_eq e.entry_type type_template
      then (if sys.stat_fails
          then some stat_failed
          else if has_upload e.uploaded_template_path uploads
          then none
          else some validation)
      else none

  unfoldable pub put : System → Entry → FileStore → FileStore × Option StoreError
  put sys entry s =
      let e = normalized entry in
      elim (validate is_ip e) [
        | some x ↦ (s, some validation)
        | none ↦ elim (check_template sys e s.uploads) [
          | some x ↦ (s, some x)
          | none ↦ elim (read_locked s.metadata) [
            | failed x ↦ (s, some x)
            | ok entries ↦
                commit sys (stale_path e (find id_of e.id entries)) (upsert sys.now e entries) s
          ]
        ]
      ]

unfoldable pub delete : System → Text → FileStore → FileStore × Option StoreError
delete sys id s = elim (read_locked s.metadata) [
  | failed x ↦ (s, some x)
  | ok entries ↦ elim (find id_of id entries) [
    | none ↦ (s, none)
    | some e ↦ commit sys e.uploaded_template_path (remove id_of id entries) s
  ]
]

-- The number of regular files and their bytes; `none` if an int64 cannot hold them.
unfoldable pub regular_file_usage : List Upload → ℕ → ℕ → Option (ℕ × ℕ)
regular_file_usage [] count size = some (count, size)
regular_file_usage (u ∷ us) count size =
    let skipped = regular_file_usage us count size in
    let counted = regular_file_usage us (count + 1) (size + u.size) in
    if not u.regular then skipped else if ltb (2 ^ 63 - 1 - size) u.size then none else counted

unfoldable pub check_quota : FileStoreOptions → ℕ → ℕ → ℕ → Option StoreError
check_quota o bytes count size =
    if ltb 0 o.max_uploads && leb o.max_uploads count
    then some validation
    else if ltb 0 o.max_storage_bytes
        && (ltb o.max_storage_bytes size || ltb (o.max_storage_bytes - size) bytes)
    then some validation
    else none

unfoldable pub enforce_file_quota : FileStoreOptions → ℕ → List Upload → Option StoreError
enforce_file_quota o bytes uploads = elim (regular_file_usage uploads 0 0) [
  | none ↦ some read_failed
  | some (count, size) ↦ check_quota o bytes count size
]

-- The result of SaveUpload: the name of the new file, or an error.
pub data Saved : Type 0 where
  saved : Text → Saved
  refused : StoreError → Saved

-- `random` is the hexadecimal text that rand.Read gives, `none` if it fails; `fails` is whether the
-- file cannot be created, written or closed, in which case the removal of what was written is taken to succeed. A name that is taken is an error of O_EXCL.
unfoldable pub save_upload : Option Text → Bool → ℕ → FileStore → FileStore × Saved
save_upload random fails bytes s = elim (enforce_file_quota s.options bytes s.uploads) [
  | some e ↦ (s, refused e)
  | none ↦ elim random [
    | none ↦ (s, refused read_failed)
    | some text ↦
        let name = text ++ codes ".rdp" in
        if any (λ (u : Upload). text_eq u.name name) s.uploads || fails
        then (s, refused write_failed)
        else (
          record s {
            uploads = s.uploads ++ record { name = name; size = bytes; regular = true } ∷ [];
          },
          saved name,
        )
  ]
]
