-- ===== src/Dashboard/File.antt =====
-- The JSON file of a store: readJSONFile and writeFileAtomic of cmd/rdpgw/dashboard/fileutil.go, and
-- readLocked and writeLocked of the stores. A file holds what encoding/json decodes it to.
use home_rdp_gateway.Base.{Option, none, some, List, []}

pub data StoreError : Type 0 where
  validation stat_failed read_failed decode_failed write_failed not_found : StoreError

-- A file that is not there, has no bytes, cannot be read, does not decode, or holds a list (the empty
-- one for `null`).
pub data JsonFile (A : Type 0) : Type 0 where
  absent blank unreadable corrupt : JsonFile A
  holds : List A → JsonFile A

pub data Reading (A : Type 0) : Type 0 where
  ok : List A → Reading A
  failed : StoreError → Reading A

unfoldable pub read_json : {A : Type 0} → JsonFile A → Reading A
read_json absent = ok []
read_json blank = ok []
read_json unreadable = failed read_failed
read_json corrupt = failed decode_failed
read_json (holds items) = ok items

-- The step of an atomic write that fails, if one does.
pub data WriteFault : Type 0 where
  make_directory encode create write change_mode close rename : WriteFault

-- The new content is put in place by a rename, the last step; a step that fails leaves the file, and
-- the temporary file is removed.
unfoldable pub write_json :
    {A : Type 0} → Option WriteFault → List A → JsonFile A → JsonFile A × Option StoreError
write_json none items file = (holds items, none)
write_json (some fault) items file = (file, some write_failed)
