-- ===== src/Dashboard/EntryIcon.antt =====
-- cmd/rdpgw/dashboard/entry_icon.go
use home_rdp_gateway.Base.{
  ℕ, Bool, ◌&&◌, ◌||◌, Option, none, some, List, [], ◌∷◌, any, all, leb, ◌==◌, if◌then◌else◌,
  length, drop, is_some,
}
use home_rdp_gateway.Base.Texts.{Text, text_eq, codes}
use home_rdp_gateway.Go.Strings.{trim_space, to_lower, has_prefix, is_empty}

abbrev pub default_icon : Text
default_icon = codes "window"

abbrev pub uploaded_prefix : Text
uploaded_prefix = codes "uploaded:"

abbrev pub allowed_entry_icons : List Text
allowed_entry_icons =
    codes "window"
    ∷ codes "browser"
    ∷ codes "terminal"
    ∷ codes "folder"
    ∷ codes "database"
    ∷ codes "word"
    ∷ codes "excel"
    ∷ codes "powerpoint"
    ∷ codes "outlook"
    ∷ []

abbrev pub is_allowed : Text → Bool
is_allowed s = any (text_eq s) allowed_entry_icons

abbrev pub is_hex : ℕ → Bool
is_hex c = (leb b'0' c && leb c b'9') || (leb b'a' c && leb c b'f')

-- The length is tested before the digits; all that pass both are ASCII, so that code points and bytes
-- count alike.
unfoldable pub uploaded_entry_icon_id : Text → Option Text
uploaded_entry_icon_id value =
    let normalized = to_lower (trim_space value) in
    let id = drop (length uploaded_prefix) normalized in
    if has_prefix normalized uploaded_prefix && length id == 32 && all is_hex id
    then some id
    else none

unfoldable pub is_uploaded_entry_icon : Text → Bool
unfolding uploaded_entry_icon_id
is_uploaded_entry_icon value = is_some (uploaded_entry_icon_id value)

unfoldable pub normalize_entry_icon : Text → Text
normalize_entry_icon value =
    let normalized = to_lower (trim_space value) in
    if is_uploaded_entry_icon normalized
    then normalized
    else if is_allowed normalized
    then normalized
    else default_icon

unfoldable pub is_valid_entry_icon : Text → Bool
is_valid_entry_icon value =
    let normalized = to_lower (trim_space value) in
    is_empty normalized || is_uploaded_entry_icon normalized || is_allowed normalized
