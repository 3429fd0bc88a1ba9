-- ===== src/Identity/User.antt =====
-- The user of cmd/rdpgw/identity/user.go, and the names of identity.go. A time is a number, 0 the zero
-- time; a map is the list of its pairs.
use home_rdp_gateway.Base.{
  ℕ, Bool, true, false, ◌&&◌, ◌||◌, ◌==◌, ltb, Option, none, some, List, [], ◌∷◌, if◌then◌else◌,
}
use home_rdp_gateway.Base.Texts.{Text, codes}
use home_rdp_gateway.Base.Assoc.{lookup, erase, assign}
use home_rdp_gateway.Go.Strings.{trim_space, is_empty}

-- The values that the code keeps as attributes.
pub data Attribute : Type 0 where
  text : Text → Attribute
  texts : List Text → Attribute

pub record User : Type 0 where
  pub authenticated : Bool
  pub domain : Text
  pub user_name : Text
  pub display_name : Text
  pub email : Text
  pub auth_time : ℕ
  pub session_id : Text
  pub expiry : ℕ
  pub attributes : List (Text × Attribute)
  pub group_membership : List (Text × Bool)

abbrev pub attr_remote_addr : Text
attr_remote_addr = codes "remoteAddr"

abbrev pub attr_client_ip : Text
attr_client_ip = codes "clientIp"

abbrev pub attr_proxies : Text
attr_proxies = codes "proxyAddresses"

abbrev pub attr_access_token : Text
attr_access_token = codes "accessToken"

abbrev pub attr_auth_source : Text
attr_auth_source = codes "authSource"

abbrev pub auth_source_header : Text
auth_source_header = codes "header"

abbrev pub auth_source_oidc : Text
auth_source_oidc = codes "oidc"

-- `uuid` is the text of the new identifier.
unfoldable pub new_user : Text → User
new_user uuid = record {
  authenticated = false;
  domain = [];
  user_name = [];
  display_name = [];
  email = [];
  auth_time = 0;
  session_id = uuid;
  expiry = 0;
  attributes = [];
  group_membership = [];
}

unfoldable pub shown_name : User → Text
shown_name u = if is_empty u.display_name then u.user_name else u.display_name

unfoldable pub set_attribute : Text → Attribute → User → User
unfolding assign
set_attribute s v u = record u { attributes = assign s v u.attributes }

unfoldable pub get_attribute : Text → User → Option Attribute
unfolding lookup
get_attribute s u = lookup s u.attributes

-- The assertion `.(string)`, "" where it fails.
abbrev pub text_of : Option Attribute → Text
text_of none = []
text_of (some (text t)) = t
text_of (some (texts ts)) = []

unfoldable pub text_attribute : Text → User → Text
text_attribute s u = text_of (get_attribute s u)

unfoldable pub del_attribute : Text → User → User
unfolding erase
del_attribute s u = record u { attributes = erase s u.attributes }

-- The order of Go's strings.
abbrev pub text_leb : Text → Text → Bool
text_leb [] t = true
text_leb (a ∷ s) [] = false
text_leb (a ∷ s) (b ∷ t) = ltb a b || (a == b && text_leb s t)

unfoldable pub insert_text : Text → List Text → List Text
insert_text s [] = s ∷ []
insert_text s (t ∷ ts) =
    let rest = insert_text s ts in if text_leb s t then s ∷ t ∷ ts else t ∷ rest

unfoldable pub sort_texts : List Text → List Text
sort_texts [] = []
sort_texts (s ∷ ss) = insert_text s (sort_texts ss)

unfoldable pub members : List (Text × Bool) → List Text
members [] = []
members ((g, member) ∷ m) = let rest = members m in if member then g ∷ rest else rest

unfoldable pub groups : User → List Text
groups u = sort_texts (members u.group_membership)

-- The loop of SetGroups.
unfoldable pub add_groups : List Text → List (Text × Bool) → List (Text × Bool)
unfolding assign
add_groups [] m = m
add_groups (g ∷ gs) m =
    let name = trim_space g in add_groups gs (if is_empty name then m else assign name true m)

unfoldable pub set_groups : List Text → User → User
set_groups gs u = record u { group_membership = add_groups gs [] }

unfoldable pub in_group : Text → User → Bool
unfolding lookup
in_group group u =
    let name = trim_space group in
    if is_empty name
    then false
    else elim (lookup name u.group_membership) [ none ↦ false | some member ↦ member ]
