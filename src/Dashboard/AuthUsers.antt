-- ===== src/Dashboard/AuthUsers.antt =====
-- cmd/rdpgw/dashboard/auth_users.go. A time is a number, 0 the zero time. The mutex makes each call one
-- step on the file.
pub mod Laws
pub mod View
use home_rdp_gateway.Base.{
  ℕ, Bool, true, false, Option, none, some, List, [], ◌∷◌, ◌++◌, map, ◌==◌, if◌then◌else◌,
}
use home_rdp_gateway.Base.Texts.{Text}
use home_rdp_gateway.Base.Keyed.{find, replace, remove}
use home_rdp_gateway.Go.Strings.{is_empty}
use home_rdp_gateway.Dashboard.File.{
  StoreError, validation, not_found, JsonFile, Reading, ok, failed, read_json, WriteFault,
  write_json,
}

pub record AuthUser : Type 0 where
  pub username : Text
  pub password : Text
  pub enabled : Bool
  pub created_at : ℕ
  pub updated_at : ℕ

abbrev pub username_of : AuthUser → Text
username_of u = u.username

abbrev pub Users : Type 0
Users = JsonFile AuthUser

unfoldable pub is_valid_auth_user : AuthUser → Bool
is_valid_auth_user u =
    if is_empty u.username then false else if is_empty u.password then false else true

unfoldable pub list : Users → Reading AuthUser
list file = read_json file

pub data Found : Type 0 where
  found : AuthUser → Found
  missing : StoreError → Found

unfoldable pub get : Text → Users → Found
unfolding find
get username file = elim (read_json file) [
  | failed e ↦ missing e
  | ok users ↦ elim (find username_of username users) [
    | none ↦ missing not_found
    | some u ↦ found u
  ]
]

-- The user as it is stored at the time `now`: an old one hands on its time of creation.
abbrev pub stamped : ℕ → AuthUser → Option AuthUser → AuthUser
stamped now u (some old) = record u { created_at = old.created_at; updated_at = now }
stamped now u none = record u {
  created_at = if u.created_at == 0 then now else u.created_at;
  updated_at = now;
}

-- The loop of Put over the users, and the append behind it.
unfoldable pub upsert : ℕ → AuthUser → List AuthUser → List AuthUser
upsert now u users = elim (find username_of u.username users) [
  | some old ↦ replace username_of u.username (stamped now u (some old)) users
  | none ↦ users ++ stamped now u none ∷ []
]

unfoldable pub put : Option WriteFault → ℕ → AuthUser → Users → Users × Option StoreError
put fault now u file =
    if is_valid_auth_user u
    then elim (read_json file) [
      | failed e ↦ (file, some e)
      | ok users ↦ write_json fault (upsert now u users) file
    ]
    else (file, some validation)

unfoldable pub delete : Option WriteFault → Text → Users → Users × Option StoreError
delete fault username file = elim (read_json file) [
  | failed e ↦ (file, some e)
  | ok users ↦ elim (find username_of username users) [
    | none ↦ (file, none)
    | some u ↦ write_json fault (remove username_of username users) file
  ]
]

-- The users of the authentication helper's configuration, by name and password.
unfoldable pub helper_users : List AuthUser → List (Text × Text)
helper_users [] = []
helper_users (u ∷ users) =
    let rest = helper_users users in if u.enabled then (u.username, u.password) ∷ rest else rest
