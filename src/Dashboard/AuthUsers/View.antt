-- ===== src/Dashboard/AuthUsers/View.antt =====
-- The users as a map from names: what the calls of the store do to it, one after the other.
use home_rdp_gateway.Base.{ℕ, ◌≡◌, refl, ap, ◌∙◌, Option, none, some, List, [], ◌∷◌, if◌then◌else◌}
use home_rdp_gateway.Base.Texts.{Text, text_eq, text_eq_refl}
use home_rdp_gateway.Base.Keyed.{find}
use home_rdp_gateway.Dashboard.File.{WriteFault}
use home_rdp_gateway.Dashboard.AuthUsers.{
  AuthUser, username_of, Users, is_valid_auth_user, Found, found, missing, get, stamped, put,
  delete,
}
use home_rdp_gateway.Dashboard.AuthUsers.Laws.{Holds, found_in, get-Holds}

-- A map from names to users, and the map that differs at one name.
abbrev pub Map : Type 0
Map = Text → Option AuthUser

abbrev pub update : Map → Text → Option AuthUser → Map
update f name u other = if text_eq other name then u else f other

abbrev user_of : Found → Option AuthUser
user_of (found u) = some u
user_of (missing e) = none

-- What Get finds for each name.
unfoldable pub view : Users → Map
view file name = user_of (get name file)

pub data Call : Type 0 where
  puts : AuthUser → Call
  deletes : Text → Call

unfoldable pub run_call : ℕ → Option WriteFault → Call → Users → Users
run_call now fault (puts u) file = (put fault now u file).0
run_call now fault (deletes name) file = (delete fault name file).0

-- The calls on a map: a call that fails to write, and a user that is not valid, change nothing.
abbrev pub specify : ℕ → Option WriteFault → Call → Map → Map
specify now (some fault) c f = f
specify now none (puts u) f =
    if is_valid_auth_user u then update f u.username (some (stamped now u (f u.username))) else f
specify now none (deletes name) f = update f name none

user_of-found_in : (o : Option AuthUser) → user_of (found_in o) ≡ o
user_of-found_in none = refl
user_of-found_in (some u) = refl

pub view-Holds :
    (file : Users) (users : List AuthUser)
    → Holds file users
    → (name : Text) → view file name ≡ find username_of name users
unfolding view
view-Holds file users h name =
    ap user_of (get-Holds name file users h) ∙ user_of-found_in (find username_of name users)

updated_self : (f : Map) (name : Text) (u : Option AuthUser) → update f name u name ≡ u
updated_self f name u = rw (text_eq_refl name) refl

-- Calls with their times and the steps that fail in them.
abbrev pub run_calls : List (ℕ × Option WriteFault × Call) → Users → Users
run_calls [] file = file
run_calls ((now, fault, c) ∷ cs) file = run_calls cs (run_call now fault c file)

abbrev pub specify_all : List (ℕ × Option WriteFault × Call) → Map → Map
specify_all [] f = f
specify_all ((now, fault, c) ∷ cs) f = specify_all cs (specify now fault c f)
