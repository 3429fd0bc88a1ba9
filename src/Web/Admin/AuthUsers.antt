-- ===== src/Web/Admin/AuthUsers.antt =====
-- The handlers of the users of the authentication helper, in cmd/rdpgw/web/admin_handlers.go, with the file that
-- WriteAuthHelperConfig of cmd/rdpgw/dashboard/auth_users.go writes.
use home_rdp_gateway.Base.{
  ℕ, Bool, true, not, ◌&&◌, Option, none, some, List, [], ◌∷◌, if◌then◌else◌,
}
use home_rdp_gateway.Base.Texts.{Text}
use home_rdp_gateway.Go.Strings.{is_empty, trim_space}
use home_rdp_gateway.Dashboard.File.{
  StoreError, validation, not_found, JsonFile, Reading, ok, failed, WriteFault, write_json,
}
use home_rdp_gateway.Dashboard.AuthUsers.{
  AuthUser, Users, Found, found, missing, list, get, put, delete, helper_users,
}

-- The statuses 400, 403, 404, 500 and 503 of a refusal.
pub data Status : Type 0 where
  bad_request forbidden no_such_user server_error unavailable : Status

-- adminAuthUserResponse, which has no password.
pub record AuthUserResponse : Type 0 where
  pub username : Text
  pub enabled : Bool
  pub created_at : ℕ
  pub updated_at : ℕ

unfoldable pub new_response : AuthUser → AuthUserResponse
new_response u = record {
  username = u.username;
  enabled = u.enabled;
  created_at = u.created_at;
  updated_at = u.updated_at;
}

-- A refusal, or a success: with a user, 200 or 201, with the list of all, or with nothing, 204.
pub data Answer : Type 0 where
  refuses : Status → Answer
  shows : AuthUserResponse → Answer
  lists : List AuthUserResponse → Answer
  deleted : Answer

-- The file of the users, and the configuration file of the helper with the names and passwords that it holds.
pub record Administration : Type 0 where
  pub users : Users
  pub config : JsonFile (Text × Text)

-- What happens in a request: the time, and the steps of the writes of the two files that fail.
pub record Circumstance : Type 0 where
  pub now : ℕ
  pub fault : Option WriteFault
  pub config_fault : Option WriteFault

unfoldable pub write_auth_helper_config :
    Option WriteFault
    → List AuthUser
    → JsonFile (Text × Text)
    → JsonFile (Text × Text) × Option StoreError
unfolding helper_users write_json
write_auth_helper_config fault users file = write_json fault (helper_users users) file

-- regenerateAuthHelperConfig with what List says of the users.
unfoldable pub regenerate_from :
    Option WriteFault → Reading AuthUser → Administration → Administration × Option StoreError
unfolding write_auth_helper_config
regenerate_from fault (failed e) a = (a, some e)
regenerate_from fault (ok users) a =
    let (file, err) = write_auth_helper_config fault users a.config in
    (record a { config = file }, err)

unfoldable pub regenerate : Option WriteFault → Administration → Administration × Option StoreError
unfolding regenerate_from list
regenerate fault a = regenerate_from fault (list a.users) a

unfoldable pub status_for_put_error : StoreError → Status
status_for_put_error validation = bad_request
status_for_put_error _ = server_error

unfoldable pub shown : Found → Answer
unfolding new_response
shown (found u) = shows (new_response u)
shown (missing e) = refuses server_error

-- What follows the call of regenerateAuthHelperConfig: the user as it is stored is shown, or `done` answers.
unfoldable pub finish_shown : Text → Administration × Option StoreError → Administration × Answer
unfolding shown get
finish_shown username (a, some e) = (a, refuses server_error)
finish_shown username (a, none) = (a, shown (get username a.users))

unfoldable pub finish_deleted : Administration × Option StoreError → Administration × Answer
finish_deleted (a, some e) = (a, refuses server_error)
finish_deleted (a, none) = (a, deleted)

unfoldable pub after_put :
    Circumstance → Text → Administration → Users × Option StoreError → Administration × Answer
unfolding finish_shown regenerate status_for_put_error
after_put c username a (users, some e) =
    (record a { users = users }, refuses (status_for_put_error e))
after_put c username a (users, none) =
    finish_shown username (regenerate c.config_fault (record a { users = users }))

unfoldable pub after_delete :
    Circumstance → Administration → Users × Option StoreError → Administration × Answer
unfolding finish_deleted regenerate
after_delete c a (users, some e) = (record a { users = users }, refuses server_error)
after_delete c a (users, none) =
    finish_deleted (regenerate c.config_fault (record a { users = users }))

-- The answer to a user that Get does not give.
abbrev pub not_loaded : StoreError → Status
not_loaded not_found = no_such_user
not_loaded _ = server_error

pub record CreateRequest : Type 0 where
  pub username : Text
  pub password : Text
  pub enabled : Option Bool

pub record UpdateRequest : Type 0 where
  pub password : Option Text
  pub enabled : Option Bool

abbrev pub or_else : {A : Type 0} → A → Option A → A
or_else a none = a
or_else a (some b) = b

abbrev pub new_user : CreateRequest → AuthUser
unfolding trim_space
new_user r = record {
  username = trim_space r.username;
  password = r.password;
  enabled = or_else true r.enabled;
  created_at = 0;
  updated_at = 0;
}

-- The body of the requests below is `none` if it does not decode.
unfoldable pub create_user :
    Circumstance → Option CreateRequest → Administration → Administration × Answer
unfolding after_put put
create_user c none a = (a, refuses bad_request)
create_user c (some r) a =
    after_put c (new_user r).username a (put c.fault c.now (new_user r) a.users)

unfoldable pub update_found :
    Circumstance → Text → Option UpdateRequest → Found → Administration → Administration × Answer
unfolding after_put put
update_found c username body (missing e) a = (a, refuses (not_loaded e))
update_found c username none (found u) a = (a, refuses bad_request)
update_found c username (some r) (found u) a = after_put c username a (
    put c.fault c.now
      (record u { password = or_else u.password r.password; enabled = or_else u.enabled r.enabled })
      a.users)

unfoldable pub delete_found : Circumstance → Text → Found → Administration → Administration × Answer
unfolding after_delete delete
delete_found c username (missing e) a = (a, refuses (not_loaded e))
delete_found c username (found u) a = after_delete c a (delete c.fault username a.users)

-- The requests for the users; a name is the one of the path.
pub data Call : Type 0 where
  lists_users : Call
  creates : Option CreateRequest → Call
  updates : Text → Option UpdateRequest → Call
  deletes : Text → Call

unfoldable pub responses : List AuthUser → List AuthUserResponse
unfolding new_response
responses [] = []
responses (u ∷ us) = new_response u ∷ responses us

unfoldable pub list_users : Reading AuthUser → Answer
unfolding responses
list_users (failed e) = refuses server_error
list_users (ok users) = lists (responses users)

-- The handlers behind the test of the origin and of what is configured.
unfoldable pub run_call : Circumstance → Call → Administration → Administration × Answer
unfolding create_user update_found delete_found get trim_space list_users list
run_call c lists_users a = (a, list_users (list a.users))
run_call c (creates body) a = create_user c body a
run_call c (updates name body) a =
    let username = trim_space name in
    if is_empty username
    then (a, refuses bad_request)
    else update_found c username body (get username a.users) a
run_call c (deletes name) a =
    let username = trim_space name in
    if is_empty username
    then (a, refuses bad_request)
    else delete_found c username (get username a.users) a

-- The tests at the beginning of the handlers that change something.
abbrev pub guarded :
    Bool → Bool → Bool → Administration × Answer → Administration → Administration × Answer
guarded allowed has_store has_path result a =
    if not allowed
    then (a, refuses forbidden)
    else if has_store && has_path
    then result
    else (a, refuses unavailable)

-- HandleAdminListAuthUsers, HandleAdminCreateAuthUser, HandleAdminUpdateAuthUser and HandleAdminDeleteAuthUser:
-- `allowed` is what sameOriginAdminRequest says, the others whether there are a store and a path for the file.
unfoldable pub handle :
    Bool → Bool → Bool → Circumstance → Call → Administration → Administration × Answer
unfolding run_call
handle allowed has_store has_path c lists_users a =
    if has_store then run_call c lists_users a else (a, refuses unavailable)
handle allowed has_store has_path c (creates body) a =
    guarded allowed has_store has_path (run_call c (creates body) a) a
handle allowed has_store has_path c (updates name body) a =
    guarded allowed has_store has_path (run_call c (updates name body) a) a
handle allowed has_store has_path c (deletes name) a =
    guarded allowed has_store has_path (run_call c (deletes name) a) a
