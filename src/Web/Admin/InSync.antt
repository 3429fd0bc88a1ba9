-- ===== src/Web/Admin/InSync.antt =====
-- The helper knows the users that the administration shows.
use home_rdp_gateway.Base.{
  ◌≡◌, refl, sym, ap, ◌∙◌, Option, none, some, List, [], ◌∷◌, if◌then◌else◌,
}
use mathlib.Core.Path.{subst}
use home_rdp_gateway.Base.Texts.{Text}
use home_rdp_gateway.Go.Strings.{is_empty, trim_space}
use home_rdp_gateway.Dashboard.File.{StoreError, holds, Reading, ok, failed, WriteFault, write_json}
use home_rdp_gateway.Dashboard.AuthUsers.{
  AuthUser, Users, Found, found, missing, list, get, put, delete, helper_users,
}
use home_rdp_gateway.Dashboard.AuthUsers.Laws.{IsKeyed, put-IsKeyed, delete-IsKeyed}
use home_rdp_gateway.Web.Admin.AuthUsers.{
  Status, Answer, refuses, shows, lists, deleted, Administration, Circumstance,
  write_auth_helper_config, regenerate_from, regenerate, finish_shown, finish_deleted, after_put,
  after_delete, CreateRequest, UpdateRequest, new_user, or_else, create_user, update_found,
  delete_found, Call, lists_users, creates, updates, deletes, list_users, run_call,
}

-- The configuration holds the users that are enabled.
abbrev pub IsInSync : Administration → Type 0
IsInSync a =
    (users : List AuthUser) × (list a.users ≡ ok users) × (a.config ≡ holds (helper_users users))

-- The answer to a call that was made as it should be.
abbrev pub IsDone : Answer → Type 0
IsDone (refuses s) = ⊥
IsDone (shows u) = Unit
IsDone (lists us) = ⊥
IsDone deleted = Unit

regenerate_from-config :
    (fault : Option WriteFault) (users : List AuthUser) (a : Administration)
    → (regenerate_from fault (ok users) a).1 ≡ none
    → (regenerate_from fault (ok users) a).0.config ≡ holds (helper_users users)
unfolding regenerate_from write_auth_helper_config write_json
regenerate_from-config none users a h = refl
regenerate_from-config (some f) users a h = cc

regenerate_from-users :
    (fault : Option WriteFault) (r : Reading AuthUser) (a : Administration)
    → (regenerate_from fault r a).0.users ≡ a.users
unfolding regenerate_from
regenerate_from-users fault (failed e) a = refl
regenerate_from-users fault (ok users) a = refl

regenerate-IsInSync :
    (fault : Option WriteFault) (a : Administration) (r : Reading AuthUser)
    → list a.users ≡ r
    → (regenerate_from fault r a).1 ≡ none
    → IsInSync (regenerate_from fault r a).0
regenerate-IsInSync fault a (failed e) h n =
    let bad : some e ≡ none = (unfold regenerate_from in n) in cc
regenerate-IsInSync fault a (ok users) h n = (
  users,
  ap list (regenerate_from-users fault (ok users) a) ∙ h,
  regenerate_from-config fault users a n,
)

finish_shown-IsInSync :
    (name : Text) (m : Administration × Option StoreError)
    → (m.1 ≡ none → IsInSync m.0)
    → IsDone (finish_shown name m).1
    → IsInSync (finish_shown name m).0
unfolding finish_shown
finish_shown-IsInSync name (a, none) h d = h refl
finish_shown-IsInSync name (a, some e) h d = absurd d

finish_deleted-IsInSync :
    (m : Administration × Option StoreError)
    → (m.1 ≡ none → IsInSync m.0)
    → IsDone (finish_deleted m).1
    → IsInSync (finish_deleted m).0
unfolding finish_deleted
finish_deleted-IsInSync (a, none) h d = h refl
finish_deleted-IsInSync (a, some e) h d = absurd d

after_put-IsInSync :
    (c : Circumstance) (name : Text) (a : Administration) (m : Users × Option StoreError)
    → IsDone (after_put c name a m).1
    → IsInSync (after_put c name a m).0
unfolding after_put regenerate
after_put-IsInSync c name a (users, some e) d = absurd d
after_put-IsInSync c name a (users, none) d =
    let b : Administration = record a { users = users } in
    finish_shown-IsInSync name (regenerate c.config_fault b)
      (regenerate-IsInSync c.config_fault b (list users) refl) d

after_delete-IsInSync :
    (c : Circumstance) (a : Administration) (m : Users × Option StoreError)
    → IsDone (after_delete c a m).1
    → IsInSync (after_delete c a m).0
unfolding after_delete regenerate
after_delete-IsInSync c a (users, some e) d = absurd d
after_delete-IsInSync c a (users, none) d =
    let b : Administration = record a { users = users } in
    finish_deleted-IsInSync (regenerate c.config_fault b)
      (regenerate-IsInSync c.config_fault b (list users) refl) d

finish_shown-users :
    (name : Text) (m : Administration × Option StoreError)
    → (finish_shown name m).0.users ≡ m.0.users
unfolding finish_shown
finish_shown-users name (a, none) = refl
finish_shown-users name (a, some e) = refl

finish_deleted-users :
    (m : Administration × Option StoreError) → (finish_deleted m).0.users ≡ m.0.users
unfolding finish_deleted
finish_deleted-users (a, none) = refl
finish_deleted-users (a, some e) = refl

after_put-users :
    (c : Circumstance) (name : Text) (a : Administration) (m : Users × Option StoreError)
    → (after_put c name a m).0.users ≡ m.0
unfolding after_put regenerate
after_put-users c name a (users, some e) = refl
after_put-users c name a (users, none) =
    let b : Administration = record a { users = users } in
    finish_shown-users name (regenerate_from c.config_fault (list users) b)
    ∙ regenerate_from-users c.config_fault (list users) b

after_delete-users :
    (c : Circumstance) (a : Administration) (m : Users × Option StoreError)
    → (after_delete c a m).0.users ≡ m.0
unfolding after_delete regenerate
after_delete-users c a (users, some e) = refl
after_delete-users c a (users, none) =
    let b : Administration = record a { users = users } in
    finish_deleted-users (regenerate_from c.config_fault (list users) b)
    ∙ regenerate_from-users c.config_fault (list users) b

-- What a call leaves, if its answer says that it was done.
abbrev pub Leaves : Administration × Answer → Type 0
Leaves r = IsDone r.1 → IsInSync r.0 × IsKeyed r.0.users

update-Leaves :
    (c : Circumstance) (name : Text) (body : Option UpdateRequest) (f : Found) (a : Administration)
    → IsKeyed a.users
    → Leaves (update_found c name body f a)
unfolding update_found
update-Leaves c name body (missing e) a k d = absurd d
update-Leaves c name none (found u) a k d = absurd d
update-Leaves c name (some r) (found u) a k d =
    let v : AuthUser = record u {
      password = or_else u.password r.password;
      enabled = or_else u.enabled r.enabled;
    } in
    let m = put c.fault c.now v a.users in
    (
      after_put-IsInSync c name a m d,
      subst IsKeyed (sym (after_put-users c name a m)) (put-IsKeyed c.fault c.now v a.users k),
    )

create-Leaves :
    (c : Circumstance) (body : Option CreateRequest) (a : Administration)
    → IsKeyed a.users
    → Leaves (create_user c body a)
unfolding create_user
create-Leaves c none a k d = absurd d
create-Leaves c (some r) a k d =
    let u = new_user r in
    let m = put c.fault c.now u a.users in
    (
      after_put-IsInSync c u.username a m d,
      subst IsKeyed (sym (after_put-users c u.username a m))
          (put-IsKeyed c.fault c.now u a.users k),
    )

delete-Leaves :
    (c : Circumstance) (name : Text) (f : Found) (a : Administration)
    → IsKeyed a.users
    → Leaves (delete_found c name f a)
unfolding delete_found
delete-Leaves c name (missing e) a k d = absurd d
delete-Leaves c name (found u) a k d =
    let m = delete c.fault name a.users in
    (
      after_delete-IsInSync c a m d,
      subst IsKeyed (sym (after_delete-users c a m)) (delete-IsKeyed c.fault name a.users k),
    )

refused-Leaves : (a : Administration) (s : Status) → Leaves (a, refuses s)
refused-Leaves a s d = absurd d

list_users_done : (r : Reading AuthUser) → IsDone (list_users r) → ⊥
unfolding list_users
list_users_done (ok users) d = d
list_users_done (failed e) d = d

-- The call that a name chooses if it is not "".
abbrev if_named : Text → Administration × Answer → Administration → Administration × Answer
if_named username result a = if is_empty username then (a, refuses Status.bad_request) else result

if_named-Leaves :
    (username : Text) (result : Administration × Answer) (a : Administration)
    → Leaves result
    → Leaves (if_named username result a)
if_named-Leaves [] result a l d = absurd d
if_named-Leaves (x ∷ username) result a l d = l d

pub run_call-Leaves :
    (c : Circumstance) (call : Call) (a : Administration)
    → IsKeyed a.users
    → Leaves (run_call c call a)
unfolding run_call
run_call-Leaves c lists_users a k d = absurd (list_users_done (list a.users) d)
run_call-Leaves c (creates body) a k d = create-Leaves c body a k d
run_call-Leaves c (updates name body) a k d =
    let username = trim_space name in
    let f = get username a.users in
    if_named-Leaves username (update_found c username body f a) a
      (update-Leaves c username body f a k) d
run_call-Leaves c (deletes name) a k d =
    let username = trim_space name in
    let f = get username a.users in
    if_named-Leaves username (delete_found c username f a) a (delete-Leaves c username f a k) d
