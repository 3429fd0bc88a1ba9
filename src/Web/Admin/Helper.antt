-- ===== src/Web/Admin/Helper.antt =====
-- What the authentication helper reads of the configuration that the administration writes.
use home_rdp_gateway.Base.{
  ◌≡◌, refl, sym, ap, ◌∙◌, Bool, true, false, Bool-cases, inl, inr, Option, none, some, List, [],
  ◌∷◌, if◌then◌else◌, arith,
}
use mathlib.Core.Path.{subst}
use home_rdp_gateway.Base.Texts.{Text, text_eq, text_eq_iff}
use home_rdp_gateway.Base.Keyed.{find, AreDistinct, find-of_absent}
use home_rdp_gateway.Base.Assoc.{lookup, assign, lookup-assign}
use home_rdp_gateway.Dashboard.File.{holds, ok}
use home_rdp_gateway.Dashboard.AuthUsers.{AuthUser, username_of, list, helper_users}
use home_rdp_gateway.Dashboard.AuthUsers.Laws.{IsKeyed}
use home_rdp_gateway.Dashboard.AuthUsers.View.{view, view-Holds}
use home_rdp_gateway.Auth.Users.{UserConfig, add_users, users_to_map, password_of}
use home_rdp_gateway.Web.Admin.AuthUsers.{
  Administration, Answer, Circumstance, Call, lists_users, creates, updates, deletes, run_call,
  guarded, handle,
}
use home_rdp_gateway.Web.Admin.InSync.{IsDone, Leaves, run_call-Leaves}

-- The users of a configuration file, as config.LoadFile decodes them: the names and passwords that were written come back
-- as they were from the YAML library.
abbrev pub loaded : List (Text × Text) → List UserConfig
loaded [] = []
loaded ((name, password) ∷ pairs) = record { username = name; password = password } ∷ loaded pairs

-- What the helper keeps for a name, over what it kept before.
abbrev kept : Option AuthUser → Option UserConfig → Option UserConfig
kept none before = before
kept (some u) before =
    if u.enabled then some (record { username = u.username; password = u.password }) else before

lookup-loaded :
    (name : Text) (users : List AuthUser) (m : List (Text × UserConfig))
    → AreDistinct username_of users
    → lookup name (add_users (loaded (helper_users users)) m)
      ≡ kept (find username_of name users) (lookup name m)
unfolding helper_users add_users find
lookup-loaded name [] m d = refl
lookup-loaded name (u ∷ users) m (absent, d) =
    let entry : UserConfig = record { username = u.username; password = u.password } in
    let set = lookup-assign name u.username entry m in
    let on = lookup-loaded name users (assign u.username entry m) d in
    let off = lookup-loaded name users m d in
    elim (Bool-cases (text_eq u.username name)) [
      | inl e ↦
          let gone = find-of_absent username_of u.username users absent in
          let here =
            subst (λ t. find username_of t users ≡ none) ((text_eq_iff u.username name).0 e) gone in
          let shown : lookup name (assign u.username entry m) ≡ some entry = set ∙ rw e refl in
          elim (Bool-cases u.enabled) [
            | inl b ↦
                let last : lookup name
                      (add_users (loaded (helper_users users)) (assign u.username entry m))
                    ≡ some entry =
                  on ∙ rw here shown in
                ground (arith, last)
            | inr b ↦
                let last : lookup name (add_users (loaded (helper_users users)) m) ≡ lookup name m =
                  off ∙ rw here refl in
                ground (arith, last)
          ]
      | inr e ↦
          let same : lookup name (assign u.username entry m) ≡ lookup name m = set ∙ rw e refl in
          elim (Bool-cases u.enabled) [
            | inl b ↦
                let last : lookup name
                      (add_users (loaded (helper_users users)) (assign u.username entry m))
                    ≡ kept (find username_of name users) (lookup name m) =
                  on ∙ rw same refl in
                ground (arith, last)
            | inr b ↦ ground (arith, off)
          ]
    ]

guarded-Leaves :
    (allowed has_store has_path : Bool) (result : Administration × Answer) (a : Administration)
    → Leaves result
    → Leaves (guarded allowed has_store has_path result a)
guarded-Leaves false has_store has_path result a l d = absurd d
guarded-Leaves true false has_path result a l d = absurd d
guarded-Leaves true true false result a l d = absurd d
guarded-Leaves true true true result a l d = l d

handle-Leaves :
    (allowed has_store has_path : Bool) (c : Circumstance) (call : Call) (a : Administration)
    → IsKeyed a.users
    → Leaves (handle allowed has_store has_path c call a)
unfolding handle
handle-Leaves allowed true has_path c lists_users a k d = run_call-Leaves c lists_users a k d
handle-Leaves allowed false has_path c lists_users a k d = absurd d
handle-Leaves allowed has_store has_path c (creates body) a k d =
    guarded-Leaves allowed has_store has_path (run_call c (creates body) a) a
      (run_call-Leaves c (creates body) a k) d
handle-Leaves allowed has_store has_path c (updates name body) a k d =
    guarded-Leaves allowed has_store has_path (run_call c (updates name body) a) a
      (run_call-Leaves c (updates name body) a k) d
handle-Leaves allowed has_store has_path c (deletes name) a k d =
    guarded-Leaves allowed has_store has_path (run_call c (deletes name) a) a
      (run_call-Leaves c (deletes name) a k) d

-- The password of a user who is enabled, "" for any other.
abbrev pub enabled_password : Option AuthUser → Text
enabled_password none = []
enabled_password (some u) = if u.enabled then u.password else []

kept-password : (o : Option AuthUser) → password_of (kept o none) ≡ enabled_password o
kept-password none = refl
kept-password (some u) = elim (Bool-cases u.enabled) [ inl e ↦ rw e refl | inr e ↦ rw e refl ]

ok_inj : (us vs : List AuthUser) → ok us ≡ ok vs → us ≡ vs
ok_inj us vs h = cc

-- When a request of an administrator to create, update or delete a user is answered as done, then for every
-- name the helper, as it loads the configuration that was written, has the password of the user whom the store has under
-- the name, if that user is enabled, and "", with which it refuses everyone, if the user is disabled or there is none.
-- The names in the store are still distinct.
pub handle-helper :
    (allowed has_store has_path : Bool) (c : Circumstance) (call : Call) (a : Administration)
    → IsKeyed a.users
    → IsDone (handle allowed has_store has_path c call a).1
    → (pairs : List (Text × Text)) × ((handle allowed has_store has_path c call a).0.config
        ≡ holds pairs)
      × IsKeyed (handle allowed has_store has_path c call a).0.users
      × ((name : Text)
          → password_of (lookup name (users_to_map (loaded pairs)))
            ≡ enabled_password (view (handle allowed has_store has_path c call a).0.users name))
unfolding users_to_map list lookup
handle-helper allowed has_store has_path c call a k d =
    let after = (handle allowed has_store has_path c call a).0 in
    let (sync, (us, held, distinct)) = handle-Leaves allowed has_store has_path c call a k d in
    let (users, read, config) = sync in
    let same : ok us ≡ ok users = sym held ∙ read in
    let apart : AreDistinct username_of users =
      subst (AreDistinct username_of) (ok_inj us users same) distinct in
    (
      helper_users users,
      config,
      (users, read, apart),
      λ name.
          ap password_of (lookup-loaded name users [] apart)
          ∙ kept-password (find username_of name users)
          ∙ ap enabled_password (sym (view-Holds after.users users read name)),
    )
