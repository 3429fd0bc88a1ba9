-- ===== src/Dashboard/AuthUsers/Laws.antt =====
-- What the store of the direct-auth users promises.
use home_rdp_gateway.Base.{
  ℕ, ◌≡◌, ◌≢◌, ◌⊎◌, refl, sym, ap, ◌∙◌, inl, inr, true, Bool-cases, Option-cases, Option, none,
  some, List, [], ◌∷◌, ◌++◌, arith,
}
use home_rdp_gateway.Base.Texts.{Text}
use home_rdp_gateway.Base.Keyed.{
  find, replace, remove, AreDistinct, find-IsAbsent, find-replace_self, find-replace_other,
  find-append_self, find-append_other, find-remove_self, find-remove_other, AreDistinct-replace,
  AreDistinct-append, AreDistinct-remove,
}
use home_rdp_gateway.Dashboard.File.{
  not_found, write_failed, holds, ok, read_json, WriteFault, write_json,
}
use home_rdp_gateway.Dashboard.AuthUsers.{
  AuthUser, username_of, Users, is_valid_auth_user, Found, found, missing, get, stamped, upsert,
  put, delete,
}

upsert_new :
    (now : ℕ) (u : AuthUser) (users : List AuthUser)
    → find username_of u.username users ≡ none
    → upsert now u users ≡ users ++ stamped now u none ∷ []
unfolding upsert
upsert_new now u users e = rw (e, upsert)

upsert_old :
    (now : ℕ) (u old : AuthUser) (users : List AuthUser)
    → find username_of u.username users ≡ some old
    → upsert now u users ≡ replace username_of u.username (stamped now u (some old)) users
unfolding upsert
upsert_old now u old users e = rw (e, upsert)

pub find-upsert_self :
    (now : ℕ) (u : AuthUser) (users : List AuthUser)
    → find username_of u.username (upsert now u users)
      ≡ some (stamped now u (find username_of u.username users))
find-upsert_self now u users = elim (Option-cases (find username_of u.username users)) [
  | inl e ↦
      rw (upsert_new now u users e, e)
        (find-append_self username_of u.username (stamped now u none) users refl e)
  | inr (old, e) ↦
      rw (upsert_old now u old users e, e)
        (find-replace_self username_of u.username old (stamped now u (some old)) users refl e)
]

pub find-upsert_other :
    (now : ℕ) (u : AuthUser) (users : List AuthUser) (name : Text)
    → name ≢ u.username
    → find username_of name (upsert now u users) ≡ find username_of name users
find-upsert_other now u users name n = elim (Option-cases (find username_of u.username users)) [
  | inl e ↦
      rw (upsert_new now u users e)
        (find-append_other username_of name (stamped now u none) users n)
  | inr (old, e) ↦
      rw (upsert_old now u old users e)
        (find-replace_other username_of u.username name (stamped now u (some old)) users refl n)
]

upsert-AreDistinct :
    (now : ℕ) (u : AuthUser) (users : List AuthUser)
    → AreDistinct username_of users
    → AreDistinct username_of (upsert now u users)
upsert-AreDistinct now u users d = elim (Option-cases (find username_of u.username users)) [
  | inl e ↦ rw (upsert_new now u users e) (
      AreDistinct-append username_of (stamped now u none) users
        (find-IsAbsent username_of u.username users e) d)
  | inr (old, e) ↦
      rw (upsert_old now u old users e)
        (AreDistinct-replace username_of u.username (stamped now u (some old)) users refl d)
]

-- The users that a file stands for, if it can be read.
abbrev pub Holds : Users → List AuthUser → Type 0
Holds file users = read_json file ≡ ok users

abbrev pub found_in : Option AuthUser → Found
found_in none = missing not_found
found_in (some u) = found u

pub get-Holds :
    (name : Text) (file : Users) (users : List AuthUser)
    → Holds file users
    → get name file ≡ found_in (find username_of name users)
unfolding get
get-Holds name file users h = elim (Option-cases (find username_of name users)) [
  | inl e ↦ rw (h, e, get)
  | inr (u, e) ↦ rw (h, e, get)
]

pub put_written :
    (now : ℕ) (u : AuthUser) (file : Users) (users : List AuthUser)
    → is_valid_auth_user u ≡ true
    → Holds file users
    → put none now u file ≡ (holds (upsert now u users), none)
unfolding put write_json
put_written now u file users valid h = rw (valid, h, put)

-- A valid user that is put where the file can be read and written is found under its name, with the
-- time of creation of the user that it replaces, if any, and every other name is found as before.
pub put-get :
    (now : ℕ) (u : AuthUser) (file : Users) (users : List AuthUser) (other : Text)
    → is_valid_auth_user u ≡ true
    → Holds file users
    → other ≢ u.username
    → ((put none now u file).1 ≡ none)
      × (get u.username (put none now u file).0
          ≡ found (stamped now u (find username_of u.username users)))
      × (get other (put none now u file).0 ≡ get other file)
unfolding read_json
put-get now u file users other valid h n =
    let users' = upsert now u users in
    rw (put_written now u file users valid h) (
      refl,
      get-Holds u.username (holds users') users' refl ∙ ap found_in (find-upsert_self now u users),
      get-Holds other (holds users') users' refl
          ∙ (ap found_in (find-upsert_other now u users other n)
              ∙ sym (get-Holds other file users h)),
    )

pub delete_written :
    (name : Text) (u : AuthUser) (file : Users) (users : List AuthUser)
    → Holds file users
    → find username_of name users ≡ some u
    → delete none name file ≡ (holds (remove username_of name users), none)
unfolding delete write_json
delete_written name u file users h e = rw (h, e, delete)

pub delete_failed :
    (x : WriteFault) (name : Text) (u : AuthUser) (file : Users) (users : List AuthUser)
    → Holds file users
    → find username_of name users ≡ some u
    → delete (some x) name file ≡ (file, some write_failed)
unfolding delete write_json
delete_failed x name u file users h e = rw (h, e, delete)

pub delete_nothing :
    (fault : Option WriteFault) (name : Text) (file : Users) (users : List AuthUser)
    → Holds file users
    → find username_of name users ≡ none
    → delete fault name file ≡ (file, none)
unfolding delete
delete_nothing fault name file users h e = rw (h, e, delete)

-- The file holds users, no two of the same name.
abbrev pub IsKeyed : Users → Type 0
IsKeyed file = (users : List AuthUser) × Holds file users × AreDistinct username_of users

pub put-IsKeyed :
    (fault : Option WriteFault) (now : ℕ) (u : AuthUser) (file : Users)
    → IsKeyed file
    → IsKeyed (put fault now u file).0
unfolding put write_json read_json
put-IsKeyed fault now u file (users, h, d) = elim (Bool-cases (is_valid_auth_user u)) [
  | inr bad ↦ rw bad (users, h, d)
  | inl good ↦ elim (Option-cases fault) [
    | inl e ↦ rw (good, h, e) (upsert now u users, refl, upsert-AreDistinct now u users d)
    | inr (x, e) ↦ rw (good, h, e) (users, h, d)
  ]
]

pub delete-IsKeyed :
    (fault : Option WriteFault) (name : Text) (file : Users)
    → IsKeyed file
    → IsKeyed (delete fault name file).0
unfolding delete write_json read_json
delete-IsKeyed fault name file (users, h, d) = elim (Option-cases (find username_of name users)) [
  | inl e ↦ rw (delete_nothing fault name file users h e) (users, h, d)
  | inr (u, q) ↦ elim (Option-cases fault) [
    | inl e ↦
        rw (e, delete_written name u file users h q)
          (remove username_of name users, refl, AreDistinct-remove username_of name users d)
    | inr (x, e) ↦ rw (e, delete_failed x name u file users h q) (users, h, d)
  ]
]

-- Put and Delete keep a file readable and its names distinct, whether they succeed, refuse the user or
-- fail to write.
pub operations-IsKeyed :
    (fault : Option WriteFault) (now : ℕ) (u : AuthUser) (name : Text) (file : Users)
    → IsKeyed file
    → IsKeyed (put fault now u file).0 × IsKeyed (delete fault name file).0
operations-IsKeyed fault now u name file k =
    (put-IsKeyed fault now u file k, delete-IsKeyed fault name file k)

-- Where the file can be read and written and holds no name twice, a name that is deleted is no longer
-- found, whether it was there or not, and every other name is found as before.
pub delete-get :
    (name : Text) (file : Users) (users : List AuthUser) (other : Text)
    → Holds file users
    → AreDistinct username_of users
    → other ≢ name
    → ((delete none name file).1 ≡ none)
      × (get name (delete none name file).0 ≡ missing not_found)
      × (get other (delete none name file).0 ≡ get other file)
unfolding read_json
delete-get name file users other h d n = elim (Option-cases (find username_of name users)) [
  | inl e ↦
      rw (delete_nothing none name file users h e)
        (refl, get-Holds name file users h ∙ ap found_in e, refl)
  | inr (u, e) ↦
      let users' = remove username_of name users in
      rw (delete_written name u file users h e) (
        refl,
        get-Holds name (holds users') users' refl
            ∙ ap found_in (find-remove_self username_of name users d),
        get-Holds other (holds users') users' refl
            ∙ (ap found_in (find-remove_other username_of name other users n)
                ∙ sym (get-Holds other file users h)),
      )
]

-- A call of Put or Delete that returns an error leaves the file as it was.
pub error_unchanged :
    (fault : Option WriteFault) (now : ℕ) (u : AuthUser) (name : Text) (file : Users)
    → (((put fault now u file).1 ≡ none) ⊎ ((put fault now u file).0 ≡ file))
      × (((delete fault name file).1 ≡ none) ⊎ ((delete fault name file).0 ≡ file))
unfolding put delete write_json
error_unchanged fault now u name file = (ground arith, ground arith)
