-- ===== src/Auth/Users.antt =====
-- cmd/auth/database/config.go: the users of the helper's configuration file, read again when the file is
-- newer. A time is a number, 0 the zero time; the parsed file is what config.LoadFile gives, a library's
-- answer. The mutex makes the two parts of a reload one step each, and of one call at a time here.
use home_rdp_gateway.Base.{
  ℕ, ◌≡◌, ◌<◌, ◌⊎◌, inl, inr, refl, sym, ap, ◌∙◌, not, false, lt→ltb, ltb, Bool-cases, Option-cases,
  Option, none, some, List, [], ◌∷◌, if◌then◌else◌, arith,
}
use home_rdp_gateway.Base.Texts.{Text, text_eq}
use home_rdp_gateway.Base.Assoc.{lookup, assign, lookup-assign}
use home_rdp_gateway.Go.Strings.{is_empty}

pub record UserConfig : Type 0 where
  pub username : Text
  pub password : Text

pub record Config : Type 0 where
  pub users : List (Text × UserConfig)
  pub config_file : Text
  pub mod_time : ℕ

-- What os.Stat says: the file is not there, another error, or the time of the file.
pub data Stat : Type 0 where
  not_there unknown : Stat
  modified : ℕ → Stat

-- The loop of usersToMap, from the map so far.
unfoldable pub add_users : List UserConfig → List (Text × UserConfig) → List (Text × UserConfig)
unfolding assign
add_users [] m = m
add_users (u ∷ us) m = add_users us (assign u.username u m)

unfoldable pub users_to_map : List UserConfig → List (Text × UserConfig)
users_to_map us = add_users us []

unfoldable pub new_config : List UserConfig → Config
new_config us = record { users = users_to_map us; config_file = []; mod_time = 0 }

-- `parsed` is what config.LoadFile gives for the file, none for an error.
unfoldable pub load_config_file : Stat → Option (List UserConfig) → Option (List UserConfig × ℕ)
load_config_file not_there parsed = some ([], 0)
load_config_file unknown parsed = none
load_config_file (modified t) none = none
load_config_file (modified t) (some us) = some (us, t)

unfoldable pub new_config_file : Text → Stat → Option (List UserConfig) → Option Config
new_config_file file stat parsed = elim (load_config_file stat parsed) [
  | none ↦ none
  | some (us, t) ↦ some (record { users = users_to_map us; config_file = file; mod_time = t })
]

-- What the file system says in a reload: to the first os.Stat, to the one of the load, and the content.
pub record Disk : Type 0 where
  pub first : Stat
  pub second : Stat
  pub parsed : Option (List UserConfig)

abbrev time_of : Stat → Option ℕ
time_of not_there = none
time_of unknown = none
time_of (modified t) = some t

unfoldable pub replace_users : Option (List UserConfig × ℕ) → Config → Config
replace_users none c = c
replace_users (some (us, t)) c =
    if not (ltb c.mod_time t) then c else record c { users = users_to_map us; mod_time = t }

unfoldable pub reload_if_changed : Disk → Config → Config
reload_if_changed d c = if is_empty c.config_file then c else elim (time_of d.first) [
  | none ↦ c
  | some t ↦
      if not (ltb c.mod_time t) then c else replace_users (load_config_file d.second d.parsed) c
]

abbrev pub password_of : Option UserConfig → Text
password_of none = []
password_of (some u) = u.password

unfoldable pub get_password : Disk → Text → Config → Config × Text
unfolding lookup
get_password d username c =
    let after = reload_if_changed d c in (after, password_of (lookup username after.users))

-- The last user with the name.
abbrev pub last_named : Text → List UserConfig → Option UserConfig
last_named name [] = none
last_named name (u ∷ us) = elim (last_named name us) [
  | some v ↦ some v
  | none ↦ if text_eq u.username name then some u else none
]

lookup-add_users :
    (name : Text) (us : List UserConfig) (m : List (Text × UserConfig))
    → lookup name (add_users us m)
      ≡ elim (last_named name us) [ none ↦ lookup name m | some u ↦ some u ]
unfolding add_users
lookup-add_users name [] m = refl
lookup-add_users name (u ∷ us) m =
    ground
      (arith, lookup-add_users name us (assign u.username u m), lookup-assign name u.username u m)

replace_users-newer :
    (r : Option (List UserConfig × ℕ)) (c : Config)
    → (replace_users r c ≡ c)
      ⊎ ((us : List UserConfig) × (t : ℕ) × (r ≡ some (us, t))
          × (c.mod_time < t)
          × (replace_users r c ≡ record c { users = users_to_map us; mod_time = t }))
unfolding replace_users
replace_users-newer none c = inl refl
replace_users-newer (some (us, t)) c = elim (Bool-cases (ltb c.mod_time t)) [
  | inl e ↦ inr (us, t, refl, ground arith, rw e refl)
  | inr e ↦ inl (rw e refl)
]

load_config_file-modified :
    (stat : Stat) (parsed : Option (List UserConfig)) (us : List UserConfig) (t n : ℕ)
    → n < t
    → load_config_file stat parsed ≡ some (us, t)
    → (stat ≡ modified t) × (parsed ≡ some us)
unfolding load_config_file
load_config_file-modified not_there parsed us t n b e =
    let zero_time : 0 ≡ t = cc in let bad : ⊥ = omega arith in absurd bad
load_config_file-modified unknown parsed us t n b e = cc
load_config_file-modified (modified k) none us t n b e = cc
load_config_file-modified (modified k) (some vs) us t n b e = (cc, cc)

option_eta : {A : Type 0} (o : Option A) → elim o [ none ↦ none | some a ↦ some a ] ≡ o
option_eta none = refl
option_eta (some a) = refl

-- The file is newer than the configuration, when it is looked at and when it is loaded, and it can be read.
abbrev pub IsNewer : Disk → Config → List UserConfig → ℕ → Type 0
IsNewer d c us t =
    (is_empty c.config_file ≡ false)
    × ((seen : ℕ) × (d.first ≡ modified seen) × (c.mod_time < seen))
    × (d.second ≡ modified t)
    × (d.parsed ≡ some us)
    × (c.mod_time < t)

replaced :
    (d : Disk) (c : Config)
    → (replace_users (load_config_file d.second d.parsed) c ≡ c)
      ⊎ ((us : List UserConfig) × (t : ℕ) × (d.second ≡ modified t)
          × (d.parsed ≡ some us)
          × (c.mod_time < t)
          × (replace_users (load_config_file d.second d.parsed) c
              ≡ record c { users = users_to_map us; mod_time = t }))
replaced d c = elim (replace_users-newer (load_config_file d.second d.parsed) c) [
  | inl e ↦ inl e
  | inr (us, t, e, b, q) ↦
      let (x, y) = load_config_file-modified d.second d.parsed us t c.mod_time b e in
      inr (us, t, x, y, b, q)
]

time_of-some : (s : Stat) (t : ℕ) → time_of s ≡ some t → s ≡ modified t
time_of-some not_there t h = cc
time_of-some unknown t h = cc
time_of-some (modified k) t h = cc

-- What a reload leaves: the configuration as it was, or the users of a newer file.
abbrev IsReloaded : Disk → Config → Config → Type 0
IsReloaded d c after =
    (after ≡ c)
    ⊎ ((us : List UserConfig) × (t : ℕ) × IsNewer d c us t
        × (after ≡ record c { users = users_to_map us; mod_time = t }))

reload_if_changed-IsReloaded : (d : Disk) (c : Config) → IsReloaded d c (reload_if_changed d c)
unfolding reload_if_changed
reload_if_changed-IsReloaded d c = elim (Bool-cases (is_empty c.config_file)) [
  | inl e ↦ rw (e, reload_if_changed) (inl refl)
  | inr e ↦ elim (Option-cases (time_of d.first)) [
    | inl n ↦ rw (e, n, reload_if_changed) (inl refl)
    | inr (t, q) ↦ elim (Bool-cases (ltb c.mod_time t)) [
      | inr b ↦ rw (e, q, b, reload_if_changed) (inl refl)
      | inl b ↦
          let r : reload_if_changed d c ≡ replace_users (load_config_file d.second d.parsed) c =
            rw (e, q, b, reload_if_changed) refl in
          elim (replaced d c) [
            | inl same ↦ inl (r ∙ same)
            | inr (us, u, x, y, z, s) ↦
                inr (us, u, (e, (t, time_of-some d.first t q, ground arith), x, y, z), r ∙ s)
          ]
    ]
  ]
]

newer-reload_if_changed :
    (d : Disk) (c : Config) (us : List UserConfig) (t : ℕ)
    → IsNewer d c us t
    → reload_if_changed d c ≡ record c { users = users_to_map us; mod_time = t }
unfolding reload_if_changed replace_users load_config_file
newer-reload_if_changed d c us t (full, (seen, first, newer), second, parsed, after) =
    rw
      (
        full,
        first,
        lt→ltb c.mod_time seen newer,
        second,
        parsed,
        lt→ltb c.mod_time t after,
        reload_if_changed,
        load_config_file,
        replace_users,
      )
      refl

not-IsNewer :
    (d : Disk) (c : Config)
    → reload_if_changed d c ≡ c
    → ¬ ((us : List UserConfig) × (t : ℕ) × IsNewer d c us t)
not-IsNewer d c same (us, t, newer) =
    let moved =
      ap (λ (x : Config). x.mod_time) (sym same ∙ newer-reload_if_changed d c us t newer) in
    let later = newer.4 in absurd (omega arith)

found : (name : Text) (us : List UserConfig) → lookup name (users_to_map us) ≡ last_named name us
unfolding users_to_map lookup
found name us = lookup-add_users name us [] ∙ option_eta (last_named name us)

-- If the configuration has a file that is newer than it, both when it is looked at and when it is loaded, and that can be
-- read, then GetPassword answers with the password of the last user of that name in the file, "" if there
-- is none, and takes over the users and the time of the file; otherwise it answers from the configuration as it was, and leaves it so.
pub get_password-latest :
    (d : Disk) (name : Text) (c : Config)
    → ((get_password d name c ≡ (c, password_of (lookup name c.users)))
        × ¬ ((us : List UserConfig) × (t : ℕ) × IsNewer d c us t))
      ⊎ ((us : List UserConfig) × (t : ℕ) × IsNewer d c us t
          × (get_password d name c ≡ (
            record c { users = users_to_map us; mod_time = t },
            password_of (last_named name us),
          )))
unfolding get_password users_to_map
get_password-latest d name c = elim (reload_if_changed-IsReloaded d c) [
  | inl e ↦ inl (ap (λ (x : Config). (x, password_of (lookup name x.users))) e, not-IsNewer d c e)
  | inr (us, t, newer, e) ↦ inr (
    us,
    t,
    newer,
    ap (λ (z : Config). (z, password_of (lookup name z.users))) e
        ∙ ap (λ o. (record c { users = users_to_map us; mod_time = t }, password_of o))
            (found name us),
  )
]
