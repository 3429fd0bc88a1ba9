-- ===== src/Dashboard/Icons/Selecting.antt =====
-- What a selected icon is found as.
use home_rdp_gateway.Base.{
  ℕ, ◌≡◌, inl, inr, refl, ap, ◌∙◌, Bool-cases, Option-cases, none, some, List, [], ◌∷◌,
}
use home_rdp_gateway.Base.Texts.{Text, text_eq, text_eq_sound}
use home_rdp_gateway.Base.Keyed.{find}
use home_rdp_gateway.Go.Strings.{is_empty, trim_space}
use home_rdp_gateway.Dashboard.File.{validation, not_found, write_failed, holds, ok}
use home_rdp_gateway.Dashboard.Store.{System}
use home_rdp_gateway.Dashboard.Icons.{
  Icon, FileIconStore, icon_id, read_icons, marked, mark_active, write_icons, set_active_icon,
  first_active, found, active_icon,
}
use home_rdp_gateway.Dashboard.Icons.Laws.{
  filter-id, marked-id, marked-active, mark_active-AreSafe, read_icons-AreSafe,
}
use home_rdp_gateway.Dashboard.Icons.Steps.{read-holds, Reading-cases, write_json-cases}

first_active-mark :
    (now : ℕ) (id : Text) (is : List Icon) (i : Icon)
    → find icon_id id is ≡ some i
    → first_active (mark_active now id is) ≡ some (marked now id i)
unfolding mark_active find marked
first_active-mark now id [] i f = cc
first_active-mark now id (j ∷ is) i f = elim (Bool-cases (text_eq j.id id)) [
  | inl e ↦
      let same : some j ≡ some i = rw (e, find) at f in
      let k : j ≡ i = cc in
      rw (marked-active now id j ∙ e) (ap (λ (x : Icon). some (marked now id x)) k)
  | inr e ↦
      let rest : find icon_id id is ≡ some i = rw (e, find) at f in
      rw (marked-active now id j ∙ e) (first_active-mark now id is i rest)
]

active_icon-first :
    (s : FileIconStore) (is : List Icon) (i : Icon)
    → read_icons s ≡ ok is
    → first_active is ≡ some i
    → active_icon s ≡ found i
unfolding active_icon
active_icon-first s is i r f = rw (r, f, active_icon) refl

write_icons-done :
    (sys : System) (is : List Icon) (s t : FileIconStore)
    → write_icons sys is s ≡ (t, none)
    → t ≡ record s { metadata = holds is }
unfolding write_icons
write_icons-done sys is s t h = elim (write_json-cases sys.fault is s.metadata) [
  | inl f ↦
      let same : (record s { metadata = holds is }, none) ≡ (t, none) = rw (f, write_icons) at h in
      cc
  | inr f ↦ let bad : (s, some write_failed) ≡ (t, none) = rw (f, write_icons) at h in cc
]

find-key : (id : Text) (is : List Icon) (i : Icon) → find icon_id id is ≡ some i → i.id ≡ id
unfolding find
find-key id [] i f = cc
find-key id (j ∷ is) i f = elim (Bool-cases (text_eq j.id id)) [
  | inl e ↦
      let same : some j ≡ some i = rw (e, find) at f in
      let k : i ≡ j = cc in ap icon_id k ∙ text_eq_sound j.id id e
  | inr e ↦ find-key id is i (rw (e, find) at f)
]

-- After SetActiveIcon without an error ActiveIcon finds an icon with the identifier, without the white
-- space around it.
pub set_active_icon-active :
    (sys : System) (text : Text) (s t : FileIconStore)
    → set_active_icon sys text s ≡ (t, none)
    → (i : Icon) × (active_icon t ≡ found i) × (i.id ≡ trim_space text)
unfolding set_active_icon
set_active_icon-active sys text s t h = elim (Bool-cases (is_empty (trim_space text))) [
  | inl b ↦ let bad : (s, some validation) ≡ (t, none) = rw (b, set_active_icon) at h in cc
  | inr b ↦ elim (Reading-cases (read_icons s)) [
    | inl (x, e) ↦ let bad : (s, some x) ≡ (t, none) = rw (b, e, set_active_icon) at h in cc
    | inr (is, e) ↦ elim (Option-cases (find icon_id (trim_space text) is)) [
      | inl n ↦ let bad : (s, some not_found) ≡ (t, none) = rw (b, e, n, set_active_icon) at h in cc
      | inr (i, f) ↦
          let marks = mark_active sys.now (trim_space text) is in
          let rest : write_icons sys marks s ≡ (t, none) = rw (b, e, f, set_active_icon) at h in
          let made = write_icons-done sys marks s t rest in
          let safe = mark_active-AreSafe sys.now (trim_space text) is (read_icons-AreSafe s is e) in
          let read : read_icons t ≡ ok marks =
            ap read_icons made ∙ read-holds s marks ∙ ap ok (filter-id marks safe) in
          (
            marked sys.now (trim_space text) i,
            active_icon-first t marks (marked sys.now (trim_space text) i) read
                (first_active-mark sys.now (trim_space text) is i f),
            marked-id sys.now (trim_space text) i ∙ find-key (trim_space text) is i f,
          )
    ]
  ]
]
