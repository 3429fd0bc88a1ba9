-- ===== src/Dashboard/Icons/Steps.antt =====
-- The calls of the icon store, one after the other.
use home_rdp_gateway.Base.{
  ℕ, ◌≡◌, ◌⊎◌, inl, inr, refl, sym, ap, ◌∙◌, ◌==◌, Bool-cases, Option-cases, Option, none, some,
  List, [], ◌∷◌, ◌++◌, length, append-nil, if◌then◌else◌,
}
use mathlib.Core.Path.{subst}
use home_rdp_gateway.Base.Texts.{Text}
use home_rdp_gateway.Base.Keyed.{find, find-IsAbsent, IsAbsent}
use home_rdp_gateway.Go.Strings.{is_empty, trim_space}
use home_rdp_gateway.Dashboard.File.{
  JsonFile, StoreError, write_failed, absent, holds, Reading, ok, failed, read_json, WriteFault,
  write_json,
}
use home_rdp_gateway.Dashboard.Store.{
  System, Upload, enforce_file_quota, remove_named, remove_upload_file,
}
use home_rdp_gateway.Dashboard.Icons.{
  Icon, FileIconStore, icon_id, validate_icon_name, validate_icon_content, is_safe_stored_icon,
  filter_safe_icons, read_icons, FileWrite, written, not_created, partial, put_file, write_icon,
  quota_of, new_icon, store_icon, save_icon, mark_active, write_icons, set_active_icon, cleared,
  delete_icon,
}
use home_rdp_gateway.Dashboard.Icons.Laws.{
  AreSafe, filter-append, filter-id, read_icons-AreSafe, IsGood, mark_active-AreSafe, left-AreSafe,
  IsGood-mark, left, IsGood-remove, IsGood-append,
}

-- The icons that can be read have identifiers of their own, and one of them is active.
abbrev pub IsSound : FileIconStore → Type 0
IsSound s = (is : List Icon) → read_icons s ≡ ok is → IsGood is

pub read-holds :
    (s : FileIconStore) (is : List Icon)
    → read_icons (record s { metadata = holds is }) ≡ ok (filter_safe_icons is)
unfolding read_icons read_json
read-holds s is = refl

pub Reading-cases :
    {A : Type 0} (r : Reading A)
    → ((e : StoreError) × (r ≡ failed e)) ⊎ ((xs : List A) × (r ≡ ok xs))
Reading-cases (failed e) = inl (e, refl)
Reading-cases (ok xs) = inr (xs, refl)

write_icons-IsSound :
    (sys : System) (is : List Icon) (s : FileIconStore)
    → IsSound s
    → AreSafe is
    → IsGood is
    → IsSound (write_icons sys is s).0
unfolding write_icons write_json
write_icons-IsSound sys is s sound safe good = elim (Option-cases sys.fault) [
  | inl e ↦
      rw (e, write_json, write_icons)
        (λ js q.
          let same : is ≡ js =
            let r = sym (ap ok (filter-id is safe)) ∙ sym (read-holds s is) ∙ q in cc in
          subst IsGood same good)
  | inr (fault, e) ↦ rw (e, write_json, write_icons) sound
]

-- What is read depends on the metadata alone.
read-files :
    (s : FileIconStore) (us : List Upload) → read_icons (record s { files = us }) ≡ read_icons s
unfolding read_icons
read-files s us = refl

set_active_icon-IsSound :
    (sys : System) (text : Text) (s : FileIconStore)
    → IsSound s
    → IsSound (set_active_icon sys text s).0
unfolding set_active_icon
set_active_icon-IsSound sys text s sound = elim (Bool-cases (is_empty (trim_space text))) [
  | inl b ↦ rw (b, set_active_icon) sound
  | inr b ↦ elim (Reading-cases (read_icons s)) [
    | inl (x, e) ↦ rw (b, e, set_active_icon) sound
    | inr (is, e) ↦ elim (Option-cases (find icon_id (trim_space text) is)) [
      | inl n ↦ rw (b, e, n, set_active_icon) sound
      | inr (i, f) ↦
          rw (b, e, f, set_active_icon)
            (write_icons-IsSound sys (mark_active sys.now (trim_space text) is) s sound
              (mark_active-AreSafe sys.now (trim_space text) is (read_icons-AreSafe s is e))
              (IsGood-mark sys.now (trim_space text) is i (sound is e) f))
    ]
  ]
]

cleared-IsSound :
    (sys : System) (deleted : Icon) (r : FileIconStore × Option StoreError)
    → IsSound r.0
    → IsSound (cleared sys deleted r).0
cleared-IsSound sys deleted (t, some x) sound = sound
cleared-IsSound sys deleted (t, none) sound =
    λ is e. sound is (sym (read-files t (remove_upload_file sys deleted.filename t.files)) ∙ e)

delete_icon-IsSound :
    (sys : System) (text : Text) (s : FileIconStore)
    → IsSound s
    → IsSound (delete_icon sys text s).0
unfolding delete_icon
delete_icon-IsSound sys text s sound = elim (Bool-cases (is_empty (trim_space text))) [
  | inl b ↦ rw (b, delete_icon) sound
  | inr b ↦ elim (Reading-cases (read_icons s)) [
    | inl (x, e) ↦ rw (b, e, delete_icon) sound
    | inr (is, e) ↦ elim (Option-cases (find icon_id (trim_space text) is)) [
      | inl n ↦ rw (b, e, n, delete_icon) sound
      | inr (i, f) ↦
          let rest = left sys.now (trim_space text) i is in
          let kept = cleared-IsSound sys i (write_icons sys rest s) (
            write_icons-IsSound sys rest s sound
              (left-AreSafe sys.now (trim_space text) i is (read_icons-AreSafe s is e))
              (IsGood-remove sys.now (trim_space text) is i (sound is e) f)) in
          rw (b, e, f, delete_icon) kept
    ]
  ]
]

-- A call of the store with what the system answers; an identifier is new if no icon has it.
abbrev pub IsNew : Option Text → FileIconStore → Type 0
IsNew random s =
    (id : Text)
    → random ≡ some id
    → (is : List Icon) → read_icons s ≡ ok is
    → find icon_id id is ≡ none

pub write_json-cases :
    (fault : Option WriteFault) (is : List Icon) (file : JsonFile Icon)
    → (write_json fault is file ≡ (holds is, none))
      ⊎ (write_json fault is file ≡ (file, some write_failed))
unfolding write_json
write_json-cases none is file = inl refl
write_json-cases (some fault) is file = inr refl

IsGood-appended :
    (is : List Icon) (i : Icon)
    → AreSafe is
    → IsGood is
    → IsAbsent icon_id i.id is
    → i.active ≡ (length is == 0)
    → IsGood (filter_safe_icons (is ++ i ∷ []))
unfolding filter_safe_icons
IsGood-appended is i safe good new act =
    rw (filter-append is (i ∷ []) safe) (elim (Bool-cases (is_safe_stored_icon i)) [
      | inl e ↦ rw (e, filter_safe_icons) (IsGood-append is i good new act)
      | inr e ↦ rw (e, filter_safe_icons, append-nil is) good
    ])

write_icon-IsSound :
    (sys : System) (write : FileWrite) (icon : Icon) (bytes : ℕ) (is : List Icon)
    (s : FileIconStore)
    → IsSound s
    → read_icons s ≡ ok is
    → find icon_id icon.id is ≡ none
    → icon.active ≡ (length is == 0)
    → IsSound (write_icon sys write icon bytes is s).0
unfolding write_icon
write_icon-IsSound sys not_created icon bytes is s sound e n act = sound
write_icon-IsSound sys (partial k) icon bytes is s sound e n act =
    λ js q. sound js (sym (read-files s (put_file icon.filename k s.files)) ∙ q)
write_icon-IsSound sys written icon bytes is s sound e n act =
    elim (write_json-cases sys.fault (is ++ icon ∷ []) s.metadata) [
      | inl f ↦
          rw (f, write_icon)
            (λ js q.
              let t = record s { files = put_file icon.filename bytes s.files } in
              let same : filter_safe_icons (is ++ icon ∷ []) ≡ js =
                let r = sym (read-holds t (is ++ icon ∷ [])) ∙ q in cc in
              subst IsGood same (
                IsGood-appended is icon (read_icons-AreSafe s is e) (sound is e)
                  (find-IsAbsent icon_id icon.id is n) act))
      | inr f ↦
          let files = put_file icon.filename bytes s.files in
          rw (f, write_icon)
            (λ js q. sound js (
              sym (
                read-files s (if sys.remove_fails then files else remove_named icon.filename files))
              ∙ q))
    ]

store_icon-IsSound :
    (sys : System) (random : Option Text) (write : FileWrite) (original e content_type : Text)
    (bytes : ℕ) (is : List Icon) (s : FileIconStore)
    → IsSound s
    → IsNew random s
    → read_icons s ≡ ok is
    → IsSound (store_icon sys random write original e content_type bytes is s).0
unfolding store_icon
store_icon-IsSound sys random write original e content_type bytes is s sound new q =
    elim (Option-cases (enforce_file_quota (quota_of s.options) bytes s.files)) [
      | inr (x, f) ↦ rw (f, store_icon) sound
      | inl f ↦ elim (Option-cases random) [
        | inl r ↦ rw (f, r, store_icon) sound
        | inr (id, r) ↦
            rw (f, r, store_icon)
              (write_icon-IsSound sys write (new_icon sys.now id original e content_type is) bytes
                is s sound q (new id r is q) refl)
      ]
    ]

module _ (format : List ℕ → Option Text) where
  save_icon-IsSound :
      (sys : System) (random : Option Text) (write : FileWrite) (original : Text) (content : List ℕ)
      (s : FileIconStore)
      → IsSound s
      → IsNew random s
      → IsSound (save_icon format sys random write original content s).0
  unfolding save_icon
  save_icon-IsSound sys random write original content s sound new =
      elim (Option-cases (validate_icon_name original)) [
        | inl v ↦ rw (v, save_icon) sound
        | inr ((e, content_type), v) ↦ elim (Bool-cases (is_empty content)) [
          | inl b ↦ rw (v, b, save_icon) sound
          | inr b ↦ elim (Bool-cases (validate_icon_content format content_type content)) [
            | inr k ↦ rw (v, b, k, save_icon) sound
            | inl k ↦ elim (Reading-cases (read_icons s)) [
              | inl (x, r) ↦ rw (v, b, k, r, save_icon) sound
              | inr (is, r) ↦
                  rw (v, b, k, r, save_icon)
                    (store_icon-IsSound sys random write original e content_type (length content) is
                      s sound new r)
            ]
          ]
        ]
      ]

  -- The store after any calls, each with what the system answers; a store begins without metadata, and
  -- rand.Read gives an identifier that no icon has.
  pub data IsReached : FileIconStore → Type 0 where
    starts : (s : FileIconStore) → IsReached (record s { metadata = absent })
    saves :
        (sys : System) (random : Option Text) (write : FileWrite) (original : Text)
        (content : List ℕ) (s : FileIconStore)
        → IsNew random s
        → IsReached s
        → IsReached (save_icon format sys random write original content s).0
    selects :
        (sys : System) (text : Text) (s : FileIconStore)
        → IsReached s
        → IsReached (set_active_icon sys text s).0
    deletes :
        (sys : System) (text : Text) (s : FileIconStore)
        → IsReached s
        → IsReached (delete_icon sys text s).0

  reached-IsSound : (s : FileIconStore) → IsReached s → IsSound s
  unfolding read_icons read_json filter_safe_icons
  reached-IsSound _ (starts s) = λ is e. let same : [] ≡ is = cc in subst IsGood same (tt, inl refl)
  reached-IsSound _ (saves sys random write original content s new r) =
      save_icon-IsSound sys random write original content s (reached-IsSound s r) new
  reached-IsSound _ (selects sys text s r) =
      set_active_icon-IsSound sys text s (reached-IsSound s r)
  reached-IsSound _ (deletes sys text s r) = delete_icon-IsSound sys text s (reached-IsSound s r)

  -- After any sequence of calls, whatever fails in them, the icons that can be read have identifiers of
  -- their own, and exactly one of them is active unless there is none; an icon is saved under an
  -- identifier that no icon has.
  pub reached-IsGood :
      (s : FileIconStore) (is : List Icon) → IsReached s → read_icons s ≡ ok is → IsGood is
  reached-IsGood s is r e = reached-IsSound s r is e
