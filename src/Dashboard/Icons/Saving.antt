-- ===== src/Dashboard/Icons/Saving.antt =====
-- What a saved icon is found as.
use home_rdp_gateway.Base.{
  ℕ, ◌≡◌, inl, inr, refl, sym, ap, ◌∙◌, true, false, ◌==◌, Bool-cases, Option-cases, Option, none,
  some, List, [], ◌∷◌, ◌++◌, all, length, if◌then◌else◌,
}
use mathlib.Core.Path.{subst}
use home_rdp_gateway.Base.Texts.{Text, text_eq_refl}
use home_rdp_gateway.Go.Strings.{is_empty, trim_space, to_lower}
use home_rdp_gateway.Dashboard.EntryIcon.{is_hex}
use home_rdp_gateway.Dashboard.File.{validation, write_failed, holds, ok}
use home_rdp_gateway.Dashboard.Store.Quota.{IsWithin, enforce-IsWithin_replaced}
use home_rdp_gateway.Dashboard.Store.{System, Upload, enforce_file_quota, remove_named}
use home_rdp_gateway.Dashboard.Icons.{
  Icon, FileIconStore, ext, content_type_of, validate_icon_name, validate_icon_content,
  is_safe_stored_icon, filter_safe_icons, read_icons, FileWrite, written, not_created, partial,
  put_file, saved, refused, write_icon, quota_of, new_icon, store_icon, save_icon,
}
use home_rdp_gateway.Dashboard.Icons.Laws.{AreSafe, filter-append, read_icons-AreSafe}
use home_rdp_gateway.Dashboard.Icons.Steps.{read-holds, Reading-cases, write_json-cases}
use home_rdp_gateway.Dashboard.Icons.Names.{stored-name}

write_icon-saved :
    (sys : System) (write : FileWrite) (i icon : Icon) (bytes : ℕ) (is : List Icon)
    (s t : FileIconStore)
    → write_icon sys write i bytes is s ≡ (t, saved icon)
    → (icon ≡ i)
      × (t
          ≡ record s { metadata = holds (is ++ i ∷ []); files = put_file i.filename bytes s.files })
unfolding write_icon
write_icon-saved sys not_created i icon bytes is s t h = cc
write_icon-saved sys (partial n) i icon bytes is s t h = cc
write_icon-saved sys written i icon bytes is s t h =
    elim (write_json-cases sys.fault (is ++ i ∷ []) s.metadata) [
      | inl f ↦
          let same : (
            record s { metadata = holds (is ++ i ∷ []); files = put_file i.filename bytes s.files },
            saved i,
          )
              ≡ (t, saved icon) =
            rw (f, write_icon) at h in
          (cc, cc)
      | inr f ↦
          let files = put_file i.filename bytes s.files in
          let bad : (
            record s { files = if sys.remove_fails then files else remove_named i.filename files },
            refused write_failed,
          )
              ≡ (t, saved icon) =
            rw (f, write_icon) at h in
          cc
    ]

-- The icon that SaveIcon makes under the identifier is written, within the quota.
abbrev IsStored :
    System
    → Text
    → Text
    → Text
    → Text
    → ℕ
    → List Icon
    → FileIconStore
    → FileIconStore
    → Icon
    → Type 0
IsStored sys id original e content_type bytes is s t icon =
    (icon ≡ new_icon sys.now id original e content_type is)
    × (t ≡ record s {
      metadata = holds (is ++ icon ∷ []);
      files = put_file icon.filename bytes s.files;
    })
    × (enforce_file_quota (quota_of s.options) bytes s.files ≡ none)

store_icon-saved :
    (sys : System) (id : Text) (write : FileWrite) (original e content_type : Text) (bytes : ℕ)
    (is : List Icon) (s t : FileIconStore) (icon : Icon)
    → store_icon sys (some id) write original e content_type bytes is s ≡ (t, saved icon)
    → IsStored sys id original e content_type bytes is s t icon
unfolding store_icon
store_icon-saved sys id write original e content_type bytes is s t icon h =
    elim (Option-cases (enforce_file_quota (quota_of s.options) bytes s.files)) [
      | inr (x, f) ↦ let bad : (s, refused x) ≡ (t, saved icon) = rw (f, store_icon) at h in cc
      | inl f ↦
          let made = new_icon sys.now id original e content_type is in
          let rest : write_icon sys write made bytes is s ≡ (t, saved icon) =
            rw (f, store_icon) at h in
          let (same, kept) = write_icon-saved sys write made icon bytes is s t rest in (same, cc, f)
    ]

-- An upload that SaveIcon accepts.
abbrev pub IsAccepted : (List ℕ → Option Text) → Text → List ℕ → Text → Text → Type 0
IsAccepted format original content e content_type =
    (validate_icon_name original ≡ some (e, content_type))
    × (is_empty content ≡ false)
    × (validate_icon_content format content_type content ≡ true)

save_icon-saved :
    (format : List ℕ → Option Text) (sys : System) (id : Text) (write : FileWrite) (original : Text)
    (content : List ℕ) (s t : FileIconStore) (icon : Icon)
    → save_icon format sys (some id) write original content s ≡ (t, saved icon)
    → (e : Text) × (content_type : Text) × (is : List Icon) × IsAccepted format original content e
        content_type
      × (read_icons s ≡ ok is)
      × IsStored sys id original e content_type (length content) is s t icon
unfolding save_icon
save_icon-saved format sys id write original content s t icon h =
    elim (Option-cases (validate_icon_name original)) [
      | inl v ↦ let bad : (s, refused validation) ≡ (t, saved icon) = rw (v, save_icon) at h in cc
      | inr ((e, content_type), v) ↦ elim (Bool-cases (is_empty content)) [
        | inl b ↦
            let bad : (s, refused validation) ≡ (t, saved icon) = rw (v, b, save_icon) at h in cc
        | inr b ↦ elim (Bool-cases (validate_icon_content format content_type content)) [
          | inr k ↦
              let bad : (s, refused validation) ≡ (t, saved icon) = rw (v, b, k, save_icon) at h in
              cc
          | inl k ↦ elim (Reading-cases (read_icons s)) [
            | inl (x, r) ↦
                let bad : (s, refused x) ≡ (t, saved icon) = rw (v, b, k, r, save_icon) at h in cc
            | inr (is, r) ↦
                let rest : store_icon sys (some id) write original e content_type (length content)
                      is s
                    ≡ (t, saved icon) =
                  rw (v, b, k, r, save_icon) at h in
                let stored =
                  store_icon-saved sys id write original e content_type (length content) is s t icon
                    rest in
                (e, content_type, is, (v, b, k), r, stored)
          ]
        ]
      ]
    ]

new_icon-safe :
    (now : ℕ) (id original e content_type : Text) (is : List Icon)
    → all is_hex id ≡ true
    → content_type_of e ≡ some content_type
    → is_safe_stored_icon (new_icon now id original e content_type is) ≡ true
unfolding is_safe_stored_icon
new_icon-safe now id original e content_type is h q =
    rw (stored-name id e content_type h q, is_safe_stored_icon) (text_eq_refl content_type)

validated :
    (original e content_type : Text)
    → validate_icon_name original ≡ some (e, content_type)
    → content_type_of e ≡ some content_type
unfolding validate_icon_name
validated original e content_type v =
    let read = to_lower (ext (trim_space original)) in
    elim (Option-cases (content_type_of read)) [
      | inl n ↦ let bad : none ≡ some (e, content_type) = rw (n, validate_icon_name) at v in cc
      | inr (c, n) ↦
          let same : some (read, c) ≡ some (e, content_type) = rw (n, validate_icon_name) at v in
          let a : read ≡ e = cc in
          let b : c ≡ content_type = cc in ap content_type_of (sym a) ∙ n ∙ ap some b
    ]

listed :
    (s : FileIconStore) (us : List Upload) (is : List Icon) (i : Icon)
    → AreSafe is
    → is_safe_stored_icon i ≡ true
    → read_icons (record s { metadata = holds (is ++ i ∷ []); files = us }) ≡ ok (is ++ i ∷ [])
unfolding filter_safe_icons
listed s us is i a safe =
    read-holds (record s { files = us }) (is ++ i ∷ [])
    ∙ ap ok (filter-append is (i ∷ []) a ∙ ap (λ js. is ++ js) (rw (safe, filter_safe_icons) refl))

-- An icon that SaveIcon saves under a hexadecimal identifier is listed last, behind the icons that were
-- there, and its name, extension and content type are those of an upload that the store accepts; it is
-- active exactly when it is the first one, and its file leaves the directory within the limits.
pub save_icon-listed :
    (format : List ℕ → Option Text) (sys : System) (id : Text) (write : FileWrite) (original : Text)
    (content : List ℕ) (s t : FileIconStore) (icon : Icon)
    → all is_hex id ≡ true
    → save_icon format sys (some id) write original content s ≡ (t, saved icon)
    → (is : List Icon) × (read_icons s ≡ ok is)
      × (read_icons t ≡ ok (is ++ icon ∷ []))
      × (icon.active ≡ (length is == 0))
      × (validate_icon_content format icon.content_type content ≡ true)
      × IsWithin (quota_of t.options) t.files
save_icon-listed format sys id write original content s t icon h e =
    let (x, content_type, is, (v, b, k), r, (made, after, quota)) =
      save_icon-saved format sys id write original content s t icon e in
    let safe =
      ap is_safe_stored_icon made
      ∙ new_icon-safe sys.now id original x content_type is h
          (validated original x content_type v) in
    let files = put_file icon.filename (length content) s.files in
    (
      is,
      r,
      ap read_icons after ∙ listed s files is icon (read_icons-AreSafe s is r) safe,
      ap (λ (i : Icon). i.active) made,
      ap (λ (i : Icon). validate_icon_content format i.content_type content) made ∙ k,
      subst (λ (u : FileIconStore). IsWithin (quota_of u.options) u.files) (sym after)
          (enforce-IsWithin_replaced (quota_of s.options) s.files icon.filename (length content)
            quota),
    )
