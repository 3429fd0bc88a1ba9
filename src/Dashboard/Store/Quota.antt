-- ===== src/Dashboard/Store/Quota.antt =====
-- The quota of the uploaded templates.
use home_rdp_gateway.Base.{
  ℕ, suc, ◌+◌, ◌≤◌, ◌≡◌, ◌⊎◌, refl, sym, ◌∙◌, inl, inr, Bool, true, any, ◌||◌, Bool-cases,
  Option-cases, Option, none, some, List, [], ◌∷◌, ◌++◌, if◌then◌else◌, arith,
}
use home_rdp_gateway.Base.Texts.{Text, text_eq, codes}
use home_rdp_gateway.Dashboard.File.{StoreError, read_failed, write_failed}
use home_rdp_gateway.Dashboard.Store.{
  FileStoreOptions, Upload, FileStore, remove_named, regular_file_usage, check_quota,
  enforce_file_quota, refused, save_upload,
}

-- The regular files and their bytes, as they are.
abbrev pub count_of : List Upload → ℕ
count_of [] = 0
count_of (u ∷ us) = if u.regular then suc (count_of us) else count_of us

abbrev pub bytes_of : List Upload → ℕ
bytes_of [] = 0
bytes_of (u ∷ us) = if u.regular then u.size + bytes_of us else bytes_of us

-- A limit of 0 is none.
abbrev pub IsWithin : FileStoreOptions → List Upload → Type 0
IsWithin o us =
    ((o.max_uploads ≡ 0) ⊎ (count_of us ≤ o.max_uploads))
    × ((o.max_storage_bytes ≡ 0) ⊎ (bytes_of us ≤ o.max_storage_bytes))

usage-counts :
    (us : List Upload) (c n c' n' : ℕ)
    → regular_file_usage us c n ≡ some (c', n')
    → (c' ≡ c + count_of us) × (n' ≡ n + bytes_of us)
unfolding regular_file_usage
usage-counts [] c n c' n' e = ground arith
usage-counts (u ∷ us) c n c' n' e =
    ground (arith, usage-counts us c n c' n', usage-counts us (c + 1) (n + u.size) c' n')

added :
    (us : List Upload) (name : Text) (bytes : ℕ)
    → (count_of (us ++ record { name = name; size = bytes; regular = true } ∷ [])
        ≡ suc (count_of us))
      × (bytes_of (us ++ record { name = name; size = bytes; regular = true } ∷ [])
          ≡ bytes_of us + bytes)
added [] name bytes = (refl, omega arith)
added (u ∷ us) name bytes =
    let (a, b) = added us name bytes in (ground (arith, a), ground (arith, b))

check_quota-fits :
    (o : FileStoreOptions) (bytes c n : ℕ)
    → check_quota o bytes c n ≡ none
    → ((o.max_uploads ≡ 0) ⊎ (suc c ≤ o.max_uploads))
      × ((o.max_storage_bytes ≡ 0) ⊎ (n + bytes ≤ o.max_storage_bytes))
unfolding check_quota
check_quota-fits o bytes c n e = ground arith

enforce_file_quota-some :
    (o : FileStoreOptions) (us : List Upload) (bytes c n : ℕ)
    → regular_file_usage us 0 0 ≡ some (c, n)
    → enforce_file_quota o bytes us ≡ check_quota o bytes c n
unfolding enforce_file_quota
enforce_file_quota-some o us bytes c n q = rw (q, enforce_file_quota)

enforce_file_quota-none :
    (o : FileStoreOptions) (us : List Upload) (bytes : ℕ)
    → regular_file_usage us 0 0 ≡ none
    → enforce_file_quota o bytes us ≡ some read_failed
unfolding enforce_file_quota
enforce_file_quota-none o us bytes q = rw (q, enforce_file_quota)

enforce-IsWithin :
    (o : FileStoreOptions) (us : List Upload) (name : Text) (bytes : ℕ)
    → enforce_file_quota o bytes us ≡ none
    → IsWithin o (us ++ record { name = name; size = bytes; regular = true } ∷ [])
enforce-IsWithin o us name bytes e = elim (Option-cases (regular_file_usage us 0 0)) [
  | inl q ↦ let bad = enforce_file_quota-none o us bytes q in cc
  | inr ((c, n), q) ↦
      let (hc, hn) = usage-counts us 0 0 c n q in
      let (ac, an) = added us name bytes in
      let fits =
        check_quota-fits o bytes c n (sym (enforce_file_quota-some o us bytes c n q) ∙ e) in
      ground (arith, hc, hn, ac, an, fits)
]

count-remove_named :
    (name : Text) (us : List Upload) → count_of (remove_named name us) ≤ count_of us
unfolding remove_named
count-remove_named name [] = omega arith
count-remove_named name (u ∷ us) = ground (arith, count-remove_named name us)

bytes-remove_named :
    (name : Text) (us : List Upload) → bytes_of (remove_named name us) ≤ bytes_of us
unfolding remove_named
bytes-remove_named name [] = omega arith
bytes-remove_named name (u ∷ us) = ground (arith, bytes-remove_named name us)

-- A file in place of another one keeps the limits as a further one does.
pub enforce-IsWithin_replaced :
    (o : FileStoreOptions) (us : List Upload) (name : Text) (bytes : ℕ)
    → enforce_file_quota o bytes us ≡ none
    → IsWithin o (remove_named name us ++ record { name = name; size = bytes; regular = true } ∷ [])
enforce-IsWithin_replaced o us name bytes e =
    let (ac, an) = added us name bytes in
    let (rc, rn) = added (remove_named name us) name bytes in
    ground (
      arith,
      ac,
      an,
      rc,
      rn,
      count-remove_named name us,
      bytes-remove_named name us,
      enforce-IsWithin o us name bytes e,
    )

-- An upload is refused, with the store as it was, or it leaves the regular files of the directory, the
-- new one among them, within the limits on their number and on their bytes.
pub save_upload-IsWithin :
    (random : Option Text) (fails : Bool) (bytes : ℕ) (s : FileStore)
    → ((e : StoreError) × (save_upload random fails bytes s ≡ (s, refused e)))
      ⊎ IsWithin s.options (save_upload random fails bytes s).0.uploads
unfolding save_upload
save_upload-IsWithin random fails bytes s =
    elim (Option-cases (enforce_file_quota s.options bytes s.uploads)) [
      | inr (x, q) ↦ rw (q, save_upload) (inl (x, refl))
      | inl q ↦ elim (Option-cases random) [
        | inl r ↦ rw (q, r, save_upload) (inl (read_failed, refl))
        | inr (text, r) ↦
            elim (Bool-cases
              (any (λ (u : Upload). text_eq u.name (text ++ codes ".rdp")) s.uploads || fails)) [
                | inl taken ↦ rw (q, r, taken, save_upload) (inl (write_failed, refl))
                | inr free ↦
                    rw (q, r, free, save_upload)
                      (inr (enforce-IsWithin s.options s.uploads (text ++ codes ".rdp") bytes q))
              ]
      ]
    ]
