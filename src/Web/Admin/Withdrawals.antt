-- ===== src/Web/Admin/Withdrawals.antt =====
-- An upload that is withdrawn leaves the store as it was.
use home_rdp_gateway.Base.{
  ℕ, ◌≡◌, ◌⊎◌, refl, ap, ◌∙◌, Bool, true, false, ◌||◌, ◌==◌, Bool-cases, inl, inr, Option, none,
  some, Option-cases, List, [], ◌∷◌, ◌++◌, any, if◌then◌else◌, arith,
}
use home_rdp_gateway.Base.Texts.{Text, text_eq, text_eq_refl, codes}
use home_rdp_gateway.Go.Strings.{is_empty}
use home_rdp_gateway.Dashboard.File.{StoreError, read_failed, write_failed}
use home_rdp_gateway.Dashboard.Entry.{Entry}
use home_rdp_gateway.Dashboard.Store.{
  FileStore, System, Upload, base, strip_slashes, after_slash, remove_named, remove_upload_file,
  saved, refused, save_upload, enforce_file_quota,
}
use home_rdp_gateway.Web.Admin.Entries.{Status, server_error, Answer, refuses, status_for_put_error}
use home_rdp_gateway.Web.Admin.EntryHandlers.{after_put, after_delete, withdraw, after_template_put}

unfoldable pub has_slash : Text → Bool
has_slash = any (λ c. c == b'/')

strip_slashes-plain : (s : Text) → has_slash s ≡ false → strip_slashes s ≡ s
unfolding strip_slashes has_slash
strip_slashes-plain [] h = refl
strip_slashes-plain (c ∷ s) h = ground (arith, strip_slashes-plain s)

after_slash-plain : (s : Text) → has_slash s ≡ false → after_slash s ≡ s
unfolding after_slash has_slash
after_slash-plain [] h = refl
after_slash-plain (c ∷ s) h = rw h refl

pub base-plain : (s : Text) → is_empty s ≡ false → has_slash s ≡ false → base s ≡ s
unfolding base
base-plain [] e h = cc
base-plain (c ∷ s) e h =
    let last : after_slash (strip_slashes (c ∷ s)) ≡ c ∷ s =
      ap after_slash (strip_slashes-plain (c ∷ s) h) ∙ after_slash-plain (c ∷ s) h in
    rw (last, base) refl

remove_named-new :
    (u : Upload) (us : List Upload)
    → any (λ (v : Upload). text_eq v.name u.name) us ≡ false
    → remove_named u.name (us ++ u ∷ []) ≡ us
unfolding remove_named
remove_named-new u [] h = let same = text_eq_refl u.name in rw same refl
remove_named-new u (v ∷ us) h = ground (arith, remove_named-new u us)

-- What a handler leaves, if it refuses.
abbrev pub Keeps : FileStore → FileStore × Answer → Type 0
Keeps s r = (status : Status) → r.1 ≡ refuses status → r.0 ≡ s

pub after_put-Keeps :
    (e : Entry) (s : FileStore) (m : FileStore × Option StoreError)
    → (m.1 ≡ none) ⊎ (m.0 ≡ s)
    → Keeps s (after_put e m)
unfolding after_put
after_put-Keeps e s (t, none) h status r = cc
after_put-Keeps e s (t, some err) (inl q) status r = let bad : some err ≡ none = q in cc
after_put-Keeps e s (t, some err) (inr q) status r = q

pub after_delete-Keeps :
    (s : FileStore) (m : FileStore × Option StoreError)
    → (m.1 ≡ none) ⊎ (m.0 ≡ s)
    → Keeps s (after_delete m)
unfolding after_delete
after_delete-Keeps s (t, none) h status r = cc
after_delete-Keeps s (t, some err) (inl q) status r = let bad : some err ≡ none = q in cc
after_delete-Keeps s (t, some err) (inr q) status r = q

-- The store with one more upload.
abbrev pub with_upload : Upload → FileStore → FileStore
with_upload u s = record s { uploads = s.uploads ++ u ∷ [] }

module _ (sys : System) (u : Upload) (s : FileStore) (removes : sys.remove_fails ≡ false)
    (plain : base u.name ≡ u.name)
    (new : any (λ (v : Upload). text_eq v.name u.name) s.uploads ≡ false) where
  pub withdraw-with_upload :
      (status : Status) → (withdraw sys u.name status (with_upload u s)).0 ≡ s
  unfolding withdraw remove_upload_file
  withdraw-with_upload status =
      rw removes
        (rw plain (ap (λ us. record s { uploads = us }) (remove_named-new u s.uploads new)))

  pub after_template_put-Keeps :
      (e : Entry) (m : FileStore × Option StoreError)
      → (m.1 ≡ none) ⊎ (m.0 ≡ with_upload u s)
      → Keeps s (after_template_put sys u.name e m)
  unfolding after_template_put
  after_template_put-Keeps e (t, none) h status r = cc
  after_template_put-Keeps e (t, some err) (inl q) status r = let bad : some err ≡ none = q in cc
  after_template_put-Keeps e (t, some err) (inr q) status r =
      let answered = if sys.remove_fails then server_error else status_for_put_error err in
      ap (λ v. (withdraw sys u.name answered v).0) q ∙ withdraw-with_upload answered

-- What SaveUpload leaves: nothing new, or an upload of a name that was not there.
pub save_upload-new :
    (random : Option Text) (fails : Bool) (bytes : ℕ) (s : FileStore)
    → ((e : StoreError) × (save_upload random fails bytes s ≡ (s, refused e)))
      ⊎ ((text : Text) × (u : Upload) × (random ≡ some text)
          × (u.name ≡ text ++ codes ".rdp")
          × (any (λ (v : Upload). text_eq v.name u.name) s.uploads ≡ false)
          × (save_upload random fails bytes s ≡ (with_upload u s, saved u.name)))
unfolding save_upload
save_upload-new random fails bytes s =
    elim (Option-cases (enforce_file_quota s.options bytes s.uploads)) [
      | inr (e, q) ↦ inl (e, rw (q, save_upload) refl)
      | inl q ↦ elim (Option-cases random) [
        | inl n ↦ inl (read_failed, rw (q, n, save_upload) refl)
        | inr (text, t) ↦
            let u : Upload = record { name = text ++ codes ".rdp"; size = bytes; regular = true } in
            elim (Bool-cases (any (λ (v : Upload). text_eq v.name u.name) s.uploads || fails)) [
              | inl taken ↦ inl (write_failed, rw (q, t, taken, save_upload) refl)
              | inr new ↦ inr (text, u, t, refl, ground arith, rw (q, t, new, save_upload) refl)
            ]
      ]
    ]
