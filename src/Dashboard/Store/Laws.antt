-- ===== src/Dashboard/Store/Laws.antt =====
-- What the store of entries promises, and what it does to the uploaded templates.
use home_rdp_gateway.Base.{
  ℕ, ◌≡◌, ◌≢◌, ◌⊎◌, refl, ap, ◌∙◌, inl, inr, Bool, false, Bool-cases, Option-cases, Option, none,
  some, List, [], ◌∷◌, any, map, arith, if◌then◌else◌, ◌==◌,
}
use home_rdp_gateway.Base.Texts.{Text, text_eq}
use home_rdp_gateway.Base.Keyed.{
  find, remove, find-replace_self, find-replace_other, find-append_self, find-append_other,
}
use home_rdp_gateway.Go.Strings.{is_empty}
use home_rdp_gateway.Dashboard.File.{StoreError, not_found, holds, ok, read_json, write_json}
use home_rdp_gateway.Dashboard.Entry.{Entry, validate}
use home_rdp_gateway.Dashboard.EntryIcon.{normalize_entry_icon}
use home_rdp_gateway.Dashboard.Store.{
  Upload, FileStore, System, id_of, normalized, base, has_upload, remove_named, remove_upload_file,
  read_locked, Found, found, missing, get, stamped, upsert, stale_path, commit, check_template, put,
  delete,
}

find-normalized :
    (id : Text) (es : List Entry)
    → find id_of id (map normalized es)
      ≡ elim (find id_of id es) [ none ↦ none | some e ↦ some (normalized e) ]
unfolding find
find-normalized id [] = refl
find-normalized id (e ∷ es) = elim (Bool-cases (text_eq e.id id)) [
  | inl same ↦ rw (same, find)
  | inr other ↦ rw (other, find) (find-normalized id es)
]

-- What Get finds, with the icon normalized once more.
abbrev pub again : Option Entry → Found
again none = missing not_found
again (some e) = found (normalized e)

get-written :
    (id : Text) (es : List Entry) (s : FileStore) (us : List Upload)
    → get id (record s { metadata = holds es; uploads = us }) ≡ again (find id_of id es)
unfolding get read_locked read_json
get-written id es s us = elim (Option-cases (find id_of id es)) [
  | inl e ↦ rw (find-normalized id es, e, get)
  | inr (x, e) ↦ rw (find-normalized id es, e, get)
]

find-upsert_same :
    (now : ℕ) (e : Entry) (es : List Entry)
    → find id_of e.id (upsert now e es) ≡ some (stamped now e (find id_of e.id es))
unfolding upsert
find-upsert_same now e es = elim (Option-cases (find id_of e.id es)) [
  | inl q ↦ rw (q, upsert) (find-append_self id_of e.id (stamped now e none) es refl q)
  | inr (old, q) ↦
      rw (q, upsert) (find-replace_self id_of e.id old (stamped now e (some old)) es refl q)
]

find-upsert_else :
    (now : ℕ) (e : Entry) (es : List Entry) (id : Text)
    → id ≢ e.id
    → find id_of id (upsert now e es) ≡ find id_of id es
unfolding upsert
find-upsert_else now e es id n = elim (Option-cases (find id_of e.id es)) [
  | inl q ↦ rw (q, upsert) (find-append_other id_of id (stamped now e none) es n)
  | inr (old, q) ↦
      rw (q, upsert) (find-replace_other id_of e.id id (stamped now e (some old)) es refl n)
]

put-commit :
    (is_ip : Text → Bool) (sys : System) (e : Entry) (s : FileStore) (es : List Entry)
    → validate is_ip (normalized e) ≡ none
    → check_template is_ip sys (normalized e) s.uploads ≡ none
    → read_locked s.metadata ≡ ok es
    → put is_ip sys e s
      ≡ commit sys
          (stale_path (normalized e) (find id_of e.id es))
          (upsert sys.now (normalized e) es)
          s
unfolding put
put-commit is_ip sys e s es valid there h = rw (valid, there, h, put)

commit-written :
    (sys : System) (stale : Text) (es : List Entry) (s : FileStore)
    → sys.fault ≡ none
    → (us : List Upload) × (commit sys stale es s
        ≡ (record s { metadata = holds es; uploads = us }, none))
unfolding commit write_json
commit-written sys stale es s good = rw good (_, refl)

-- When the entry was created that is stored for `e` at the time `now`, where there was the entry `old` of its id.
abbrev pub creation : ℕ → Entry → Option Entry → ℕ
creation now e (some old) = old.created_at
creation now e none = if e.created_at == 0 then now else e.created_at

-- The entry as it is read again.
abbrev pub stored : ℕ → Entry → Option Entry → Entry
stored now e old = record e {
  icon = normalize_entry_icon (normalize_entry_icon e.icon);
  created_at = creation now e old;
  updated_at = now;
}

stamped-stored :
    (now : ℕ) (e : Entry) (old : Option Entry)
    → normalized (stamped now (normalized e) old) ≡ stored now e old
stamped-stored now e none = refl
stamped-stored now e (some old) = refl

-- A valid entry, whose template is there, that is put where the metadata can be read and written is
-- found under its id, updated now, and created when the entry was that it replaces, else when it says, or now if
-- it says nothing; every other entry is found as it was. Icons are normalized when they are put and when they are read.
pub put-get_entry :
    (is_ip : Text → Bool) (sys : System) (e : Entry) (s : FileStore) (es : List Entry)
    (other : Text)
    → sys.fault ≡ none
    → validate is_ip (normalized e) ≡ none
    → check_template is_ip sys (normalized e) s.uploads ≡ none
    → read_locked s.metadata ≡ ok es
    → other ≢ e.id
    → ((put is_ip sys e s).1 ≡ none)
      × (get e.id (put is_ip sys e s).0 ≡ found (stored sys.now e (find id_of e.id es)))
      × (get other (put is_ip sys e s).0 ≡ again (find id_of other es))
put-get_entry is_ip sys e s es other good valid there h n =
    let e' = normalized e in
    let (us, w) =
      commit-written sys (stale_path e' (find id_of e.id es)) (upsert sys.now e' es) s good in
    rw (put-commit is_ip sys e s es valid there h ∙ w) (
      refl,
      get-written e.id (upsert sys.now e' es) s us
          ∙ ap again (find-upsert_same sys.now e' es)
          ∙ ap found (stamped-stored sys.now e (find id_of e.id es)),
      get-written other (upsert sys.now e' es) s us
          ∙ ap again (find-upsert_else sys.now e' es other n),
    )

-- A call of Put or Delete that returns an error leaves entries and templates as they were.
pub entry_error_unchanged :
    (is_ip : Text → Bool) (sys : System) (e : Entry) (id : Text) (s : FileStore)
    → (((put is_ip sys e s).1 ≡ none) ⊎ ((put is_ip sys e s).0 ≡ s))
      × (((delete sys id s).1 ≡ none) ⊎ ((delete sys id s).0 ≡ s))
unfolding put delete commit write_json
entry_error_unchanged is_ip sys e id s = (ground arith, ground arith)

named : Text → List Upload → Bool
named name us = any (λ (u : Upload). text_eq u.name name) us

named-remove_named : (name : Text) (us : List Upload) → named name (remove_named name us) ≡ false
unfolding named remove_named
named-remove_named name [] = refl
named-remove_named name (u ∷ us) = elim (Bool-cases (text_eq u.name name)) [
  | inl same ↦ rw (same, remove_named) (named-remove_named name us)
  | inr other ↦ rw (other, remove_named, other) (named-remove_named name us)
]

delete-commit :
    (sys : System) (id : Text) (s : FileStore) (es : List Entry) (e : Entry)
    → read_locked s.metadata ≡ ok es
    → find id_of id es ≡ some e
    → delete sys id s ≡ commit sys e.uploaded_template_path (remove id_of id es) s
unfolding delete
delete-commit sys id s es e h q = rw (h, q, delete)

commit-uploads :
    (sys : System) (stale : Text) (es : List Entry) (s : FileStore)
    → sys.fault ≡ none
    → sys.remove_fails ≡ false
    → is_empty stale ≡ false
    → (commit sys stale es s).0.uploads ≡ remove_named (base stale) s.uploads
unfolding commit write_json remove_upload_file
commit-uploads sys stale es s good removes some_path = rw (good, some_path, removes)

-- Deleting an entry removes the template that it names, whatever other entries name it too: no path
-- with the same last element has its file afterwards.
pub delete-has_upload :
    (sys : System) (id path : Text) (s : FileStore) (es : List Entry) (e : Entry)
    → sys.fault ≡ none
    → sys.remove_fails ≡ false
    → read_locked s.metadata ≡ ok es
    → find id_of id es ≡ some e
    → is_empty e.uploaded_template_path ≡ false
    → base path ≡ base e.uploaded_template_path
    → has_upload path (delete sys id s).0.uploads ≡ false
unfolding named
delete-has_upload sys id path s es e good removes h q named_path same =
    rw
      (
        delete-commit sys id s es e h q,
        commit-uploads sys e.uploaded_template_path (remove id_of id es) s good removes named_path,
        same,
      )
      (named-remove_named (base e.uploaded_template_path) s.uploads)

stale_path-old :
    (e old : Entry)
    → text_eq old.uploaded_template_path e.uploaded_template_path ≡ false
    → stale_path e (some old) ≡ old.uploaded_template_path
stale_path-old e old differs = rw differs refl

-- A valid entry, whose template is there, that replaces one whose path is written otherwise but has the
-- same last element: Put succeeds, and the template that the stored entry names is gone.
pub put-has_upload :
    (is_ip : Text → Bool) (sys : System) (e old : Entry) (s : FileStore) (es : List Entry)
    → sys.fault ≡ none
    → sys.remove_fails ≡ false
    → validate is_ip (normalized e) ≡ none
    → check_template is_ip sys (normalized e) s.uploads ≡ none
    → read_locked s.metadata ≡ ok es
    → find id_of e.id es ≡ some old
    → text_eq old.uploaded_template_path e.uploaded_template_path ≡ false
    → is_empty old.uploaded_template_path ≡ false
    → base e.uploaded_template_path ≡ base old.uploaded_template_path
    → ((put is_ip sys e s).1 ≡ none)
      × (has_upload e.uploaded_template_path (put is_ip sys e s).0.uploads ≡ false)
unfolding named
put-has_upload is_ip sys e old s es good removes valid there h q differs named_path same =
    let put_is = put-commit is_ip sys e s es valid there h in
    let path = old.uploaded_template_path in
    let stale : stale_path (normalized e) (find id_of e.id es) ≡ path =
      ap (stale_path (normalized e)) q ∙ stale_path-old (normalized e) old differs in
    let entries = upsert sys.now (normalized e) es in
    let (us, w) = commit-written sys path entries s good in
    (
      rw (put_is, stale) (ap (λ (r : FileStore × Option StoreError). r.1) w),
      rw (put_is, stale, commit-uploads sys path entries s good removes named_path, same)
          (named-remove_named (base path) s.uploads),
    )
