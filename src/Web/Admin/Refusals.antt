-- ===== src/Web/Admin/Refusals.antt =====
-- A request for the entries that is refused changes nothing.
use home_rdp_gateway.Base.{
  ℕ, ◌≡◌, ◌⊎◌, refl, sym, Bool, true, false, not, Bool-cases, inl, inr, Option, none, some,
  Option-cases, [], ◌∷◌, ◌++◌, any, if◌then◌else◌,
}
use mathlib.Core.Path.{subst}
use home_rdp_gateway.Base.Texts.{Text, text_eq, codes}
use home_rdp_gateway.Go.Strings.{is_empty, trim_space, to_lower}
use home_rdp_gateway.Dashboard.Entry.{Entry}
use home_rdp_gateway.Dashboard.Store.{
  FileStore, Upload, Found, found, missing, get, put, delete, base, save_upload,
}
use home_rdp_gateway.Dashboard.Store.Laws.{entry_error_unchanged}
use home_rdp_gateway.Dashboard.Icons.{FileIconStore, ext}
use home_rdp_gateway.Rdp.Parser.{unmarshal}
use home_rdp_gateway.Web.Admin.Entries.{
  Status, bad_request, server_error, Answer, refuses, IconResult, kept, icon_refused,
  normalize_icon, UpdateRequest, CreateHostRequest, Form, FormFile, Circumstance, changed,
  host_entry, template_entry, status_for_put_error,
}
use home_rdp_gateway.Web.Admin.EntryHandlers.{
  create_host_from, create_host, put_template, after_upload, checked_template, create_template,
  update_icon, named_icon, update_found, update, delete_found, delete_entry, Call, lists_entries,
  creates_host, creates_template, updates, deletes, guarded, handle,
}
use home_rdp_gateway.Web.Admin.Withdrawals.{
  has_slash, base-plain, Keeps, after_put-Keeps, after_delete-Keeps, with_upload,
  withdraw-with_upload, after_template_put-Keeps, save_upload-new,
}

-- A refusal that leaves the store keeps it.
kept_as_is : (s : FileStore) (a : Answer) → Keeps s (s, a)
kept_as_is s a status r = refl

-- A request whose first test refuses it keeps the store if the rest of it does.
if-Keeps :
    (b : Bool) (s : FileStore) (a : Answer) (r : FileStore × Answer)
    → Keeps s r
    → Keeps s (if b then (s, a) else r)
if-Keeps true s a r k = kept_as_is s a
if-Keeps false s a r k = k

-- The upload has a name of its own, and can be removed.
abbrev pub IsTidy : Circumstance → Type 0
IsTidy c =
    (c.sys.remove_fails ≡ false)
    × ((text : Text) → c.upload_text ≡ some text → has_slash (text ++ codes ".rdp") ≡ false)

suffix-full : (s : Text) → is_empty (s ++ codes ".rdp") ≡ false
suffix-full [] = refl
suffix-full (c ∷ s) = refl

module _ (is_ip : Text → Bool) (icons : Option FileIconStore) (c : Circumstance) where
  put-kept :
      (e : Entry) (s : FileStore) → ((put is_ip c.sys e s).1 ≡ none) ⊎ ((put is_ip c.sys e s).0 ≡ s)
  put-kept e s = (entry_error_unchanged is_ip c.sys e [] s).0

  create_host_from-Keeps :
      (r : CreateHostRequest) (id : Option Text) (icon : IconResult) (s : FileStore)
      → Keeps s (create_host_from is_ip icons c r id icon s)
  unfolding create_host_from
  create_host_from-Keeps r none icon s = kept_as_is s (refuses server_error)
  create_host_from-Keeps r (some id) (icon_refused status) s = kept_as_is s (refuses status)
  create_host_from-Keeps r (some id) (kept icon) s =
      let e = host_entry id icon r in after_put-Keeps e s (put is_ip c.sys e s) (put-kept e s)

  create_host-Keeps :
      (body : Option CreateHostRequest) (s : FileStore) → Keeps s (create_host is_ip icons c body s)
  unfolding create_host
  create_host-Keeps none s = kept_as_is s (refuses bad_request)
  create_host-Keeps (some r) s = create_host_from-Keeps r c.entry_id (normalize_icon icons r.icon) s

  update_icon-Keeps :
      (e : Entry) (o : Option IconResult) (s : FileStore)
      → Keeps s (update_icon is_ip icons c e o s)
  unfolding update_icon
  update_icon-Keeps e none s = after_put-Keeps e s (put is_ip c.sys e s) (put-kept e s)
  update_icon-Keeps e (some (icon_refused status)) s = kept_as_is s (refuses status)
  update_icon-Keeps e (some (kept icon)) s =
      let e' : Entry = record e { icon = icon } in
      after_put-Keeps e' s (put is_ip c.sys e' s) (put-kept e' s)

  update_found-Keeps :
      (body : Option UpdateRequest) (f : Found) (s : FileStore)
      → Keeps s (update_found is_ip icons c body f s)
  unfolding update_found
  update_found-Keeps body (missing e) s = (λ status r. refl)
  update_found-Keeps none (found e) s = kept_as_is s (refuses bad_request)
  update_found-Keeps (some r) (found e) s =
      update_icon-Keeps (changed r e) (named_icon is_ip icons r.icon) s

  update-Keeps :
      (id : Text) (body : Option UpdateRequest) (s : FileStore)
      → Keeps s (update is_ip icons c id body s)
  unfolding update
  update-Keeps id body s =
      if-Keeps (is_empty (trim_space id)) s (refuses bad_request)
        (update_found is_ip icons c body (get id s) s) (update_found-Keeps body (get id s) s)

  delete_found-Keeps : (id : Text) (f : Found) (s : FileStore) → Keeps s (delete_found c id f s)
  unfolding delete_found
  delete_found-Keeps id (missing e) s = (λ status r. refl)
  delete_found-Keeps id (found e) s =
      after_delete-Keeps s (delete c.sys id s) ((entry_error_unchanged is_ip c.sys e id s).1)

  delete_entry-Keeps : (id : Text) (s : FileStore) → Keeps s (delete_entry c id s)
  unfolding delete_entry
  delete_entry-Keeps id s =
      if-Keeps (is_empty (trim_space id)) s (refuses bad_request) (delete_found c id (get id s) s)
        (delete_found-Keeps id (get id s) s)

  put_template-Keeps :
      (f : Form) (u : Upload) (id : Option Text) (icon : IconResult) (s : FileStore)
      → c.sys.remove_fails ≡ false
      → base u.name ≡ u.name
      → any (λ (v : Upload). text_eq v.name u.name) s.uploads ≡ false
      → Keeps s (put_template is_ip icons c f u.name id icon (with_upload u s))
  unfolding put_template
  put_template-Keeps f u none icon s r p n status h =
      withdraw-with_upload c.sys u s r p n server_error
  put_template-Keeps f u (some id) (icon_refused st) s r p n status h =
      withdraw-with_upload c.sys u s r p n st
  put_template-Keeps f u (some id) (kept icon) s r p n status h =
      let e = template_entry id icon u.name f in
      let t = with_upload u s in
      after_template_put-Keeps c.sys u s r p n e (put is_ip c.sys e t) (put-kept e t) status h

  after_upload-Keeps :
      (f : Form) (bytes : ℕ) (s : FileStore)
      → IsTidy c
      → Keeps s (after_upload is_ip icons c f (save_upload c.upload_text c.upload_fails bytes s))
  unfolding after_upload
  after_upload-Keeps f bytes s (removes, plain) =
      elim (save_upload-new c.upload_text c.upload_fails bytes s) [
        | inl (e, q) ↦ rw q (kept_as_is s (refuses (status_for_put_error e)))
        | inr (text, u, t, name, new, q) ↦
            let own : base u.name ≡ u.name =
              subst (λ n. base n ≡ n) (sym name)
                (base-plain (text ++ codes ".rdp") (suffix-full text) (plain text t)) in
            rw q (put_template-Keeps f u c.entry_id (normalize_icon icons f.icon) s removes own new)
      ]

  checked_template-Keeps :
      (f : Form) (file : FormFile) (s : FileStore)
      → IsTidy c
      → Keeps s (checked_template is_ip icons c f file s)
  unfolding checked_template
  checked_template-Keeps f file s tidy =
      elim (Bool-cases (not (text_eq (to_lower (ext file.filename)) (codes ".rdp")))) [
        | inl e ↦ rw e (kept_as_is s (refuses bad_request))
        | inr e ↦ elim (Option-cases file.content) [
          | inl n ↦ rw e (rw n (kept_as_is s (refuses bad_request)))
          | inr (content, n) ↦ elim (Option-cases (unmarshal content)) [
            | inl m ↦ rw e (rw n (rw m (kept_as_is s (refuses bad_request))))
            | inr (settings, m) ↦ rw e (rw n (rw m (after_upload-Keeps f file.size s tidy)))
          ]
        ]
      ]

  create_template-Keeps :
      (form : Option Form) (s : FileStore)
      → IsTidy c
      → Keeps s (create_template is_ip icons c form s)
  unfolding create_template
  create_template-Keeps none s tidy = kept_as_is s (refuses bad_request)
  create_template-Keeps (some f) s tidy = elim (Option-cases f.template) [
    | inl n ↦ rw n (kept_as_is s (refuses bad_request))
    | inr (file, n) ↦ rw n (checked_template-Keeps f file s tidy)
  ]

guarded-Keeps :
    (allowed has_store : Bool) (r : FileStore × Answer) (s : FileStore)
    → Keeps s r
    → Keeps s (guarded allowed has_store r s)
guarded-Keeps false has_store r s k = kept_as_is s (refuses Status.forbidden)
guarded-Keeps true false r s k = kept_as_is s (refuses Status.unavailable)
guarded-Keeps true true r s k = k

-- A request for the entries that is refused, for whatever reason, leaves the entries and the templates as they
-- were: a template that it uploaded is removed again. This holds where the random name of the upload has no slash and a
-- file can be removed.
pub handle-refused :
    (is_ip : Text → Bool) (icons : Option FileIconStore) (allowed has_store : Bool)
    (c : Circumstance) (call : Call) (s : FileStore) (status : Status)
    → IsTidy c
    → (handle is_ip icons allowed has_store c call s).1 ≡ refuses status
    → (handle is_ip icons allowed has_store c call s).0 ≡ s
unfolding handle
handle-refused is_ip icons allowed true c lists_entries s status tidy h = refl
handle-refused is_ip icons allowed false c lists_entries s status tidy h = refl
handle-refused is_ip icons allowed has_store c (creates_host body) s status tidy h =
    guarded-Keeps allowed has_store (create_host is_ip icons c body s) s
      (create_host-Keeps is_ip icons c body s) status h
handle-refused is_ip icons allowed has_store c (creates_template form) s status tidy h =
    guarded-Keeps allowed has_store (create_template is_ip icons c form s) s
      (create_template-Keeps is_ip icons c form s tidy) status h
handle-refused is_ip icons allowed has_store c (updates id body) s status tidy h =
    guarded-Keeps allowed has_store (update is_ip icons c id body s) s
      (update-Keeps is_ip icons c id body s) status h
handle-refused is_ip icons allowed has_store c (deletes id) s status tidy h =
    guarded-Keeps allowed has_store (delete_entry c id s) s (delete_entry-Keeps is_ip icons c id s)
      status h
