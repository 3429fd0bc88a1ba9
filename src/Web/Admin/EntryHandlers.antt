-- ===== src/Web/Admin/EntryHandlers.antt =====
-- The handlers themselves, behind the test of the origin, in cmd/rdpgw/web/admin_handlers.go.
use home_rdp_gateway.Base.{Bool, not, Option, none, some, if◌then◌else◌}
use home_rdp_gateway.Base.Texts.{Text, text_eq, codes}
use home_rdp_gateway.Go.Strings.{is_empty, trim_space, to_lower}
use home_rdp_gateway.Dashboard.File.{StoreError, not_found}
use home_rdp_gateway.Dashboard.Entry.{Entry}
use home_rdp_gateway.Dashboard.Store.{
  FileStore, System, Found, found, missing, list, get, put, delete, remove_upload_file, Saved,
  saved, refused, save_upload,
}
use home_rdp_gateway.Dashboard.Icons.{FileIconStore, ext}
use home_rdp_gateway.Rdp.Parser.{unmarshal}
use home_rdp_gateway.Web.Admin.Entries.{
  Status, bad_request, forbidden, no_such_entry, server_error, unavailable, new_response, Answer,
  refuses, shows, deleted, status_for_put_error, list_entries, IconResult, kept, icon_refused,
  normalize_icon, CreateHostRequest, UpdateRequest, FormFile, Form, Circumstance, changed,
  host_entry, template_entry,
}

-- The answer to what Put returns for the entry.
unfoldable pub after_put : Entry → FileStore × Option StoreError → FileStore × Answer
unfolding new_response status_for_put_error
after_put e (s, none) = (s, shows (new_response e))
after_put e (s, some err) = (s, refuses (status_for_put_error err))

unfoldable pub after_delete : FileStore × Option StoreError → FileStore × Answer
after_delete (s, none) = (s, deleted)
after_delete (s, some err) = (s, refuses server_error)

-- The answer to an entry that Get does not give.
abbrev pub not_loaded : StoreError → Status
not_loaded not_found = no_such_entry
not_loaded _ = server_error

-- The store without the upload, and a refusal.
unfoldable pub withdraw : System → Text → Status → FileStore → FileStore × Answer
unfolding remove_upload_file
withdraw sys path status s =
    (record s { uploads = remove_upload_file sys path s.uploads }, refuses status)

-- What follows Put of an entry with a new template: an error withdraws the upload.
unfoldable pub after_template_put :
    System → Text → Entry → FileStore × Option StoreError → FileStore × Answer
unfolding withdraw new_response status_for_put_error
after_template_put sys path e (s, none) = (s, shows (new_response e))
after_template_put sys path e (s, some err) =
    withdraw sys path (if sys.remove_fails then server_error else status_for_put_error err) s

module _ (is_ip : Text → Bool) (icons : Option FileIconStore) where
  unfoldable pub create_host_from :
      Circumstance → CreateHostRequest → Option Text → IconResult → FileStore → FileStore × Answer
  unfolding after_put put host_entry
  create_host_from c r none icon s = (s, refuses server_error)
  create_host_from c r (some id) (icon_refused status) s = (s, refuses status)
  create_host_from c r (some id) (kept icon) s =
      let e = host_entry id icon r in after_put e (put is_ip c.sys e s)

  -- HandleAdminCreateHostEntry; the body is `none` if it does not decode.
  unfoldable pub create_host :
      Circumstance → Option CreateHostRequest → FileStore → FileStore × Answer
  unfolding create_host_from normalize_icon
  create_host c none s = (s, refuses bad_request)
  create_host c (some r) s = create_host_from c r c.entry_id (normalize_icon icons r.icon) s

  -- From the upload on.
  unfoldable pub put_template :
      Circumstance → Form → Text → Option Text → IconResult → FileStore → FileStore × Answer
  unfolding after_template_put put template_entry withdraw
  put_template c f path none icon s = withdraw c.sys path server_error s
  put_template c f path (some id) (icon_refused status) s = withdraw c.sys path status s
  put_template c f path (some id) (kept icon) s =
      let e = template_entry id icon path f in after_template_put c.sys path e (put is_ip c.sys e s)

  unfoldable pub after_upload : Circumstance → Form → FileStore × Saved → FileStore × Answer
  unfolding put_template status_for_put_error normalize_icon
  after_upload c f (s, refused e) = (s, refuses (status_for_put_error e))
  after_upload c f (s, saved path) =
      put_template c f path c.entry_id (normalize_icon icons f.icon) s

  unfoldable pub checked_template : Circumstance → Form → FormFile → FileStore → FileStore × Answer
  unfolding after_upload save_upload to_lower ext unmarshal
  checked_template c f file s =
      if not (text_eq (to_lower (ext file.filename)) (codes ".rdp"))
      then (s, refuses bad_request)
      else elim file.content [
        | none ↦ (s, refuses bad_request)
        | some content ↦ elim (unmarshal content) [
          | none ↦ (s, refuses bad_request)
          | some settings ↦ after_upload c f (save_upload c.upload_text c.upload_fails file.size s)
        ]
      ]

  -- HandleAdminCreateTemplateEntry; the form is `none` if it does not parse, or is too large.
  unfoldable pub create_template : Circumstance → Option Form → FileStore → FileStore × Answer
  unfolding checked_template
  create_template c none s = (s, refuses bad_request)
  create_template c (some f) s = elim f.template [
    | none ↦ (s, refuses bad_request)
    | some file ↦ checked_template c f file s
  ]

  -- The changes with the icon that the request names, if it names one.
  unfoldable pub update_icon :
      Circumstance → Entry → Option IconResult → FileStore → FileStore × Answer
  unfolding after_put put
  update_icon c e none s = after_put e (put is_ip c.sys e s)
  update_icon c e (some (icon_refused status)) s = (s, refuses status)
  update_icon c e (some (kept icon)) s =
      let e' = record e { icon = icon } in after_put e' (put is_ip c.sys e' s)

  abbrev pub named_icon : Option Text → Option IconResult
  unfolding normalize_icon
  named_icon none = none
  named_icon (some value) = some (normalize_icon icons value)

  unfoldable pub update_found :
      Circumstance → Option UpdateRequest → Found → FileStore → FileStore × Answer
  unfolding update_icon normalize_icon changed
  update_found c body (missing e) s = (s, refuses (not_loaded e))
  update_found c none (found e) s = (s, refuses bad_request)
  update_found c (some r) (found e) s = update_icon c (changed r e) (named_icon r.icon) s

  -- HandleAdminUpdateEntry.
  unfoldable pub update :
      Circumstance → Text → Option UpdateRequest → FileStore → FileStore × Answer
  unfolding update_found get trim_space
  update c id body s =
      if is_empty (trim_space id)
      then (s, refuses bad_request)
      else update_found c body (get id s) s

unfoldable pub delete_found : Circumstance → Text → Found → FileStore → FileStore × Answer
unfolding after_delete delete
delete_found c id (missing e) s = (s, refuses (not_loaded e))
delete_found c id (found e) s = after_delete (delete c.sys id s)

-- HandleAdminDeleteEntry.
unfoldable pub delete_entry : Circumstance → Text → FileStore → FileStore × Answer
unfolding delete_found get trim_space
delete_entry c id s =
    if is_empty (trim_space id) then (s, refuses bad_request) else delete_found c id (get id s) s

-- The requests for the entries.
pub data Call : Type 0 where
  lists_entries : Call
  creates_host : Option CreateHostRequest → Call
  creates_template : Option Form → Call
  updates : Text → Option UpdateRequest → Call
  deletes : Text → Call

-- The tests at the beginning of the handlers that change something.
abbrev pub guarded : Bool → Bool → FileStore × Answer → FileStore → FileStore × Answer
guarded allowed has_store result s =
    if not allowed
    then (s, refuses forbidden)
    else if has_store
    then result
    else (s, refuses unavailable)

-- The handlers: `allowed` is what sameOriginAdminRequest says, `has_store` whether there is a store.
unfoldable pub handle :
    (Text → Bool)
    → Option FileIconStore
    → Bool
    → Bool
    → Circumstance
    → Call
    → FileStore
    → FileStore × Answer
unfolding list_entries list create_host create_template update delete_entry
handle is_ip icons allowed has_store c lists_entries s =
    if has_store then (s, list_entries (list s)) else (s, refuses unavailable)
handle is_ip icons allowed has_store c (creates_host body) s =
    guarded allowed has_store (create_host is_ip icons c body s) s
handle is_ip icons allowed has_store c (creates_template form) s =
    guarded allowed has_store (create_template is_ip icons c form s) s
handle is_ip icons allowed has_store c (updates id body) s =
    guarded allowed has_store (update is_ip icons c id body s) s
handle is_ip icons allowed has_store c (deletes id) s =
    guarded allowed has_store (delete_entry c id s) s
