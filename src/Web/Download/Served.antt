-- ===== src/Web/Download/Served.antt =====
-- What a file that is served says, and for whom.
use home_rdp_gateway.Base.{
  ◌≡◌, refl, map, ◌∙◌, Bool, true, false, not, Bool-cases, inl, inr, Option, none, some, List, [],
  ◌∷◌, if◌then◌else◌,
}
use home_rdp_gateway.Base.Texts.{Text, codes}
use home_rdp_gateway.Base.Options.{chain-some}
use home_rdp_gateway.Go.Strings.{is_empty}
use home_rdp_gateway.Identity.User.{User, groups}
use home_rdp_gateway.Dashboard.File.{
  not_found, validation, stat_failed, read_failed, decode_failed, write_failed,
}
use home_rdp_gateway.Dashboard.Entry.Laws.{IsFor, is_visible_iff}
use home_rdp_gateway.Dashboard.Entry.{
  Entry, group_names, is_visible, visible_among, visible_entries,
}
use home_rdp_gateway.Dashboard.Store.{FileStore, Found, found, missing, get}
use home_rdp_gateway.Rdp.Settings.{rdp_fields}
use home_rdp_gateway.Rdp.Written.{field_of}
use home_rdp_gateway.Rdp.Builder.{text, Builder, to_string}
use home_rdp_gateway.Web.Download.{
  Handler, build_entry_builder, split_user, render_username, with_user_token, finished, signed,
  build_file, Answer, serves, serve, is_one, download_found, handle_entry_download, file_name,
}
use home_rdp_gateway.Web.Download.Settings.{AllAre, finished-AllAre, finished-fields, GivesFields}
use home_rdp_gateway.Web.Download.Target.{IsHostFor, build_entry_builder-IsHostFor}

-- A file for the entry: it is for a host of the entry, with a token that was generated for the user and this host, and its
-- settings have all the fields and name the host, the token and the gateway.
abbrev pub IsFileOf : Handler → User → Entry → Text → Type 0
IsFileOf h u e content =
    (host : Text) × (generate : Text → Text → Option Text) × (token : Text) × (file : Builder)
    × (raw : Text) × IsHostFor h u e host
    × (h.paa_token_generator ≡ some generate)
    × (generate (split_user h.opts.split_user_domain u.user_name).0 host ≡ some token)
    × (to_string file ≡ some raw)
    × (signed h.signer raw ≡ some content)
    × (map field_of file.settings ≡ rdp_fields)
    × AllAre (codes "FullAddress") (text host) file.settings
    × AllAre (codes "GatewayAccessToken") (text token) file.settings
    × AllAre (codes "GatewayHostname") (text h.gateway_host) file.settings

build_file-some :
    (h : Handler) (u : User) (e : Entry) (content : Text)
    → GivesFields h.read_file
    → GivesFields h.read_upload
    → build_file h u e ≡ some content
    → IsFileOf h u e content
unfolding build_file
build_file-some h u e content files uploads k =
    let user = (split_user h.opts.split_user_domain u.user_name).0 in
    let domain = (split_user h.opts.split_user_domain u.user_name).1 in
    let ((b, host), e1, k1) = chain-some (build_entry_builder h u e) _ content k in
    let (render, e2, k2) =
      chain-some (render_username h.opts.username_template user) _ content k1 in
    let (generate, e3, k3) = chain-some h.paa_token_generator _ content k2 in
    let (token, e4, k4) = chain-some (generate user host) _ content k3 in
    let (name, e5, k5) = chain-some (with_user_token h user render) _ content k4 in
    let (raw, e6, k6) = chain-some (to_string (finished h name domain host token b)) _ content k5 in
    let (fields, for) = build_entry_builder-IsHostFor h u e b host files uploads e1 in
    (
      host,
      generate,
      token,
      finished h name domain host token b,
      raw,
      for,
      e3,
      e4,
      e6,
      k6,
      finished-fields h name domain host token b ∙ fields,
      finished-AllAre h name domain host token b (codes "FullAddress") (text host) refl refl,
      finished-AllAre h name domain host token b (codes "GatewayAccessToken") (text token) refl
          refl,
      finished-AllAre h name domain host token b (codes "GatewayHostname") (text h.gateway_host)
          refl refl,
    )

serve-serves :
    (id : Text) (o : Option Text) (name content : Text)
    → serve id o ≡ serves name content
    → (o ≡ some content) × (file_name id ≡ name)
unfolding serve
serve-serves id none name content h = cc
serve-serves id (some c) name content h = (cc, cc)

visible-IsFor :
    (gs : List Text) (e : Entry) → is_one (visible_entries (e ∷ []) gs) ≡ true → IsFor gs e
unfolding visible_entries visible_among
visible-IsFor gs e h = elim (Bool-cases (is_visible (group_names gs) e)) [
  | inl v ↦ (is_visible_iff gs e).0 v
  | inr v ↦ let bad : false ≡ true = rw (v, visible_entries, visible_among) at h in cc
]

download_found-serves :
    (h : Handler) (u : User) (f : Found) (name content : Text)
    → GivesFields h.read_file
    → GivesFields h.read_upload
    → download_found h u f ≡ serves name content
    → (e : Entry) × (f ≡ found e)
      × IsFor (groups u) e
      × IsFileOf h u e content
      × (file_name e.id ≡ name)
unfolding download_found
download_found-serves h u (missing not_found) name content files uploads k =
    let bad : Answer.no_such_entry ≡ serves name content = k in cc
download_found-serves h u (missing validation) name content files uploads k =
    let bad : Answer.server_error ≡ serves name content = k in cc
download_found-serves h u (missing stat_failed) name content files uploads k =
    let bad : Answer.server_error ≡ serves name content = k in cc
download_found-serves h u (missing read_failed) name content files uploads k =
    let bad : Answer.server_error ≡ serves name content = k in cc
download_found-serves h u (missing decode_failed) name content files uploads k =
    let bad : Answer.server_error ≡ serves name content = k in cc
download_found-serves h u (missing write_failed) name content files uploads k =
    let bad : Answer.server_error ≡ serves name content = k in cc
download_found-serves h u (found e) name content files uploads k =
    elim (Bool-cases (is_one (visible_entries (e ∷ []) (groups u)))) [
      | inl v ↦
          let (o, n) =
            serve-serves e.id (build_file h u e) name content (rw (v, download_found) at k) in
          (e, refl, visible-IsFor (groups u) e v, build_file-some h u e content files uploads o, n)
      | inr v ↦
          let bad : Answer.no_such_entry ≡ serves name content = rw (v, download_found) at k in cc
    ]

admitted :
    (authenticated empty : Bool) (rest : Answer) (name content : Text)
    → (if not authenticated
        then Answer.unauthorized
        else if empty
        then Answer.bad_request
        else rest)
      ≡ serves name content
    → (authenticated ≡ true) × (rest ≡ serves name content)
admitted false empty rest name content k =
    let bad : Answer.unauthorized ≡ serves name content = k in cc
admitted true true rest name content k =
    let bad : Answer.bad_request ≡ serves name content = k in cc
admitted true false rest name content k = (refl, k)

-- Where the readers of files give builders with all the fields of the settings: when a file is served, the request has
-- an identity that is authenticated, and the entry that it names is in the store, enabled
-- and for a group of the user. The file is for the host that the entry gives for this user: the host of a host entry,
-- for a template the host that it is to have or else the address in it, with the user's name put in, valid, and resolved;
-- with a token that the
-- generator made for the user and this very host; its settings have all the fields, and name the host as the full address, this token as the
-- gateway's access token and the gateway as its host name. The file has the name of the entry.
pub handle_entry_download-serves :
    (h : Handler) (store : Option FileStore) (id : Option User) (entry_id name content : Text)
    → GivesFields h.read_file
    → GivesFields h.read_upload
    → handle_entry_download h store id entry_id ≡ serves name content
    → (u : User) × (s : FileStore) × (e : Entry) × (id ≡ some u)
      × (u.authenticated ≡ true)
      × (store ≡ some s)
      × (get entry_id s ≡ found e)
      × IsFor (groups u) e
      × IsFileOf h u e content
      × (file_name e.id ≡ name)
unfolding handle_entry_download
handle_entry_download-serves h store none entry_id name content files uploads k =
    let bad : Answer.unauthorized ≡ serves name content = k in cc
handle_entry_download-serves h none (some u) entry_id name content files uploads k =
    elim (Bool-cases u.authenticated) [
      | inl a ↦
          let bad : Answer.unavailable ≡ serves name content = rw (a, handle_entry_download) at k in
          cc
      | inr a ↦
          let bad : Answer.unauthorized ≡ serves name content =
            rw (a, handle_entry_download) at k in
          cc
    ]
handle_entry_download-serves h (some s) (some u) entry_id name content files uploads k =
    let (a, rest) =
      admitted u.authenticated (is_empty entry_id) (download_found h u (get entry_id s)) name
        content k in
    let (e, f, v, file, n) =
      download_found-serves h u (get entry_id s) name content files uploads rest in
    (u, s, e, refl, a, refl, f, v, file, n)
