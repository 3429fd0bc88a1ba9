-- ===== src/Web/Download.antt =====
-- The download of an entry of the dashboard: cmd/rdpgw/web/dashboard_download.go, with the redirection policy of
-- web.go. The generators of tokens, the signer, and the reading of an RDP file are parameters.
pub mod Settings
pub mod Target
pub mod Served
use home_rdp_gateway.Base.{
  ℕ, Bool, true, false, not, ◌&&◌, ◌||◌, Option, none, some, List, [], ◌∷◌, ◌++◌, any,
  if◌then◌else◌,
}
use home_rdp_gateway.Base.Texts.{Text, text_eq, codes}
use home_rdp_gateway.Base.Options.{◌>>=◌, demand}
use home_rdp_gateway.Base.Integers.{ℤ, pos}
use home_rdp_gateway.Go.Strings.{is_empty, trim_space, to_lower, has_suffix, cut, replace_once}
use home_rdp_gateway.Identity.User.{User, groups}
use home_rdp_gateway.Dashboard.File.{StoreError, not_found}
use home_rdp_gateway.Dashboard.Entry.{Entry, type_host, type_template, visible_entries}
use home_rdp_gateway.Dashboard.Store.{FileStore, Found, found, missing, get, base}
use home_rdp_gateway.Security.HostTemplate.{resolve_preferred_username_host}
use home_rdp_gateway.Web.InternalDns.{Resolved, resolved, failed}
use home_rdp_gateway.Rdp.Settings.{Field}
use home_rdp_gateway.Rdp.Builder.{Setting, flag, number, text, Builder, new_builder, to_string}

pub record RdpOpts : Type 0 where
  pub username_template : Text
  pub split_user_domain : Bool
  pub no_username : Bool

pub record RdpRedirectionPolicy : Type 0 where
  pub clipboard : Bool
  pub drive : Bool
  pub printer : Bool
  pub port : Bool
  pub device : Bool
  pub pnp : Bool

-- What the handler is made with: a generator or a signer that is not configured is `none`, and one that fails gives
-- `none`. `read_file` is rdp.NewBuilderFromFile of the upload or the defaults, `resolve` resolveRDPAddress.
pub record Handler : Type 0 where
  pub opts : RdpOpts
  pub policy : RdpRedirectionPolicy
  pub gateway_host : Text
  pub rdp_defaults : Text
  pub paa_token_generator : Option (Text → Text → Option Text)
  pub enable_user_token : Bool
  pub user_token_generator : Option (Text → Option Text)
  pub signer : Option (Text → Option Text)
  pub read_file : Text → Option Builder
  pub read_upload : Text → Option Builder
  pub resolve : Text → Text → Bool → Resolved

-- A field of the settings gets a value.
unfoldable pub set_field : Text → Setting → List (Field × Setting) → List (Field × Setting)
set_field name v [] = []
set_field name v ((f, old) ∷ st) = (f, if text_eq f.name name then v else old) ∷ set_field name v st

abbrev text_of : Setting → Text
text_of (text t) = t
text_of (number n) = []
text_of (flag b) = []

unfoldable pub text_field : Text → List (Field × Setting) → Text
text_field name [] = []
text_field name ((f, v) ∷ st) = if text_eq f.name name then text_of v else text_field name st

unfoldable pub set_setting : Text → Setting → Builder → Builder
unfolding set_field
set_setting name v b = record b { settings = set_field name v b.settings }

-- Assignments, one after the other.
unfoldable pub set_all : List (Text × Setting) → Builder → Builder
unfolding set_setting
set_all [] b = b
set_all ((name, v) ∷ sets) b = set_all sets (set_setting name v b)

unfoldable pub force_rdp_field : Text → Builder → Builder
force_rdp_field field b =
    if any (λ existing. text_eq existing field) b.unset
    then b
    else record b { unset = b.unset ++ field ∷ [] }

abbrev pub redirection_string : Bool → Text
redirection_string enabled = if enabled then codes "*" else codes "false"

-- Calls of forceRdpField, one after the other.
unfoldable pub force_all : List Text → Builder → Builder
unfolding force_rdp_field
force_all [] b = b
force_all (field ∷ fields) b = force_all fields (force_rdp_field field b)

abbrev pub policy_sets : RdpRedirectionPolicy → List (Text × Setting)
policy_sets policy =
    (codes "RedirectClipboard", flag policy.clipboard)
    ∷ (codes "RedirectPrinters", flag policy.printer)
    ∷ (codes "RedirectComPorts", flag policy.port)
    ∷ (codes "DriveStoreRedirect", text (redirection_string policy.drive))
    ∷ (codes "DeviceStoreRedirect", text (redirection_string policy.device))
    ∷ (codes "UsbDeviceStoRedirect", text (redirection_string policy.pnp))
    ∷ []

abbrev pub policy_fields : List Text
policy_fields =
    codes "RedirectClipboard"
    ∷ codes "RedirectPrinters"
    ∷ codes "RedirectComPorts"
    ∷ codes "DriveStoreRedirect"
    ∷ codes "DeviceStoreRedirect"
    ∷ codes "UsbDeviceStoRedirect"
    ∷ []

unfoldable pub apply_rdp_redirection_policy : RdpRedirectionPolicy → Builder → Builder
unfolding set_all force_all
apply_rdp_redirection_policy policy b = force_all policy_fields (set_all (policy_sets policy) b)

abbrev pub as_option : Resolved → Option Text
as_option (resolved address) = some address
as_option (failed e) = none

-- The host of an entry for a user.
unfoldable pub resolve_target : Handler → User → Entry → Text → Option Text
resolve_target h id e host = do
  rendered ← resolve_preferred_username_host host id.user_name
  as_option (h.resolve rendered e.target_ip_override e.force_target_ip_override)

-- The builder for an entry, and its host; every error is `none`.
unfoldable pub build_entry_builder : Handler → User → Entry → Option (Builder × Text)
unfolding resolve_target trim_space text_field
build_entry_builder h id e =
    if text_eq e.entry_type type_host
    then (do
      host ← resolve_target h id e e.host
      builder ← if is_empty h.rdp_defaults then new_builder else h.read_file h.rdp_defaults
      some (builder, host))
    else if text_eq e.entry_type type_template
    then (do
      builder ← h.read_upload e.uploaded_template_path
      host ← resolve_target h id e (
          if is_empty (trim_space e.target_host_override)
          then text_field (codes "FullAddress") builder.settings
          else trim_space e.target_host_override)
      some (builder, host))
    else none

-- The user and the domain of a user name.
unfoldable pub split_user : Bool → Text → Text × Text
unfolding cut
split_user split name =
    if split then elim (cut b'@' name) [ none ↦ (name, []) | some parts ↦ parts ] else (name, [])

-- The name that is written; `none` where the template has no place for the user.
unfoldable pub render_username : Text → Text → Option Text
unfolding replace_once
render_username template user =
    let rendered = replace_once (codes "{{ username }}") user template in
    if is_empty template
    then some user
    else if text_eq rendered template
    then none
    else some rendered

unfoldable pub with_user_token : Handler → Text → Text → Option Text
unfolding replace_once
with_user_token h user render =
    if h.enable_user_token
    then (do
      generate ← h.user_token_generator
      user_token ← generate user
      some (replace_once (codes "{{ token }}") user_token render))
    else some render

-- What is written for the user, the host and the token.
abbrev pub user_sets : Handler → Text → Text → Text → Text → List (Text × Setting)
user_sets h render domain host token =
    (codes "Username", text (if h.opts.no_username then [] else render))
    ∷ (codes "Domain", text (if h.opts.no_username then [] else domain))
    ∷ (codes "FullAddress", text host)
    ∷ (codes "GatewayHostname", text h.gateway_host)
    ∷ (codes "GatewayCredentialsSource", number (pos 5))
    ∷ (codes "GatewayAccessToken", text token)
    ∷ (codes "GatewayCredentialMethod", number (pos 1))
    ∷ (codes "GatewayUsageMethod", number (pos 1))
    ∷ []

unfoldable pub finished : Handler → Text → Text → Text → Text → Builder → Builder
unfolding set_all apply_rdp_redirection_policy
finished h render domain host token b =
    apply_rdp_redirection_policy h.policy (set_all (user_sets h render domain host token) b)

abbrev pub signed : Option (Text → Option Text) → Text → Option Text
signed none content = some content
signed (some sign) content = sign content

-- The content of the file for an entry that is visible; every error is answered with 500.
unfoldable pub build_file : Handler → User → Entry → Option Text
unfolding build_entry_builder split_user render_username with_user_token finished
build_file h id e = do
  built ← build_entry_builder h id e
  render ←
      render_username h.opts.username_template (split_user h.opts.split_user_domain id.user_name).0
  generate ← h.paa_token_generator
  token ← generate (split_user h.opts.split_user_domain id.user_name).0 built.1
  name ← with_user_token h (split_user h.opts.split_user_domain id.user_name).0 render
  content ←
      to_string
        (finished h name (split_user h.opts.split_user_domain id.user_name).1 built.1 token built.0)
  signed h.signer content

-- The statuses 400, 401, 404, 500 and 503, or a file with its name.
pub data Answer : Type 0 where
  bad_request unauthorized no_such_entry server_error unavailable : Answer
  serves : Text → Text → Answer

unfoldable pub file_name : Text → Text
unfolding base to_lower
file_name id =
    let name = base id in
    if has_suffix (to_lower name) (codes ".rdp") then name else name ++ codes ".rdp"

unfoldable pub serve : Text → Option Text → Answer
unfolding file_name
serve id none = server_error
serve id (some content) = serves (file_name id) content

abbrev pub is_one : List Entry → Bool
is_one (e ∷ []) = true
is_one [] = false
is_one (e ∷ f ∷ es) = false

unfoldable pub download_found : Handler → User → Found → Answer
unfolding serve build_file
download_found h id (missing not_found) = no_such_entry
download_found h id (missing _) = server_error
download_found h id (found e) =
    if is_one (visible_entries (e ∷ []) (groups id))
    then serve e.id (build_file h id e)
    else no_such_entry

-- HandleEntryDownload for the identity of the request; the store is `none` where there is none.
unfoldable pub handle_entry_download : Handler → Option FileStore → Option User → Text → Answer
unfolding download_found get
handle_entry_download h store none entry_id = unauthorized
handle_entry_download h none (some id) entry_id =
    if id.authenticated then unavailable else unauthorized
handle_entry_download h (some s) (some id) entry_id =
    if not id.authenticated
    then unauthorized
    else if is_empty entry_id
    then bad_request
    else download_found h id (get entry_id s)
