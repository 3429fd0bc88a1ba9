-- ===== src/Dashboard/Entry.antt =====
-- cmd/rdpgw/dashboard/entry.go. `is_ip` is whether `net.ParseIP` reads a text.
pub mod Laws
use home_rdp_gateway.Base.{
  ℕ, Bool, true, false, not, ◌&&◌, ◌||◌, Option, none, some, List, [], ◌∷◌, any, ltb, if◌then◌else◌,
}
use home_rdp_gateway.Base.Texts.{Text, text_eq, codes}
use home_rdp_gateway.Go.Strings.{trim_space, to_lower, is_empty, has_suffix}
use home_rdp_gateway.Go.Net.{split_host_port}
use home_rdp_gateway.Go.Strconv.{atoi_natural}
use home_rdp_gateway.Dashboard.EntryIcon.{is_valid_entry_icon}

-- The entry types in use; an entry may hold any text.
abbrev pub type_host : Text
type_host = codes "host"

abbrev pub type_template : Text
type_template = codes "template"

pub record Entry : Type 0 where
  pub id : Text
  pub entry_type : Text
  pub name : Text
  pub description : Text
  pub icon : Text
  pub allowed_groups : List Text
  pub enabled : Bool
  pub host : Text
  pub uploaded_template_path : Text
  pub target_host_override : Text
  pub target_ip_override : Text
  pub force_target_ip_override : Bool
  pub created_at : ℕ
  pub updated_at : ℕ

-- The validation errors.
pub data Invalid : Type 0 where
  id_required name_required invalid_icon group_required ip_required : Invalid
  host_port_required rdp_required invalid_type : Invalid

abbrev pub is_blank : Text → Bool
is_blank s = is_empty (trim_space s)

abbrev pub is_port : Text → Bool
is_port s = elim (atoi_natural s) [ none ↦ false | some n ↦ ltb 0 n && ltb n 65536 ]

-- The case of the entry type `host`.
unfoldable pub is_host_port : Text → Bool
is_host_port s = elim (split_host_port (trim_space s)) [
  | none ↦ false
  | some (host, port) ↦ not (is_blank host) && is_port port
]

-- The case of the entry type `template`.
unfoldable pub is_rdp_path : Text → Bool
is_rdp_path s = has_suffix (to_lower (trim_space s)) (codes ".rdp")

unfoldable pub validate : (Text → Bool) → Entry → Option Invalid
validate is_ip e =
    let override = trim_space e.target_ip_override in
    if is_blank e.id
    then some id_required
    else if is_blank e.name
    then some name_required
    else if not (is_valid_entry_icon e.icon)
    then some invalid_icon
    else if not (any (λ g. not (is_blank g)) e.allowed_groups)
    then some group_required
    else if not (is_empty override) && not (is_ip override)
    then some ip_required
    else if text_eq e.entry_type type_host
    then (if is_host_port e.host then none else some host_port_required)
    else if text_eq e.entry_type type_template
    then (if is_rdp_path e.uploaded_template_path then none else some rdp_required)
    else some invalid_type

-- The keys of the map of allowed groups.
unfoldable pub group_names : List Text → List Text
group_names [] = []
group_names (g ∷ gs) = let rest = group_names gs in if is_blank g then rest else trim_space g ∷ rest

abbrev pub is_visible : List Text → Entry → Bool
is_visible allowed e =
    e.enabled
    && any (λ g. not (is_blank g) && any (λ h. text_eq h (trim_space g)) allowed) e.allowed_groups

unfoldable pub visible_among : List Text → List Entry → List Entry
visible_among allowed [] = []
visible_among allowed (e ∷ es) =
    let rest = visible_among allowed es in if is_visible allowed e then e ∷ rest else rest

unfoldable pub visible_entries : List Entry → List Text → List Entry
visible_entries entries groups = visible_among (group_names groups) entries
