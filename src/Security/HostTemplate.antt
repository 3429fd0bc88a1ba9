-- ===== src/Security/HostTemplate.antt =====
-- cmd/rdpgw/security/host_template.go. Texts are lists of code points; `none` is an error.
pub mod Rendered
use home_rdp_gateway.Base.{
  ◌||◌, Option, none, some, [], ◌∷◌, ◌++◌, any, drop, length, ◌==◌, if◌then◌else◌,
}
use home_rdp_gateway.Base.Texts.{Text, codes}
use home_rdp_gateway.Go.Strings.{trim_space, is_empty, has_prefix}
use home_rdp_gateway.Go.Net.{split_host_port}
use home_rdp_gateway.Dashboard.Entry.{is_blank, is_port}

abbrev pub placeholder : Text
placeholder = codes "{{ preferred_username }}"

-- `strings.Replace(templateHost, placeholder, username, 1)`.
unfoldable pub replace_first : Text → Text → Text
replace_first username [] = []
replace_first username (c ∷ s) =
    let rest = replace_first username s in
    if has_prefix (c ∷ s) placeholder
    then username ++ drop (length placeholder) (c ∷ s)
    else c ∷ rest

unfoldable pub validate_rendered_host : Text → Option Text
validate_rendered_host text =
    let host = trim_space text in
    if is_empty host
    then none
    else if any (λ c. c == 13 || c == 10 || c == 9) host
    then none
    else if any (λ c. c == b':') host
    then elim (split_host_port host) [
      | none ↦ none
      | some (rendered, port) ↦
          if is_blank rendered then none else if is_port port then some host else none
    ]
    else some host

unfoldable pub resolve_preferred_username_host : Text → Text → Option Text
resolve_preferred_username_host template username =
    validate_rendered_host (replace_first username template)
