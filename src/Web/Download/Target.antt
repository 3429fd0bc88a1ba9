-- ===== src/Web/Download/Target.antt =====
-- The host of an entry that is downloaded, and the builder for it.
use home_rdp_gateway.Base.{
  ◌≡◌, ◌⊎◌, refl, map, ap, ◌∙◌, true, false, Bool-cases, inl, inr, none, some, [], ◌∷◌,
  if◌then◌else◌,
}
use home_rdp_gateway.Base.Texts.{Text, text_eq, text_eq_iff, codes}
use home_rdp_gateway.Base.Options.{chain-some}
use home_rdp_gateway.Go.Strings.{is_empty, trim_space}
use home_rdp_gateway.Identity.User.{User}
use home_rdp_gateway.Dashboard.Entry.{Entry, type_host, type_template}
use home_rdp_gateway.Rdp.Settings.{rdp_fields}
use home_rdp_gateway.Rdp.Written.{field_of}
use home_rdp_gateway.Security.HostTemplate.{resolve_preferred_username_host}
use home_rdp_gateway.Security.HostTemplate.Rendered.{
  IsResolved, resolve_preferred_username_host_iff,
}
use home_rdp_gateway.Web.InternalDns.{Resolved, resolved, failed}
use home_rdp_gateway.Rdp.Builder.{Builder, new_builder}
use home_rdp_gateway.Web.Download.{
  Handler, resolve_target, as_option, text_field, build_entry_builder,
}
use home_rdp_gateway.Web.Download.Settings.{GivesFields, same_some, default_or_file}

-- What the host of an entry is made from: the host of a host entry; for a template, the host that it is to have, without
-- white space around it, or, where that is "", the address in the template.
abbrev pub IsTarget : Handler → Entry → Text → Type 0
IsTarget h e target =
    ((e.entry_type ≡ type_host) × (target ≡ e.host))
    ⊎ ((e.entry_type ≡ type_template)
        × ((b : Builder) × (h.read_upload e.uploaded_template_path ≡ some b)
            × (((trim_space e.target_host_override ≡ [])
                  × (target ≡ text_field (codes "FullAddress") b.settings))
                ⊎ ((is_empty (trim_space e.target_host_override) ≡ false)
                    × (target ≡ trim_space e.target_host_override)))))

-- The host of an entry for a user: its target with the name of the user put in, a valid host, and resolved.
abbrev pub IsHostFor : Handler → User → Entry → Text → Type 0
IsHostFor h u e host =
    (target : Text) × (rendered : Text) × IsTarget h e target
    × IsResolved target u.user_name rendered
    × (h.resolve rendered e.target_ip_override e.force_target_ip_override ≡ resolved host)

resolved_as : (r : Resolved) (host : Text) → as_option r ≡ some host → r ≡ resolved host
resolved_as (resolved a) host h = cc
resolved_as (failed e) host h = cc

resolve_target-IsHostFor :
    (h : Handler) (u : User) (e : Entry) (target host : Text)
    → IsTarget h e target
    → resolve_target h u e target ≡ some host
    → IsHostFor h u e host
unfolding resolve_target
resolve_target-IsHostFor h u e target host from k =
    let (rendered, e1, k1) =
      chain-some (resolve_preferred_username_host target u.user_name) _ host k in
    (
      target,
      rendered,
      from,
      (resolve_preferred_username_host_iff target u.user_name rendered).0 e1,
      resolved_as (h.resolve rendered e.target_ip_override e.force_target_ip_override) host k1,
    )

empty_nil : (s : Text) → is_empty s ≡ true → s ≡ []
empty_nil [] h = refl
empty_nil (x ∷ s) h = cc

template-IsTarget :
    (h : Handler) (e : Entry) (b : Builder)
    → e.entry_type ≡ type_template
    → h.read_upload e.uploaded_template_path ≡ some b
    → IsTarget h e (
        if is_empty (trim_space e.target_host_override)
        then text_field (codes "FullAddress") b.settings
        else trim_space e.target_host_override)
template-IsTarget h e b kind read =
    elim (Bool-cases (is_empty (trim_space e.target_host_override))) [
      | inl n ↦
          inr (kind, (b, read, inl (empty_nil (trim_space e.target_host_override) n, rw n refl)))
      | inr n ↦ inr (kind, (b, read, inr (n, rw n refl)))
    ]

-- A builder for an entry has all the fields of the settings, and its host is the one of the entry for the user.
pub build_entry_builder-IsHostFor :
    (h : Handler) (u : User) (e : Entry) (b : Builder) (host : Text)
    → GivesFields h.read_file
    → GivesFields h.read_upload
    → build_entry_builder h u e ≡ some (b, host)
    → (map field_of b.settings ≡ rdp_fields) × IsHostFor h u e host
unfolding build_entry_builder
build_entry_builder-IsHostFor h u e b host files uploads k =
    elim (Bool-cases (text_eq e.entry_type type_host)) [
      | inl is_host ↦
          let (to, e1, k1) =
            chain-some (resolve_target h u e e.host) _ (b, host)
              (rw (is_host, build_entry_builder) at k) in
          let (builder, e2, k2) =
            chain-some (if is_empty h.rdp_defaults then new_builder else h.read_file h.rdp_defaults)
              _ (b, host) k1 in
          let pair = same_some k2 in
          let same : builder ≡ b = ap (λ (x : Builder × Text). x.0) pair in
          let there : to ≡ host = ap (λ (x : Builder × Text). x.1) pair in
          let kind = (text_eq_iff e.entry_type type_host).0 is_host in
          (
            default_or_file h b files (e2 ∙ ap some same),
            resolve_target-IsHostFor h u e e.host host (inl (kind, refl)) (e1 ∙ ap some there),
          )
      | inr not_host ↦ elim (Bool-cases (text_eq e.entry_type type_template)) [
        | inr other ↦
            let bad : none ≡ some (b, host) = rw (not_host, other, build_entry_builder) at k in cc
        | inl is_template ↦
            let (builder, e1, k1) =
              chain-some (h.read_upload e.uploaded_template_path) _ (b, host)
                (rw (not_host, is_template, build_entry_builder) at k) in
            let target =
              if is_empty (trim_space e.target_host_override)
              then text_field (codes "FullAddress") builder.settings
              else trim_space e.target_host_override in
            let (to, e2, k2) = chain-some (resolve_target h u e target) _ (b, host) k1 in
            let pair = same_some k2 in
            let same : builder ≡ b = ap (λ (x : Builder × Text). x.0) pair in
            let there : to ≡ host = ap (λ (x : Builder × Text). x.1) pair in
            let kind = (text_eq_iff e.entry_type type_template).0 is_template in
            (
              uploads e.uploaded_template_path b (e1 ∙ ap some same),
              resolve_target-IsHostFor h u e target host (template-IsTarget h e builder kind e1)
                  (e2 ∙ ap some there),
            )
      ]
    ]
