-- ===== src/Security/HostTemplate/Rendered.antt =====
-- What resolvePreferredUsernameHost of cmd/rdpgw/security/host_template.go gives.
use home_rdp_gateway.Base.{
  ◌≡◌, ◌<◌, ◌⊎◌, ◌↔◌, refl, sym, ap, ◌∙◌, inl, inr, true, false, ◌&&◌, ◌||◌, ◌==◌, ltb, lt→ltb,
  Bool-cases, Option-cases, Option, none, some, [], ◌∷◌, ◌++◌, any, drop, length, ℕ, arith,
}
use mathlib.Core.Path.{subst}
use home_rdp_gateway.Base.Texts.{Text}
use home_rdp_gateway.Go.Strings.{trim_space, is_empty, has_prefix}
use home_rdp_gateway.Go.Strconv.{atoi_natural}
use home_rdp_gateway.Go.Net.{split_host_port}
use home_rdp_gateway.Dashboard.Entry.{is_port}
use home_rdp_gateway.Security.HostTemplate.{
  placeholder, replace_first, validate_rendered_host, resolve_preferred_username_host,
}

-- The first text with the name in the first place for it, if it has one, is the second.
abbrev pub Renders : Text → Text → Text → Type 0
Renders username [] r = r ≡ []
Renders username (c ∷ s) r =
    ((has_prefix (c ∷ s) placeholder ≡ true) × (r ≡ username ++ drop (length placeholder) (c ∷ s)))
    ⊎ ((has_prefix (c ∷ s) placeholder ≡ false)
        × ((rest : Text) × Renders username s rest × (r ≡ c ∷ rest)))

-- A port between 1 and 65535, in digits.
abbrev pub IsPort : Text → Type 0
IsPort port = (n : ℕ) × (atoi_natural port ≡ some n) × (0 < n) × (n < 65536)

-- A host is not empty, has no line break and no tab, and if it has a colon, then it is a host, which is not blank,
-- and a port.
abbrev pub IsValidHost : Text → Type 0
IsValidHost host =
    (is_empty host ≡ false)
    × (any (λ c. c == 13 || c == 10 || c == 9) host ≡ false)
    × ((any (λ c. c == b':') host ≡ false)
        ⊎ ((rendered : Text) × (port : Text) × (split_host_port host ≡ some (rendered, port))
            × (is_empty (trim_space rendered) ≡ false)
            × IsPort port))

-- The host is what the template says for the name, without white space around it, and is valid.
abbrev pub IsResolved : Text → Text → Text → Type 0
IsResolved template username host =
    (text : Text) × Renders username template text × (host ≡ trim_space text) × IsValidHost host

replace_first-Renders : (username s : Text) → Renders username s (replace_first username s)
unfolding replace_first
replace_first-Renders username [] = refl
replace_first-Renders username (c ∷ s) = elim (Bool-cases (has_prefix (c ∷ s) placeholder)) [
  | inl h ↦ inl (h, rw (h, replace_first) refl)
  | inr h ↦
      inr (
        h,
        (replace_first username s, replace_first-Renders username s, rw (h, replace_first) refl),
      )
]

Renders-replace_first : (username s r : Text) → Renders username s r → r ≡ replace_first username s
unfolding replace_first
Renders-replace_first username [] r h = h
Renders-replace_first username (c ∷ s) r (inl (h, e)) = rw (h, replace_first) e
Renders-replace_first username (c ∷ s) r (inr (h, (rest, k, e))) =
    rw (h, replace_first) (e ∙ ap (λ t. c ∷ t) (Renders-replace_first username s rest k))

is_port-IsPort : (port : Text) → is_port port ≡ true → IsPort port
is_port-IsPort port h = elim (Option-cases (atoi_natural port)) [
  | inl n ↦ let bad : false ≡ true = rw (n, is_port) at h in cc
  | inr (n, e) ↦
      let both : (ltb 0 n && ltb n 65536) ≡ true = rw (e, is_port) at h in
      (n, e, ground arith, ground arith)
]

IsPort-is_port : (port : Text) → IsPort port → is_port port ≡ true
IsPort-is_port port (n, e, low, high) = rw (e, lt→ltb 0 n low, lt→ltb n 65536 high, is_port) refl

is_resolved :
    (t host : Text)
    → ◌≡◌ {A = Option Text} (some t) (some host)
    → IsValidHost t
    → (host ≡ t) × IsValidHost host
is_resolved t host same valid = let e : t ≡ host = cc in (sym e, subst IsValidHost e valid)

validate_rendered_host-some :
    (text host : Text)
    → validate_rendered_host text ≡ some host
    → (host ≡ trim_space text) × IsValidHost host
unfolding validate_rendered_host
validate_rendered_host-some text host h =
    let t = trim_space text in
    elim (Bool-cases (is_empty t)) [
      | inl e ↦ let bad : none ≡ some host = rw (e, validate_rendered_host) at h in cc
      | inr full ↦ elim (Bool-cases (any (λ c. c == 13 || c == 10 || c == 9) t)) [
        | inl e ↦ let bad : none ≡ some host = rw (full, e, validate_rendered_host) at h in cc
        | inr clean ↦ elim (Bool-cases (any (λ c. c == b':') t)) [
          | inr plain ↦
              let same : some t ≡ some host =
                rw (full, clean, plain, validate_rendered_host) at h in
              is_resolved t host same (full, clean, inl plain)
          | inl colon ↦ elim (Option-cases (split_host_port t)) [
            | inl e ↦
                let bad : none ≡ some host =
                  rw (full, clean, colon, e, validate_rendered_host) at h in
                cc
            | inr ((rendered, port), e) ↦ elim (Bool-cases (is_empty (trim_space rendered))) [
              | inl blank ↦
                  let bad : none ≡ some host =
                    rw (full, clean, colon, e, blank, validate_rendered_host) at h in
                  cc
              | inr named ↦ elim (Bool-cases (is_port port)) [
                | inr other ↦
                    let bad : none ≡ some host =
                      rw (full, clean, colon, e, named, other, validate_rendered_host) at h in
                    cc
                | inl p ↦
                    let same : some t ≡ some host =
                      rw (full, clean, colon, e, named, p, validate_rendered_host) at h in
                    is_resolved t host same
                      (full, clean, inr (rendered, port, e, named, is_port-IsPort port p))
              ]
            ]
          ]
        ]
      ]
    ]

valid-validate_rendered_host :
    (text : Text)
    → IsValidHost (trim_space text)
    → validate_rendered_host text ≡ some (trim_space text)
unfolding validate_rendered_host
valid-validate_rendered_host text (full, clean, inl plain) =
    rw (full, clean, plain, validate_rendered_host) refl
valid-validate_rendered_host text (full, clean, inr (rendered, port, e, named, p)) =
    elim (Bool-cases (any (λ c. c == b':') (trim_space text))) [
      | inr plain ↦ rw (full, clean, plain, validate_rendered_host) refl
      | inl colon ↦
          rw (full, clean, colon, e, named, IsPort-is_port port p, validate_rendered_host) refl
    ]

-- The host is what the template gives for the name.
pub resolve_preferred_username_host_iff :
    (template username host : Text)
    → (resolve_preferred_username_host template username ≡ some host)
      ↔ IsResolved template username host
unfolding resolve_preferred_username_host
resolve_preferred_username_host_iff template username host = (
  (λ h.
      let text = replace_first username template in
      let (e, valid) = validate_rendered_host-some text host h in
      (text, replace_first-Renders username template, e, valid)),
  (λ (text, r, e, valid).
      let same = Renders-replace_first username template text r in
      ap validate_rendered_host (sym same)
      ∙ (valid-validate_rendered_host text (subst IsValidHost e valid) ∙ ap some (sym e))),
)
