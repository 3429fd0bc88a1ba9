-- ===== src/Web/Download/Settings.antt =====
-- The fields and values of the settings that are written for a download.
use home_rdp_gateway.Base.{
  ◌≡◌, refl, sym, map, ap, ◌∙◌, true, false, Bool-cases, inl, inr, Option, none, some, Option-cases,
  List, [], ◌∷◌, if◌then◌else◌, arith,
}
use mathlib.Core.Path.{subst}
use home_rdp_gateway.Base.Texts.{Text, text_eq, text_eq_iff}
use home_rdp_gateway.Base.Assoc.{text_eq_sym}
use home_rdp_gateway.Base.Options.{chain-some}
use home_rdp_gateway.Go.Strings.{is_empty}
use home_rdp_gateway.Rdp.Settings.{Field, rdp_fields}
use home_rdp_gateway.Rdp.Written.{field_of}
use home_rdp_gateway.Rdp.Builder.{Setting, Builder, init_field, init_struct, new_builder}
use home_rdp_gateway.Web.Download.{
  Handler, set_field, set_setting, set_all, force_rdp_field, force_all, policy_sets, policy_fields,
  user_sets, apply_rdp_redirection_policy, finished,
}

-- Every field of the name has the value.
abbrev pub AllAre : Text → Setting → List (Field × Setting) → Type 0
AllAre name v [] = Unit
AllAre name v ((f, w) ∷ st) = (text_eq f.name name ≡ true → w ≡ v) × AllAre name v st

set_field-AllAre :
    (name : Text) (v : Setting) (st : List (Field × Setting)) → AllAre name v (set_field name v st)
unfolding set_field
set_field-AllAre name v [] = tt
set_field-AllAre name v ((f, w) ∷ st) = ((λ e. rw e refl), set_field-AllAre name v st)

set_field-fields :
    (name : Text) (v : Setting) (st : List (Field × Setting))
    → map field_of (set_field name v st) ≡ map field_of st
unfolding set_field
set_field-fields name v [] = refl
set_field-fields name v ((f, w) ∷ st) = ap (λ fs. f ∷ fs) (set_field-fields name v st)

set_all-fields :
    (sets : List (Text × Setting)) (b : Builder)
    → map field_of (set_all sets b).settings ≡ map field_of b.settings
unfolding set_all set_setting
set_all-fields [] b = refl
set_all-fields ((n, w) ∷ sets) b =
    set_all-fields sets (set_setting n w b) ∙ set_field-fields n w b.settings

set_field-other :
    (other name : Text) (v w : Setting) (st : List (Field × Setting))
    → text_eq other name ≡ false
    → AllAre name v st
    → AllAre name v (set_field other w st)
unfolding set_field
set_field-other other name v w [] h a = tt
set_field-other other name v w ((f, x) ∷ st) h (p, a) = (
  (λ e.
      let apart : text_eq f.name other ≡ false =
        ap (λ t. text_eq t other) ((text_eq_iff f.name name).0 e) ∙ text_eq_sym name other ∙ h in
      rw apart (p e)),
  set_field-other other name v w st h a,
)

force_rdp_field-settings :
    (field : Text) (b : Builder) → (force_rdp_field field b).settings ≡ b.settings
unfolding force_rdp_field
force_rdp_field-settings field b = ground arith

force_all-settings : (fields : List Text) (b : Builder) → (force_all fields b).settings ≡ b.settings
unfolding force_all
force_all-settings [] b = refl
force_all-settings (f ∷ fields) b =
    force_all-settings fields (force_rdp_field f b) ∙ force_rdp_field-settings f b

-- The value that the last assignment to the name gives.
abbrev last_set : Text → List (Text × Setting) → Option Setting
last_set name [] = none
last_set name ((n, w) ∷ sets) = elim (last_set name sets) [
  | some v ↦ some v
  | none ↦ if text_eq n name then some w else none
]

set_all-kept :
    (name : Text) (v : Setting) (sets : List (Text × Setting)) (b : Builder)
    → last_set name sets ≡ none
    → AllAre name v b.settings
    → AllAre name v (set_all sets b).settings
unfolding set_all set_setting
set_all-kept name v [] b h a = a
set_all-kept name v ((n, w) ∷ sets) b h a =
    set_all-kept name v sets (set_setting n w b) (ground arith)
      (set_field-other n name v w b.settings (ground arith) a)

set_all-AllAre :
    (name : Text) (v : Setting) (sets : List (Text × Setting)) (b : Builder)
    → last_set name sets ≡ some v
    → AllAre name v (set_all sets b).settings
unfolding set_all set_setting
set_all-AllAre name v [] b h = cc
set_all-AllAre name v ((n, w) ∷ sets) b h = elim (Option-cases (last_set name sets)) [
  | inr (x, e) ↦ set_all-AllAre name v sets (set_setting n w b) (ground arith)
  | inl e ↦
      let same : n ≡ name = (text_eq_iff n name).0 (ground arith) in
      let value : w ≡ v = ground arith in
      set_all-kept name v sets (set_setting n w b) e (
        subst (λ m. AllAre m v (set_field n w b.settings)) same
          (subst (λ x. AllAre n x (set_field n w b.settings)) value
            (set_field-AllAre n w b.settings)))
]

-- The finished settings have the value that is written last.
pub finished-AllAre :
    (h : Handler) (render domain host token : Text) (b : Builder) (name : Text) (v : Setting)
    → last_set name (user_sets h render domain host token) ≡ some v
    → last_set name (policy_sets h.policy) ≡ none
    → AllAre name v (finished h render domain host token b).settings
unfolding finished apply_rdp_redirection_policy
finished-AllAre h render domain host token b name v e n =
    let sets = user_sets h render domain host token in
    let own = set_all (policy_sets h.policy) (set_all sets b) in
    rw (force_all-settings policy_fields own) (
      set_all-kept name v (policy_sets h.policy) (set_all sets b) n
        (set_all-AllAre name v sets b e))

pub finished-fields :
    (h : Handler) (render domain host token : Text) (b : Builder)
    → map field_of (finished h render domain host token b).settings ≡ map field_of b.settings
unfolding finished apply_rdp_redirection_policy
finished-fields h render domain host token b =
    let sets = user_sets h render domain host token in
    let own = set_all (policy_sets h.policy) (set_all sets b) in
    ap (map field_of) (force_all-settings policy_fields own)
    ∙ (set_all-fields (policy_sets h.policy) (set_all sets b) ∙ set_all-fields sets b)

-- The reader of files gives builders with all the fields of the settings.
abbrev pub GivesFields : (Text → Option Builder) → Type 0
GivesFields read =
    (path : Text) (b : Builder) → read path ≡ some b → map field_of b.settings ≡ rdp_fields

pub same_some : {A : Type 0} {a b : A} → ◌≡◌ {A = Option A} (some a) (some b) → a ≡ b
same_some h = cc

init_struct-fields :
    (fs : List Field) (st : List (Field × Setting))
    → init_struct fs ≡ some st
    → map field_of st ≡ fs
unfolding init_struct
init_struct-fields [] st h = let e : [] ≡ st = cc in ap (map field_of) (sym e)
init_struct-fields (f ∷ fs) st h =
    let (v, e, k) = chain-some (init_field f) _ st h in
    let (rest, q, same) = chain-some (init_struct fs) _ st k in
    let whole : (f, v) ∷ rest ≡ st = cc in
    ap (map field_of) (sym whole) ∙ ap (λ l. f ∷ l) (init_struct-fields fs rest q)

made-fields :
    (o : Option (List (Field × Setting))) (b : Builder)
    → elim o [ none ↦ none | some st ↦ some (record { settings = st; unset = [] }) ] ≡ some b
    → o ≡ some b.settings
made-fields none b h = cc
made-fields (some st) b h =
    ap (λ (x : Builder). some x.settings)
      (same_some {a = record { settings = st; unset = [] }} {b = b} h)

new_builder-fields : (b : Builder) → new_builder ≡ some b → map field_of b.settings ≡ rdp_fields
unfolding new_builder
new_builder-fields b h =
    init_struct-fields rdp_fields b.settings (made-fields (init_struct rdp_fields) b h)

pub default_or_file :
    (h : Handler) (b : Builder)
    → GivesFields h.read_file
    → (if is_empty h.rdp_defaults then new_builder else h.read_file h.rdp_defaults) ≡ some b
    → map field_of b.settings ≡ rdp_fields
default_or_file h b files k = elim (Bool-cases (is_empty h.rdp_defaults)) [
  | inl e ↦ new_builder-fields b (rw e at k)
  | inr e ↦ files h.rdp_defaults b (rw e at k)
]
