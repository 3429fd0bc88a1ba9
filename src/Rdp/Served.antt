-- ===== src/Rdp/Served.antt =====
-- The file that the builder writes says what its settings are.
use home_rdp_gateway.Base.{
  ◌≡◌, refl, ap, ◌∙◌, ◌⊎◌, Bool, true, false, not, ◌&&◌, Bool-cases, inl, inr, none, some, List, [],
  ◌∷◌, ◌++◌, any, arith,
}
use home_rdp_gateway.Base.Texts.{Text, text_eq, text_eq_refl}
use home_rdp_gateway.Base.Members.{IsIn, any_from}
use home_rdp_gateway.Base.Assoc.{lookup, assign, lookup-assign, text_eq_sym}
use home_rdp_gateway.Rdp.Settings.{Field}
use home_rdp_gateway.Rdp.Parser.{Value, truth, split_lines, scan, parse_lines, unmarshal}
use home_rdp_gateway.Rdp.Lines.{IsKey, IsValue, read_back}
use home_rdp_gateway.Rdp.WrittenLine.{line, Fits, parse_lines-line}
use home_rdp_gateway.Rdp.Defaults.{HasKind, is_zero-known}
use home_rdp_gateway.Rdp.Builder.{
  Setting, flag, number, text, Builder, init_field, is_zero, is_set, field_line,
  add_struct_to_string, to_string,
}

abbrev pub to_value : Setting → Value
to_value (flag b) = truth b
to_value (number n) = Value.number n
to_value (text t) = Value.text t

field_line-line : (f : Field) (v : Setting) (rest : Text) → field_line f v ≡ line f.tag (to_value v)
unfolding field_line
field_line-line f (flag true) rest = refl
field_line-line f (flag false) rest = refl
field_line-line f (number n) rest = refl
field_line-line f (text t) rest = refl

-- The setting is of the kind of its field, whose default parses, and the format can hold its line.
abbrev pub IsSetting : Field → Setting → Type 0
IsSetting f v =
    (d : Setting) × (init_field f ≡ some d)
    × HasKind f.kind v
    × IsKey f.tag
    × IsValue (to_value v)
    × Fits f.tag (to_value v)

abbrev pub has_tag : Text → List (Field × Setting) → Bool
has_tag tag = any (λ (fv : Field × Setting). text_eq fv.0.tag tag)

-- The settings are such, and no two have a tag.
abbrev pub AllSettings : List (Field × Setting) → Type 0
AllSettings [] = Unit
AllSettings ((f, v) ∷ st) = IsSetting f v × (has_tag f.tag st ≡ false) × AllSettings st

-- A field that is not among those that are written in any case is not named among these.
is_set-IsIn : (f : Field) (unset : List Text) → is_set f unset ≡ false → ¬ (IsIn f.name unset)
unfolding is_set
is_set-IsIn f unset h m =
    let named = any_from (λ v. text_eq v f.name) unset f.name m (text_eq_refl f.name) in
    let bad : true ≡ false = ground arith in cc

-- What a map says of a field: its value, or nothing where the value is the default and the field is not named
-- among those that were not set.
abbrev pub Says : List Text → List (Text × Value) → Field → Setting → Type 0
Says unset mp f v =
    (lookup f.tag mp ≡ some (read_back (to_value v)))
    ⊎ ((lookup f.tag mp ≡ none) × (init_field f ≡ some v) × (¬ (IsIn f.name unset)))

abbrev pub AllSay : List Text → List (Text × Value) → List (Field × Setting) → Type 0
AllSay unset mp [] = Unit
AllSay unset mp ((f, v) ∷ st) = Says unset mp f v × AllSay unset mp st

abbrev AllFree : List (Text × Value) → List (Field × Setting) → Type 0
AllFree mp [] = Unit
AllFree mp ((f, v) ∷ st) = (lookup f.tag mp ≡ none) × AllFree mp st

free-assign :
    (tag : Text) (a : Value) (mp : List (Text × Value)) (st : List (Field × Setting))
    → has_tag tag st ≡ false
    → AllFree mp st
    → AllFree (assign tag a mp) st
free-assign tag a mp [] h fr = tt
free-assign tag a mp ((f, v) ∷ st) h (n, fr) = (
  ground (arith, lookup-assign f.tag tag a mp, text_eq_sym tag f.tag),
  free-assign tag a mp st (ground arith) fr,
)

-- The file says the settings over what the map before it said of other tags.
abbrev Served : List (Field × Setting) → List Text → List (Text × Value) → Type 0
Served st unset mp =
    (s : Text) × (after : List (Text × Value)) × (add_struct_to_string st unset ≡ some s)
    × (parse_lines (scan (split_lines s)) mp ≡ some after)
    × ((k : Text) → has_tag k st ≡ false → lookup k after ≡ lookup k mp)
    × AllSay unset after st

Served-written :
    (f : Field) (v : Setting) (st : List (Field × Setting)) (unset : List Text)
    (mp : List (Text × Value)) (z : Bool)
    → IsSetting f v
    → has_tag f.tag st ≡ false
    → is_zero f v ≡ some z
    → (z && not (is_set f unset)) ≡ false
    → Served st unset (assign f.tag (read_back (to_value v)) mp)
    → Served ((f, v) ∷ st) unset mp
unfolding add_struct_to_string
Served-written f v st unset mp z (d, e, h, k, w, fits) fresh q out (s, after, a, p, same, says) =
    let saved = read_back (to_value v) in
    (
      field_line f v ++ b'\r' ∷ b'\n' ∷ s,
      after,
      rw q (rw a (rw out refl)),
      rw (field_line-line f v s) (parse_lines-line f.tag (to_value v) s mp k w fits ∙ p),
      (λ key free. same key (ground arith) ∙ ground (arith, lookup-assign key f.tag saved mp)),
      (
        inl (
            same f.tag fresh
            ∙ ground (arith, lookup-assign f.tag f.tag saved mp, text_eq_refl f.tag)),
        says,
      ),
    )

Served-omitted :
    (f : Field) (v d : Setting) (st : List (Field × Setting)) (unset : List Text)
    (mp : List (Text × Value)) (z : Bool)
    → init_field f ≡ some d
    → d ≡ v
    → has_tag f.tag st ≡ false
    → lookup f.tag mp ≡ none
    → is_zero f v ≡ some z
    → (z && not (is_set f unset)) ≡ true
    → Served st unset mp
    → Served ((f, v) ∷ st) unset mp
unfolding add_struct_to_string
Served-omitted f v d st unset mp z e default fresh free q out (s, after, a, p, same, says) = (
  s,
  after,
  rw q (rw a (rw out refl)),
  p,
  (λ key other_tag. same key (ground arith)),
  (inr (same f.tag fresh ∙ free, e ∙ ap some default, is_set-IsIn f unset (ground arith)), says),
)

Served-from :
    (st : List (Field × Setting)) (unset : List Text) (mp : List (Text × Value))
    → AllSettings st
    → AllFree mp st
    → Served st unset mp
unfolding add_struct_to_string parse_lines scan split_lines
Served-from [] unset mp h fr = ([], mp, refl, refl, (λ k e. refl), tt)
Served-from ((f, v) ∷ st) unset mp ((d, e, h, k, w, fits), fresh, rest) (n, fr) =
    let (z, q, default) = is_zero-known f v d h e in
    elim (Bool-cases (z && not (is_set f unset))) [
      | inl out ↦
          Served-omitted f v d st unset mp z e (default (ground arith)) fresh n q out
            (Served-from st unset mp rest fr)
      | inr out ↦
          let saved = read_back (to_value v) in
          Served-written f v st unset mp z (d, e, h, k, w, fits) fresh q out
            (Served-from st unset (assign f.tag saved mp) rest
              (free-assign f.tag saved mp st fresh fr))
    ]

free_of : (st : List (Field × Setting)) → AllFree [] st
unfolding lookup
free_of [] = tt
free_of ((f, v) ∷ st) = (refl, free_of st)

-- The file that String writes says what the settings are. When every setting is of the kind of its field, whose
-- default parses, and is such as the format can hold, and no two fields have a tag, then String gives a text,
-- Unmarshal reads it, and what it reads holds for each field under its tag the value, a truth value as 1 or 0, or it holds
-- nothing for the field, the value is the one that the field has by default, and the field is not named among those that
-- were not set.
pub to_string-says :
    (b : Builder)
    → AllSettings b.settings
    → (s : Text) × (mp : List (Text × Value)) × (to_string b ≡ some s)
      × (unmarshal s ≡ some mp)
      × AllSay b.unset mp b.settings
unfolding to_string unmarshal
to_string-says b h =
    let (s, mp, e, p, same, says) = Served-from b.settings b.unset [] h (free_of b.settings) in
    (s, mp, e, p, says)
