-- ===== src/Rdp/Written.antt =====
-- The file that the builder writes of the settings of cmd/rdpgw/rdp/rdp.go.
use home_rdp_gateway.Base.{
  ◌≡◌, refl, ap, ◌∙◌, Bool, true, false, not, ◌&&◌, ◌||◌, Option, none, some, List, [], ◌∷◌, any,
  map, arith,
}
use home_rdp_gateway.Base.Texts.{Text, text_eq, text_eq_sound, codes}
use home_rdp_gateway.Go.Strings.{is_empty, has_prefix, trim_space, trim_left, trim_right}
use home_rdp_gateway.Go.Strconv.{atoi, signed, digits_from}
use home_rdp_gateway.Rdp.Settings.{Field, rdp_fields}
use home_rdp_gateway.Rdp.Parser.{Settings, unmarshal}
use home_rdp_gateway.Rdp.Lines.{lacks, IsKey, IsValue}
use home_rdp_gateway.Rdp.WrittenLine.{Fits}
use home_rdp_gateway.Rdp.Builder.{Setting, Builder, set_variable, init_field, to_string}
use home_rdp_gateway.Rdp.Defaults.{HasKind}
use home_rdp_gateway.Rdp.Served.{to_value, has_tag, AllSettings, AllSay, to_string-says}

abbrev pub field_of : Field × Setting → Field
field_of (f, v) = f

-- The settings are of the kinds of their fields, and such as the format can hold.
abbrev pub AllValues : List (Field × Setting) → Type 0
AllValues [] = Unit
AllValues ((f, v) ∷ st) =
    HasKind f.kind v × IsValue (to_value v) × Fits f.tag (to_value v) × AllValues st

abbrev is_some : Option Setting → Bool
is_some none = false
is_some (some v) = true

-- The tag is a key of the format, and the default parses.
abbrev is_sound : Field → Bool
is_sound f =
    not (is_empty f.tag)
    && text_eq (trim_space f.tag) f.tag
    && lacks b':' f.tag
    && lacks b'\n' f.tag
    && not (has_prefix f.tag (codes "#"))
    && is_some (init_field f)

are_sound : List Field → Bool
are_sound [] = true
are_sound (f ∷ fs) = is_sound f && not (any (λ (g : Field). text_eq g.tag f.tag) fs) && are_sound fs

rdp_fields-are_sound : are_sound rdp_fields ≡ true
unfolding are_sound trim_space trim_left trim_right init_field set_variable atoi signed digits_from
rdp_fields-are_sound = refl

is_some-some : (o : Option Setting) → is_some o ≡ true → (d : Setting) × (o ≡ some d)
is_some-some none h = cc
is_some-some (some d) h = (d, refl)

and_both : (a b : Bool) → (a && b) ≡ true → (a ≡ true) × (b ≡ true)
and_both true b h = (refl, h)
and_both false b h = cc

negation_false : (a : Bool) → not a ≡ true → a ≡ false
negation_false true h = cc
negation_false false h = refl

is_sound-IsKey :
    (f : Field) → is_sound f ≡ true → IsKey f.tag × ((d : Setting) × (init_field f ≡ some d))
is_sound-IsKey f h =
    let (h5, init) = and_both _ (is_some (init_field f)) h in
    let (h4, hash) = and_both _ (not (has_prefix f.tag (codes "#"))) h5 in
    let (h3, feed) = and_both _ (lacks b'\n' f.tag) h4 in
    let (h2, colon) = and_both _ (lacks b':' f.tag) h3 in
    let (full, trimmed) = and_both (not (is_empty f.tag)) (text_eq (trim_space f.tag) f.tag) h2 in
    (
      (
        negation_false (is_empty f.tag) full,
        text_eq_sound (trim_space f.tag) f.tag trimmed,
        colon,
        feed,
        negation_false (has_prefix f.tag (codes "#")) hash,
      ),
      is_some-some (init_field f) init,
    )

has_tag-map :
    (tag : Text) (st : List (Field × Setting))
    → has_tag tag st ≡ any (λ (g : Field). text_eq g.tag tag) (map field_of st)
has_tag-map tag [] = refl
has_tag-map tag ((f, v) ∷ st) = ap (λ b. text_eq f.tag tag || b) (has_tag-map tag st)

all_settings :
    (st : List (Field × Setting))
    → are_sound (map field_of st) ≡ true
    → AllValues st
    → AllSettings st
unfolding are_sound
all_settings [] h a = tt
all_settings ((f, v) ∷ st) h (k, w, fits, a) =
    let (key, (d, e)) = is_sound-IsKey f (ground arith) in
    ((d, e, k, key, w, fits), has_tag-map f.tag st ∙ ground arith, all_settings st (ground arith) a)

-- The file that String writes of RdpSettings says what the settings are. With values of the kinds of the fields that the
-- format can hold (an int, or a text with no white space around it and no line feed; the line is shorter than 65536 bytes)
-- String gives a text, Unmarshal reads it, and what it reads holds for each field under its tag the value, a truth
-- value as 1 or 0, or it holds nothing for the field, the value is the one that the field has by default, and
-- the field is not named among those that were not set.
pub to_string-AllSay :
    (b : Builder)
    → map field_of b.settings ≡ rdp_fields
    → AllValues b.settings
    → (s : Text) × (mp : Settings) × (to_string b ≡ some s)
      × (unmarshal s ≡ some mp)
      × AllSay b.unset mp b.settings
to_string-AllSay b e a =
    to_string-says b (all_settings b.settings (ap are_sound e ∙ rdp_fields-are_sound) a)
