-- ===== src/Dashboard/Icons/Names.antt =====
-- The names of the icon files.
use home_rdp_gateway.Base.{
  ℕ, ◌≡◌, inl, inr, refl, sym, ap, ◌∙◌, Bool, true, false, ◌||◌, ◌==◌, Bool-cases, none, some, [],
  ◌∷◌, ◌++◌, any, all, arith,
}
use mathlib.Core.Path.{subst}
use home_rdp_gateway.Base.Texts.{Text, text_eq, text_eq_sound, codes}
use home_rdp_gateway.Go.Strings.{is_space, is_empty, trim_right, trim_space, to_lower, lower}
use home_rdp_gateway.Go.Trim.{trim_right-append, StartsInk, trim_left-id}
use home_rdp_gateway.Dashboard.EntryIcon.{is_hex}
use home_rdp_gateway.Dashboard.Icons.{ext, content_type_of, validate_icon_name}

-- A dot or a slash.
abbrev is_mark : ℕ → Bool
is_mark d = d == b'.' || d == b'/'

any-append : (p : ℕ → Bool) (xs ys : Text) → any p ys ≡ true → any p (xs ++ ys) ≡ true
any-append p [] ys e = e
any-append p (x ∷ xs) ys e = ground (arith, any-append p xs ys e)

ext-append : (s e : Text) → any is_mark e ≡ true → ext (s ++ e) ≡ ext e
unfolding ext
ext-append [] e m = refl
ext-append (c ∷ s) e m = rw (any-append is_mark s e m, ext) (ext-append s e m)

-- What the code knows of an extension that it accepts.
abbrev IsExt : Text → Type 0
IsExt e =
    (to_lower e ≡ e)
    × (ext e ≡ e)
    × (any is_mark e ≡ true)
    × (trim_right e ≡ e)
    × (is_empty e ≡ false)
    × StartsInk e

IsExt-same : (t e : Text) → IsExt t → text_eq e t ≡ true → IsExt e
IsExt-same t e k q = subst IsExt (sym (text_eq_sound e t q)) k

content_type_of-IsExt : (e content_type : Text) → content_type_of e ≡ some content_type → IsExt e
unfolding content_type_of to_lower lower ext trim_right
content_type_of-IsExt e content_type h = elim (Bool-cases (text_eq e (codes ".ico"))) [
  | inl q ↦ IsExt-same (codes ".ico") e (refl, refl, refl, refl, refl, refl) q
  | inr a ↦ elim (Bool-cases (text_eq e (codes ".icon"))) [
    | inl q ↦ IsExt-same (codes ".icon") e (refl, refl, refl, refl, refl, refl) q
    | inr b ↦ elim (Bool-cases (text_eq e (codes ".png"))) [
      | inl q ↦ IsExt-same (codes ".png") e (refl, refl, refl, refl, refl, refl) q
      | inr c ↦ elim (Bool-cases (text_eq e (codes ".jpg"))) [
        | inl q ↦ IsExt-same (codes ".jpg") e (refl, refl, refl, refl, refl, refl) q
        | inr d ↦ elim (Bool-cases (text_eq e (codes ".jpeg"))) [
          | inl q ↦ IsExt-same (codes ".jpeg") e (refl, refl, refl, refl, refl, refl) q
          | inr f ↦
              let bad : none ≡ some content_type = rw (a, b, c, d, f, content_type_of) at h in cc
        ]
      ]
    ]
  ]
]

hex-ink : (c : ℕ) → is_hex c ≡ true → is_space c ≡ false
hex-ink c h = ground arith

starts : (id e : Text) → all is_hex id ≡ true → StartsInk e → StartsInk (id ++ e)
starts [] e h k = k
starts (c ∷ id) e h k = hex-ink c (ground arith)

stored-trimmed :
    (id e : Text)
    → all is_hex id ≡ true
    → StartsInk e
    → is_empty e ≡ false
    → trim_right e ≡ e
    → trim_space (id ++ e) ≡ id ++ e
unfolding trim_space
stored-trimmed id e h ink full right =
    ap trim_right (trim_left-id (id ++ e) (starts id e h ink)) ∙ trim_right-append id e full right

-- The name that SaveIcon gives a file is accepted with the extension and the content type of the upload.
pub stored-name :
    (id e content_type : Text)
    → all is_hex id ≡ true
    → content_type_of e ≡ some content_type
    → validate_icon_name (id ++ e) ≡ some (e, content_type)
unfolding validate_icon_name
stored-name id e content_type h q =
    let (low, same, dot, right, full, ink) = content_type_of-IsExt e content_type q in
    let trimmed = stored-trimmed id e h ink full right in
    let last : to_lower (ext (trim_space (id ++ e))) ≡ e =
      ap (λ t. to_lower (ext t)) trimmed ∙ ap to_lower (ext-append id e dot ∙ same) ∙ low in
    rw (last, q, validate_icon_name) (ap (λ t. some (t, content_type)) last)
