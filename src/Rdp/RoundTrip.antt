-- ===== src/Rdp/RoundTrip.antt =====
-- An RDP file that Marshal writes is read back by Unmarshal.
use home_rdp_gateway.Base.{
  ◌≡◌, refl, sym, ap, ◌∙◌, Bool, true, false, ◌||◌, Bool-cases, inl, inr, Option, none, some, List,
  [], ◌∷◌, ◌++◌, any, if◌then◌else◌, arith,
}
use home_rdp_gateway.Base.Texts.{Text, text_eq, text_eq_iff, text_eq_refl}
use home_rdp_gateway.Base.Assoc.{lookup, assign, lookup-assign, text_eq_sym}
use home_rdp_gateway.Identity.User.{insert_text, sort_texts}
use home_rdp_gateway.Rdp.Parser.{
  Value, other, Settings, split_lines, scan, parse_lines, unmarshal, print_line, print_lines, keys,
  marshal,
}
use home_rdp_gateway.Rdp.Lines.{IsKey, IsValue, read_back, print_value-written}
use home_rdp_gateway.Rdp.WrittenLine.{line, Fits, parse_lines-line}

abbrev value_of : Option Value → Value
value_of none = other
value_of (some v) = v

module _ (o : Settings) where
  -- The map has a value for the key, and the format can hold both.
  abbrev pub Written : Text → Type 0
  Written key = (v : Value) × (lookup key o ≡ some v) × IsKey key × IsValue v × Fits key v

  abbrev AllWritten : List Text → Type 0
  AllWritten [] = Unit
  AllWritten (key ∷ ks) = Written key × AllWritten ks

  abbrev assign_all : List Text → Settings → Settings
  assign_all [] mp = mp
  assign_all (key ∷ ks) mp = assign_all ks (assign key (read_back (value_of (lookup key o))) mp)

  print_lines-written :
      (ks : List Text) (mp : Settings)
      → AllWritten ks
      → (s : Text) × (print_lines ks o ≡ some s)
        × (parse_lines (scan (split_lines s)) mp ≡ some (assign_all ks mp))
  unfolding print_lines print_line parse_lines scan split_lines
  print_lines-written [] mp h = ([], refl, refl)
  print_lines-written (key ∷ ks) mp ((v, found, k, w, fits), h) =
      let (rest, e, p) = print_lines-written ks (assign key (read_back v) mp) h in
      let l = line key v in
      let written : print_line key (lookup key o) ≡ some l =
        rw found (rw (print_value-written v w) refl) in
      (
        l ++ b'\r' ∷ b'\n' ∷ rest,
        rw written (rw e refl),
        parse_lines-line key v rest mp k w fits ∙ rw found p,
      )

  lookup-assign_all :
      (key : Text) (ks : List Text) (mp : Settings)
      → lookup key (assign_all ks mp) ≡ (
          if any (text_eq key) ks
          then some (read_back (value_of (lookup key o)))
          else lookup key mp)
  lookup-assign_all key [] mp = refl
  lookup-assign_all key (k ∷ ks) mp = elim (Bool-cases (text_eq k key)) [
    | inl e ↦
        let same = (text_eq_iff k key).0 e in
        ground (
          arith,
          lookup-assign_all key ks (assign k (read_back (value_of (lookup k o))) mp),
          lookup-assign key k (read_back (value_of (lookup k o))) mp,
          text_eq_sym k key,
          ap (λ t. lookup t o) same,
        )
    | inr e ↦ ground (
      arith,
      lookup-assign_all key ks (assign k (read_back (value_of (lookup k o))) mp),
      lookup-assign key k (read_back (value_of (lookup k o))) mp,
      text_eq_sym k key,
    )
  ]

any-insert_text :
    (p : Text → Bool) (s : Text) (ts : List Text) → any p (insert_text s ts) ≡ (p s || any p ts)
unfolding insert_text
any-insert_text p s [] = refl
any-insert_text p s (t ∷ ts) = ground (arith, any-insert_text p s ts)

any-sort_texts : (p : Text → Bool) (ts : List Text) → any p (sort_texts ts) ≡ any p ts
unfolding sort_texts
any-sort_texts p [] = refl
any-sort_texts p (t ∷ ts) =
    any-insert_text p t (sort_texts ts) ∙ ap (λ b. p t || b) (any-sort_texts p ts)

keys-some :
    (key : Text) (o : Settings)
    → any (text_eq key) (keys o) ≡ true
    → (v : Value) × (lookup key o ≡ some v)
unfolding keys lookup
keys-some key [] h = cc
keys-some key ((k, v) ∷ o) h = elim (Bool-cases (text_eq k key)) [
  | inl e ↦ (v, rw e refl)
  | inr e ↦
      let back = text_eq_sym k key in let (w, q) = keys-some key o (ground arith) in (w, rw e q)
]

keys-none : (key : Text) (o : Settings) → any (text_eq key) (keys o) ≡ false → lookup key o ≡ none
unfolding keys lookup
keys-none key [] h = refl
keys-none key ((k, v) ∷ o) h = ground (arith, keys-none key o, text_eq_sym k key)

all_written :
    (o : Settings) (ks : List Text)
    → ((key : Text) → any (text_eq key) ks ≡ true → Written o key)
    → AllWritten o ks
all_written o [] h = tt
all_written o (key ∷ ks) h =
    let self = text_eq_refl key in
    (h key (ground arith), all_written o ks (λ k e. h k (ground arith)))

abbrev pub read_back_of : Option Value → Option Value
read_back_of none = none
read_back_of (some v) = some (read_back v)

-- A file of settings is read back as it was written. When each key of the map and its value are such as the format can
-- hold (a key is not "", has no white space around it, no colon and no line feed and does not begin with `#`; a number
-- is an int; a text has no white space around it and no line feed; the line is shorter than 65536 bytes),
-- Marshal gives a text, Unmarshal reads that text, and the map that it reads holds under every key what the first
-- one held, a truth value as the number 1 or 0, and under no other key anything.
pub unmarshal-marshal :
    (o : Settings)
    → ((key : Text) (v : Value) → lookup key o ≡ some v → IsKey key × IsValue v × Fits key v)
    → (s : Text) × (mp : Settings) × (marshal o ≡ some s)
      × (unmarshal s ≡ some mp)
      × ((key : Text) → lookup key mp ≡ read_back_of (lookup key o))
unfolding marshal unmarshal lookup
unmarshal-marshal o h =
    let ks = sort_texts (keys o) in
    let written : (key : Text) → any (text_eq key) ks ≡ true → Written o key = λ key e.
      let (v, found) = keys-some key o (sym (any-sort_texts (text_eq key) (keys o)) ∙ e) in
      let (k, w, fits) = h key v found in (v, found, k, w, fits) in
    let (s, m, p) = print_lines-written o ks [] (all_written o ks written) in
    (
      s,
      assign_all o ks [],
      m,
      p,
      λ key. elim (Bool-cases (any (text_eq key) ks)) [
        | inl e ↦
            let (v, found, k, w, fits) = written key e in
            lookup-assign_all o key ks [] ∙ rw e (rw found refl)
        | inr e ↦
            let missing = keys-none key o (sym (any-sort_texts (text_eq key) (keys o)) ∙ e) in
            lookup-assign_all o key ks [] ∙ rw e (rw missing refl)
      ],
    )
