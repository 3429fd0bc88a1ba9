-- ===== src/Rdp/WrittenLine.antt =====
-- A line that Marshal writes of a key and a value is read back by Unmarshal.
use home_rdp_gateway.Base.{
  ◌≡◌, refl, sym, ◌<◌, true, false, ◌||◌, ltb, some, [], ◌∷◌, ◌++◌, append_assoc, length, arith,
}
use home_rdp_gateway.Base.Texts.{Text, codes}
use home_rdp_gateway.Base.Assoc.{assign}
use home_rdp_gateway.Go.Strings.{is_space, is_empty, has_prefix, trim_space, trim_right, trim_left}
use home_rdp_gateway.Go.Trim.{
  StartsInk, trim_right-append, trimmed_ends, trimmed_from, trim_right-mark,
}
use home_rdp_gateway.Utf.Utf8.{encode_runes}
use home_rdp_gateway.Rdp.Parser.{
  Value, truth, number, text, other, Settings, split_lines, max_scan_token_size, scan, three_fields,
  parse_fields, parse_line, parse_lines,
}
use home_rdp_gateway.Rdp.Lines.{
  lacks, lacks-append, cut-lacks, split_lines-lacks, drop_cr-append, IsKey, IsValue, read_back, tag,
  digits, digits-IsText, parse_value-digits,
}

abbrev tail : Value → Text
tail v = b':' ∷ tag v ∷ b':' ∷ digits v

-- The line of a key and a value.
abbrev pub line : Text → Value → Text
line key v = key ++ tail v

tag-ink : (v : Value) → is_space (tag v) ≡ false
tag-ink (truth b) = refl
tag-ink (number n) = refl
tag-ink (text t) = refl
tag-ink other = refl

tail-right : (v : Value) → IsValue v → trim_right (tail v) ≡ tail v
tail-right v h =
    let (ink, right) = trimmed_ends (digits v) ((digits-IsText v h).0) in
    trim_right-mark b':' (tag v ∷ b':' ∷ digits v) refl (
      trim_right-mark (tag v) (b':' ∷ digits v) (tag-ink v)
        (trim_right-mark b':' (digits v) refl right))

append-StartsInk : (s t : Text) → is_empty s ≡ false → StartsInk s → StartsInk (s ++ t)
append-StartsInk [] t e h = let bad : true ≡ false = e in cc
append-StartsInk (c ∷ s) t e h = h

line-trimmed :
    (key : Text) (v : Value) → IsKey key → IsValue v → trim_space (line key v) ≡ line key v
line-trimmed key v (full, trimmed, colon, feed, hash) h =
    let (ink, right) = trimmed_ends key trimmed in
    trimmed_from (line key v) (append-StartsInk key (tail v) full ink)
      (trim_right-append key (tail v) refl (tail-right v h))

line-kept :
    (key t : Text)
    → is_empty key ≡ false
    → has_prefix key (codes "#") ≡ false
    → (is_empty (key ++ t) || has_prefix (key ++ t) (codes "#")) ≡ false
line-kept [] t e h = let bad : true ≡ false = e in cc
line-kept (c ∷ s) t e h = h

tag-lacks : (v : Value) → lacks b':' (tag v ∷ []) ≡ true
tag-lacks (truth b) = refl
tag-lacks (number n) = refl
tag-lacks (text t) = refl
tag-lacks other = refl

tag-trimmed : (v : Value) → trim_space (tag v ∷ []) ≡ tag v ∷ []
unfolding trim_space trim_left trim_right
tag-trimmed (truth b) = refl
tag-trimmed (number n) = refl
tag-trimmed (text t) = refl
tag-trimmed other = refl

line-fields :
    (key : Text) (v : Value)
    → lacks b':' key ≡ true
    → three_fields (line key v) ≡ some (key, tag v ∷ [], digits v)
unfolding three_fields
line-fields key v h =
    rw (cut-lacks b':' key (tag v ∷ b':' ∷ digits v) h)
      (rw (cut-lacks b':' (tag v ∷ []) (digits v) (tag-lacks v)) refl)

pub parse_line-written :
    (key : Text) (v : Value) (mp : Settings)
    → IsKey key
    → IsValue v
    → parse_line (line key v) mp ≡ some (assign key (read_back v) mp)
unfolding parse_line parse_fields
parse_line-written key v mp (full, trimmed, colon, feed, hash) h =
    let whole = line-trimmed key v (full, trimmed, colon, feed, hash) h in
    let kept = line-kept key (tail v) full hash in
    rw (whole, parse_line)
      (rw kept (
        rw (line-fields key v colon) (
          rw (tag-trimmed v)
            (rw ((digits-IsText v h).0) (rw (parse_value-digits v h) (rw trimmed refl))))))

tail-lacks :
    (v : Value) (t : Text) → lacks b'\n' t ≡ true → lacks b'\n' (b':' ∷ tag v ∷ b':' ∷ t) ≡ true
tail-lacks (truth b) t h = h
tail-lacks (number n) t h = h
tail-lacks (text w) t h = h
tail-lacks other t h = h

pub line-lacks : (key : Text) (v : Value) → IsKey key → IsValue v → lacks b'\n' (line key v) ≡ true
line-lacks key v (full, trimmed, colon, feed, hash) h =
    lacks-append b'\n' key (tail v) feed (tail-lacks v (digits v) ((digits-IsText v h).1))

-- The line, with the carriage return at its end, is one that the scanner can hold.
abbrev pub Fits : Text → Value → Type 0
Fits key v = length (encode_runes (line key v ++ b'\r' ∷ [])) < max_scan_token_size

-- In front of other lines it is read first.
pub parse_lines-line :
    (key : Text) (v : Value) (rest : Text) (mp : Settings)
    → IsKey key
    → IsValue v
    → Fits key v
    → parse_lines (scan (split_lines (line key v ++ b'\r' ∷ b'\n' ∷ rest))) mp
      ≡ parse_lines (scan (split_lines rest)) (assign key (read_back v) mp)
unfolding parse_lines scan
parse_lines-line key v rest mp k w fits =
    let l = line key v in
    let joined : l ++ b'\r' ∷ b'\n' ∷ rest ≡ (l ++ b'\r' ∷ []) ++ b'\n' ∷ rest =
      sym (append_assoc l (b'\r' ∷ []) (b'\n' ∷ rest)) in
    let feedless = lacks-append b'\n' l (b'\r' ∷ []) (line-lacks key v k w) refl in
    let small : ltb (length (encode_runes (l ++ b'\r' ∷ []))) max_scan_token_size ≡ true =
      ground arith in
    rw joined (
      rw (split_lines-lacks (l ++ b'\r' ∷ []) rest feedless)
        (rw (small, scan) (rw (drop_cr-append l) (rw (parse_line-written key v mp k w) refl))))
