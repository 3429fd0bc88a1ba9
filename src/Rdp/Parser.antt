-- ===== src/Rdp/Parser.antt =====
-- cmd/rdpgw/rdp/koanf/parsers/rdp/rdp.go: the lines of an RDP file, read and written. Texts are lists of code
-- points; the limit on a line is one on its bytes in UTF-8.
use home_rdp_gateway.Base.{
  ℕ, Bool, true, false, ◌||◌, ◌==◌, ltb, Option, none, some, List, [], ◌∷◌, ◌++◌, length,
  if◌then◌else◌,
}
use home_rdp_gateway.Base.Texts.{Text, text_eq, codes}
use home_rdp_gateway.Base.Assoc.{lookup, assign}
use home_rdp_gateway.Base.Options.{◌>>=◌}
use home_rdp_gateway.Base.Integers.{ℤ}
use home_rdp_gateway.Go.Strings.{trim_space, is_empty, has_prefix, cut}
use home_rdp_gateway.Go.Strconv.{atoi, format_int}
use home_rdp_gateway.Identity.User.{sort_texts}
use home_rdp_gateway.Utf.Utf8.{encode_runes}

-- A value of any type, as far as Marshal tells the types apart.
pub data Value : Type 0 where
  truth : Bool → Value
  number : ℤ → Value
  text : Text → Value
  other : Value

abbrev pub Settings : Type 0
Settings = List (Text × Value)

abbrev pub push : ℕ → List Text → List Text
push c [] = (c ∷ []) ∷ []
push c (line ∷ lines) = (c ∷ line) ∷ lines

-- The pieces of a text that line feeds end; an empty piece at the end is none.
unfoldable pub split_lines : Text → List Text
split_lines [] = []
split_lines (c ∷ s) = let rest = split_lines s in if c == b'\n' then [] ∷ rest else push c rest

-- A line without the carriage return at its end.
unfoldable pub drop_cr : Text → Text
drop_cr [] = []
drop_cr (c ∷ []) = if c == b'\r' then [] else c ∷ []
drop_cr (c ∷ d ∷ s) = c ∷ drop_cr (d ∷ s)

-- The size of the buffer of a bufio.Scanner, bufio.MaxScanTokenSize.
abbrev pub max_scan_token_size : ℕ
max_scan_token_size = 65536

-- The lines that the scanner gives: it stops, with an error that it keeps, at one that its buffer cannot hold.
unfoldable pub scan : List Text → List Text
unfolding encode_runes drop_cr
scan [] = []
scan (line ∷ lines) =
    let rest = scan lines in
    if ltb (length (encode_runes line)) max_scan_token_size then drop_cr line ∷ rest else []

-- `strings.SplitN(line, ":", 3)`, `none` where there are less than three fields.
unfoldable pub three_fields : Text → Option (Text × Text × Text)
unfolding cut
three_fields line = do
  first ← cut b':' line
  second ← cut b':' first.1
  some (first.0, second.0, second.1)

-- The value of a type and a text; `none` is an error.
unfoldable pub parse_value : Text → Text → Option Value
unfolding atoi
parse_value t val =
    if text_eq t (codes "i")
    then (do n ← atoi val; some (number n))
    else if text_eq t (codes "s") || text_eq t (codes "b")
    then some (text val)
    else none

unfoldable pub parse_fields : Text → Settings → Option Settings
unfolding three_fields parse_value trim_space assign
parse_fields line mp = do
  fields ← three_fields line
  value ← parse_value (trim_space fields.1) (trim_space fields.2)
  some (assign (trim_space fields.0) value mp)

-- The map after one line of the file.
unfoldable pub parse_line : Text → Settings → Option Settings
unfolding parse_fields trim_space
parse_line raw mp =
    let line = trim_space raw in
    if is_empty line || has_prefix line (codes "#") then some mp else parse_fields line mp

unfoldable pub parse_lines : List Text → Settings → Option Settings
unfolding parse_line
parse_lines [] mp = some mp
parse_lines (line ∷ lines) mp = do after ← parse_line line mp; parse_lines lines after

unfoldable pub unmarshal : Text → Option Settings
unfolding parse_lines scan split_lines
unmarshal b = parse_lines (scan (split_lines b)) []

-- What Marshal writes behind a key; `none` is an error.
unfoldable pub print_value : Value → Option Text
unfolding format_int
print_value (truth true) = some (codes ":i:1")
print_value (truth false) = some (codes ":i:0")
print_value (number n) = some (codes ":i:" ++ format_int n)
print_value (text v) = some (codes ":s:" ++ v)
print_value other = none

unfoldable pub print_line : Text → Option Value → Option Text
unfolding print_value
print_line key none = none
print_line key (some v) = do written ← print_value v; some (key ++ written)

unfoldable pub print_lines : List Text → Settings → Option Text
unfolding print_line lookup
print_lines [] o = some []
print_lines (key ∷ keys) o = do
  line ← print_line key (lookup key o)
  rest ← print_lines keys o
  some (line ++ b'\r' ∷ b'\n' ∷ rest)

unfoldable pub keys : Settings → List Text
keys [] = []
keys ((key, v) ∷ o) = key ∷ keys o

unfoldable pub marshal : Settings → Option Text
unfolding print_lines keys sort_texts
marshal o = print_lines (sort_texts (keys o)) o
