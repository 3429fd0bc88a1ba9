-- ===== src/Rdp/Builder.antt =====
-- The builder of RDP files, cmd/rdpgw/rdp/rdp.go. Reading a file is a library's.
use home_rdp_gateway.Base.{
  Bool, true, false, not, ◌&&◌, ◌||◌, ◌==◌, Option, some, List, [], ◌∷◌, ◌++◌, any, if◌then◌else◌,
}
use home_rdp_gateway.Base.Texts.{Text, text_eq, codes}
use home_rdp_gateway.Base.Options.{◌>>=◌}
use home_rdp_gateway.Base.Integers.{ℤ, pos, negsuc}
use home_rdp_gateway.Go.Strings.{is_empty}
use home_rdp_gateway.Go.Strconv.{atoi, format_int}
use home_rdp_gateway.Rdp.Settings.{Kind, a_bool, an_int, a_string, Field, rdp_fields}

-- The value of a field.
pub data Setting : Type 0 where
  flag : Bool → Setting
  number : ℤ → Setting
  text : Text → Setting

-- The fields of the settings with their values, and the names that were not set when a file was decoded.
pub record Builder : Type 0 where
  pub settings : List (Field × Setting)
  pub unset : List Text

abbrev pub zero_of : Kind → Setting
zero_of a_bool = flag false
zero_of an_int = number (pos 0)
zero_of a_string = text []

abbrev pub is_true : Text → Bool
is_true v = text_eq v (codes "true") || text_eq v (codes "1")

-- setVariable: the value that a field gets; `none` is an error.
unfoldable pub set_variable : Kind → Text → Option Setting
unfolding atoi
set_variable a_string v = some (text v)
set_variable an_int v = do i ← atoi v; some (number i)
set_variable a_bool v = some (flag (is_true v))

-- The value of a field after initStruct.
unfoldable pub init_field : Field → Option Setting
unfolding set_variable
init_field f = if is_empty f.default then some (zero_of f.kind) else set_variable f.kind f.default

-- initStruct of the zero values; `none` where the program ends.
unfoldable pub init_struct : List Field → Option (List (Field × Setting))
unfolding init_field
init_struct [] = some []
init_struct (f ∷ fs) = do v ← init_field f; rest ← init_struct fs; some ((f, v) ∷ rest)

unfoldable pub new_builder : Option Builder
unfolding init_struct
new_builder = do c ← init_struct rdp_fields; some (record { settings = c; unset = [] })

abbrev pub int_eq : ℤ → ℤ → Bool
int_eq (pos m) (pos n) = m == n
int_eq (negsuc m) (negsuc n) = m == n
int_eq (pos m) (negsuc n) = false
int_eq (negsuc m) (pos n) = false

abbrev pub flag_eq : Bool → Bool → Bool
flag_eq true b = b
flag_eq false b = not b

-- The value is the zero value of its type.
abbrev pub is_zero_value : Setting → Bool
is_zero_value (flag b) = not b
is_zero_value (number n) = int_eq n (pos 0)
is_zero_value (text t) = is_empty t

-- isZero; `none` where the program ends.
abbrev pub is_default : Text → Setting → Option Bool
is_default t (text v) = some (text_eq v t)
is_default t (flag b) = some (flag_eq b (is_true t))
is_default t (number n) = do i ← atoi t; some (int_eq n i)

unfoldable pub is_zero : Field → Setting → Option Bool
unfolding atoi
is_zero f v = if is_empty f.default then some (is_zero_value v) else is_default f.default v

unfoldable pub is_set : Field → List Text → Bool
is_set f unset = any (λ v. text_eq v f.name) unset

-- The line of a field without its end.
unfoldable pub field_line : Field → Setting → Text
unfolding format_int
field_line f (text v) = f.tag ++ (codes ":s:" ++ v)
field_line f (number n) = f.tag ++ (codes ":i:" ++ format_int n)
field_line f (flag true) = f.tag ++ codes ":i:1"
field_line f (flag false) = f.tag ++ codes ":i:0"

unfoldable pub add_struct_to_string : List (Field × Setting) → List Text → Option Text
unfolding is_zero is_set field_line
add_struct_to_string [] unset = some []
add_struct_to_string ((f, v) ∷ st) unset = do
  zero ← is_zero f v
  rest ← add_struct_to_string st unset
  some (if zero && not (is_set f unset) then rest else field_line f v ++ b'\r' ∷ b'\n' ∷ rest)

-- String.
unfoldable pub to_string : Builder → Option Text
unfolding add_struct_to_string
to_string b = add_struct_to_string b.settings b.unset
