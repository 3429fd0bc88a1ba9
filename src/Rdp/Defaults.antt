-- ===== src/Rdp/Defaults.antt =====
-- The settings that the builder leaves out are those that a field has by default.
use home_rdp_gateway.Base.{
  ◌≡◌, refl, sym, ap, Bool, true, false, Bool-cases, Option-cases, inl, inr, Option, none, some, [],
  ◌∷◌, arith,
}
use home_rdp_gateway.Base.Texts.{Text, text_eq_iff}
use home_rdp_gateway.Base.Integers.{ℤ, pos, negsuc}
use home_rdp_gateway.Go.Strings.{is_empty}
use home_rdp_gateway.Go.Strconv.{atoi}
use home_rdp_gateway.Rdp.Settings.{Kind, a_bool, an_int, a_string, Field}
use home_rdp_gateway.Rdp.Builder.{
  Setting, flag, number, text, set_variable, init_field, is_zero, int_eq, flag_eq, is_true,
  is_zero_value, is_default, zero_of,
}

-- The value is of the kind of the field.
abbrev pub HasKind : Kind → Setting → Type 0
HasKind a_bool (flag b) = Unit
HasKind an_int (number n) = Unit
HasKind a_string (text t) = Unit
HasKind _ _ = ⊥

int_eq-same : (m n : ℤ) → int_eq m n ≡ true → m ≡ n
int_eq-same (pos m) (pos n) h = ground arith
int_eq-same (negsuc m) (negsuc n) h = ground arith
int_eq-same (pos m) (negsuc n) h = cc
int_eq-same (negsuc m) (pos n) h = cc

flag_eq-same : (a b : Bool) → flag_eq a b ≡ true → a ≡ b
flag_eq-same true b h = sym h
flag_eq-same false true h = cc
flag_eq-same false false h = refl

zero_of-same : (k : Kind) (v : Setting) → HasKind k v → is_zero_value v ≡ true → zero_of k ≡ v
zero_of-same a_bool (flag true) h z = cc
zero_of-same a_bool (flag false) h z = refl
zero_of-same an_int (number n) h z = ap number (sym (int_eq-same n (pos 0) z))
zero_of-same a_string (text []) h z = refl
zero_of-same a_string (text (c ∷ t)) h z = cc
zero_of-same a_bool (number n) h z = absurd h
zero_of-same a_bool (text t) h z = absurd h
zero_of-same an_int (flag b) h z = absurd h
zero_of-same an_int (text t) h z = absurd h
zero_of-same a_string (flag b) h z = absurd h
zero_of-same a_string (number n) h z = absurd h

-- The default of a field parses, and a value is written unless it is the default.
is_default-known :
    (k : Kind) (t : Text) (v d : Setting)
    → HasKind k v
    → set_variable k t ≡ some d
    → (z : Bool) × (is_default t v ≡ some z) × (z ≡ true → d ≡ v)
unfolding set_variable
is_default-known a_bool t (flag b) d h e =
    (_, refl, λ q. let same = flag_eq-same b (is_true t) q in ground arith)
is_default-known a_string t (text s) d h e =
    (_, refl, λ q. let same = (text_eq_iff s t).0 q in ground arith)
is_default-known an_int t (number n) d h e = elim (Option-cases (atoi t)) [
  | inl a ↦ let bad : ◌≡◌ {A = Option Setting} none (some d) = rw (a, set_variable) at e in cc
  | inr (i, a) ↦
      let known : ◌≡◌ {A = Option Setting} (some (number i)) (some d) = rw (a, set_variable) at e in
      (int_eq n i, rw a refl, λ q. let same = int_eq-same n i q in ground arith)
]
is_default-known a_bool t (number n) d h e = absurd h
is_default-known a_bool t (text s) d h e = absurd h
is_default-known an_int t (flag b) d h e = absurd h
is_default-known an_int t (text s) d h e = absurd h
is_default-known a_string t (flag b) d h e = absurd h
is_default-known a_string t (number n) d h e = absurd h

pub is_zero-known :
    (f : Field) (v d : Setting)
    → HasKind f.kind v
    → init_field f ≡ some d
    → (z : Bool) × (is_zero f v ≡ some z) × (z ≡ true → d ≡ v)
unfolding is_zero init_field
is_zero-known f v d h e = elim (Bool-cases (is_empty f.default)) [
  | inl b ↦
      let zero : ◌≡◌ {A = Option Setting} (some (zero_of f.kind)) (some d) =
        rw (b, init_field) at e in
      (is_zero_value v, rw b refl, λ q. let same = zero_of-same f.kind v h q in ground arith)
  | inr b ↦
      let known : set_variable f.kind f.default ≡ some d = rw (b, init_field) at e in
      let (z, q, r) = is_default-known f.kind f.default v d h known in (z, rw b q, r)
]
