-- ===== src/Kdc/Places.antt =====
-- The servers of a realm.
use home_rdp_gateway.Base.{
  ℕ, zero, suc, ◌≤◌, ◌≡◌, ◌↔◌, ◌⊎◌, inl, inr, sym, ap, ◌∙◌, ◌==◌, Bool-cases, Option, none, some,
  List, [], ◌∷◌, ◌++◌, arith,
}
use home_rdp_gateway.Base.Texts.{Text}
use home_rdp_gateway.Base.Members.{IsIn}
use home_rdp_gateway.Kdc.{one_kdc, collect, Proto, udp, tcp, Kdc, Krb5Config, Servers, kdcs_of}

IsIn-append : {A : Type 0} (x : A) (xs ys : List A) → IsIn x (xs ++ ys) → IsIn x xs ⊎ IsIn x ys
IsIn-append x [] ys m = inr m
IsIn-append x (y ∷ xs) ys (inl e) = inl (inl e)
IsIn-append x (y ∷ xs) ys (inr m) = elim (IsIn-append x xs ys m) [
  | inl k ↦ inl (inr k)
  | inr k ↦ inr k
]

IsIn-append_left : {A : Type 0} (x : A) (xs ys : List A) → IsIn x xs → IsIn x (xs ++ ys)
IsIn-append_left x [] ys m = absurd m
IsIn-append_left x (y ∷ xs) ys (inl e) = inl e
IsIn-append_left x (y ∷ xs) ys (inr m) = inr (IsIn-append_left x xs ys m)

IsIn-append_right : {A : Type 0} (x : A) (xs ys : List A) → IsIn x ys → IsIn x (xs ++ ys)
IsIn-append_right x [] ys m = m
IsIn-append_right x (y ∷ xs) ys m = inr (IsIn-append_right x xs ys m)

-- The server is at one of the places from 0 to the number of the servers.
abbrev pub IsAmong : Text → Proto → Servers → Kdc → Type 0
IsAmong realm proto s kdc =
    (n : ℕ) × (n ≤ s.count) × (s.at n ≡ some kdc.host) × (kdc.realm ≡ realm) × (kdc.proto ≡ proto)

one_kdc-host :
    (realm : Text) (proto : Proto) (o : Option Text) (kdc : Kdc)
    → IsIn kdc (one_kdc realm proto o)
    → (o ≡ some kdc.host) × (kdc.realm ≡ realm) × (kdc.proto ≡ proto)
one_kdc-host realm proto none kdc m = absurd m
one_kdc-host realm proto (some host) kdc (inr m) = absurd m
one_kdc-host realm proto (some host) kdc (inl e) = (
  ap (λ (k : Kdc). some k.host) (sym e),
  ap (λ (k : Kdc). k.realm) e,
  ap (λ (k : Kdc). k.proto) e,
)

at_place :
    (realm : Text) (proto : Proto) (o : Option Text) (kdc : Kdc)
    → o ≡ some kdc.host
    → kdc.realm ≡ realm
    → kdc.proto ≡ proto
    → IsIn kdc (one_kdc realm proto o)
at_place realm proto none kdc e r p = cc
at_place realm proto (some host) kdc e r p =
    let same : host ≡ kdc.host = cc in
    inl (λ i. record { realm = r i; host = sym same i; proto = p i })

collect_to :
    (realm : Text) (proto : Proto) (at : ℕ → Option Text) (n : ℕ) (kdc : Kdc)
    → IsIn kdc (collect realm proto at n)
    → IsAmong realm proto (record { count = n; at = at }) kdc
collect_to realm proto at zero kdc m =
    let (e, r, p) = one_kdc-host realm proto (at 0) kdc m in (0, omega arith, e, r, p)
collect_to realm proto at (suc n) kdc m =
    elim (IsIn-append kdc (collect realm proto at n) (one_kdc realm proto (at (suc n))) m) [
      | inl k ↦
          let (i, low, e, r, p) = collect_to realm proto at n kdc k in (i, omega arith, e, r, p)
      | inr k ↦
          let (e, r, p) = one_kdc-host realm proto (at (suc n)) kdc k in
          (suc n, omega arith, e, r, p)
    ]

collect_from :
    (realm : Text) (proto : Proto) (at : ℕ → Option Text) (n : ℕ) (kdc : Kdc)
    → IsAmong realm proto (record { count = n; at = at }) kdc
    → IsIn kdc (collect realm proto at n)
collect_from realm proto at zero kdc (i, low, e, r, p) =
    let first : i ≡ 0 = omega arith in at_place realm proto (at 0) kdc (ap at (sym first) ∙ e) r p
collect_from realm proto at (suc n) kdc (i, low, e, r, p) = elim (Bool-cases (i == suc n)) [
  | inl last ↦
      let here : i ≡ suc n = ground arith in
      IsIn-append_right kdc (collect realm proto at n) (one_kdc realm proto (at (suc n)))
        (at_place realm proto (at (suc n)) kdc (ap at (sym here) ∙ e) r p)
  | inr other ↦
      IsIn-append_left kdc (collect realm proto at n) (one_kdc realm proto (at (suc n)))
        (collect_from realm proto at n kdc (i, ground arith, e, r, p))
]

-- The servers of a realm are those for UDP and those for TCP.
pub kdcs_of-IsAmong :
    (config : Krb5Config) (realm : Text) (u t : Servers) (kdc : Kdc)
    → IsIn kdc (kdcs_of config realm u t) ↔ (IsAmong realm udp u kdc ⊎ IsAmong realm tcp t kdc)
unfolding kdcs_of
kdcs_of-IsAmong config realm u t kdc =
    let first = collect realm udp u.at u.count in
    let others = collect realm tcp t.at t.count in
    (
      (λ m. elim (IsIn-append kdc first others m) [
        | inl k ↦ inl (collect_to realm udp u.at u.count kdc k)
        | inr k ↦ inr (collect_to realm tcp t.at t.count kdc k)
      ]),
      (λ s. elim s [
        | inl k ↦ IsIn-append_left kdc first others (collect_from realm udp u.at u.count kdc k)
        | inr k ↦ IsIn-append_right kdc first others (collect_from realm tcp t.at t.count kdc k)
      ]),
    )
