-- ===== src/Auth/Service.antt =====
-- The check of a name and a password of cmd/auth/auth.go. bcrypt is a library: `matches` is whether it
-- accepts a hash and a password.
use home_rdp_gateway.Base.{◌≡◌, ◌↔◌, ◌⊎◌, inl, inr, refl, Bool, true, false, [], if◌then◌else◌}
use home_rdp_gateway.Base.Texts.{Text, text_eq, text_eq_iff, codes}
use home_rdp_gateway.Go.Strings.{is_empty}
use home_rdp_gateway.Auth.Users.{Config, Disk, get_password}

pub record UserPass : Type 0 where
  pub username : Text
  pub password : Text

pub record AuthResponse : Type 0 where
  pub authenticated : Bool
  pub error : Text

abbrev pub accepted : AuthResponse
accepted = record { authenticated = true; error = [] }

abbrev pub failure : AuthResponse
failure = record { authenticated = false; error = codes "Authentication failure" }

abbrev deciding_of : Bool → Bool → Bool → AuthResponse
deciding_of e m t = if e then failure else if m then accepted else if t then accepted else failure

deciding :
    (e m t : Bool) {P : Type 0}
    → ((t ≡ true) ↔ P)
    → (((deciding_of e m t).authenticated ≡ true) ↔ ((e ≡ false) × ((m ≡ true) ⊎ P)))
      × ((deciding_of e m t ≡ accepted) ⊎ (deciding_of e m t ≡ failure))
deciding true m t (to, from) = ((λ h. cc, λ (h, k). cc), inr refl)
deciding false true t (to, from) = ((λ h. (refl, inl refl), λ k. refl), inl refl)
deciding false false true (to, from) = ((λ h. (refl, inr (to refl)), λ k. refl), inl refl)
deciding false false false (to, from) =
    ((λ h. cc, λ (h, k). elim k [ inl b ↦ cc | inr p ↦ let q = from p in cc ]), inr refl)

module _ (matches : Text → Text → Bool) where
  -- The tests of the stored password.
  unfoldable pub check_password : Text → Text → AuthResponse
  check_password stored password =
      if is_empty stored
      then failure
      else if matches stored password
      then accepted
      else if text_eq stored password
      then accepted
      else failure

  unfoldable pub authenticate : Disk → UserPass → Config → Config × AuthResponse
  authenticate d message c =
      let (after, stored) = get_password d message.username c in
      (after, check_password stored message.password)

  -- A name and a password are accepted exactly when the stored password is not empty and bcrypt accepts
  -- them or the texts are equal; so the text of a stored hash is accepted as a password. There are two answers
  -- only: an unknown name and a wrong password have the same.
  pub authenticate_iff :
      (d : Disk) (message : UserPass) (c : Config)
      → let stored = (get_password d message.username c).1 in
        (((authenticate d message c).1.authenticated ≡ true) ↔ (
          (is_empty stored ≡ false)
          × ((matches stored message.password ≡ true) ⊎ (stored ≡ message.password))))
        × (((authenticate d message c).1 ≡ accepted) ⊎ ((authenticate d message c).1 ≡ failure))
  unfolding authenticate check_password
  authenticate_iff d message c =
      let stored = (get_password d message.username c).1 in
      deciding (is_empty stored) (matches stored message.password) (text_eq stored message.password)
        (text_eq_iff stored message.password)
