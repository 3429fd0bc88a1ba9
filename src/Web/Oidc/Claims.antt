-- ===== src/Web/Oidc/Claims.antt =====
-- The claims of an ID token in cmd/rdpgw/web/oidc.go, and the identity that they give.
use home_rdp_gateway.Base.{not, Option, none, some, List, [], ◌∷◌, if◌then◌else◌}
use home_rdp_gateway.Base.Texts.{Text, codes}
use home_rdp_gateway.Base.Assoc.{lookup}
use home_rdp_gateway.Base.Options.{◌>>=◌, demand}
use home_rdp_gateway.Go.Strings.{is_empty}
use home_rdp_gateway.Identity.User.{User, set_groups}

-- An element of a list of any type: a text, or something else.
pub data Element : Type 0 where
  name : Text → Element
  other : Element

-- A value of any type, as far as the code tells the types apart.
pub data Claim : Type 0 where
  text : Text → Claim
  texts : List Text → Claim
  elements : List Element → Claim
  other : Claim

abbrev pub Claims : Type 0
Claims = List (Text × Claim)

-- The assertion `data[claim].(string)`.
abbrev pub as_text : Option Claim → Option Text
as_text (some (Claim.text t)) = some t
as_text (some (Claim.texts ts)) = none
as_text (some (Claim.elements es)) = none
as_text (some Claim.other) = none
as_text none = none

unfoldable pub text_claim : Claims → Text → Option Text
unfolding lookup
text_claim claims claim = as_text (lookup claim claims)

unfoldable pub find_candidate : Claims → List Text → Text
unfolding text_claim
find_candidate claims [] = []
find_candidate claims (candidate ∷ candidates) =
    let rest = find_candidate claims candidates in
    elim (text_claim claims candidate) [ some user_name ↦ user_name | none ↦ rest ]

abbrev pub candidates : List Text
candidates = codes "preferred_username" ∷ codes "unique_name" ∷ codes "upn" ∷ codes "username" ∷ []

unfoldable pub find_username_in_claims : Claims → Text
unfolding find_candidate
find_username_in_claims claims = find_candidate claims candidates

unfoldable pub names : List Element → List Text
names [] = []
names (name t ∷ es) = t ∷ names es
names (Element.other ∷ es) = names es

unfoldable pub extract_groups : Option Claim → List Text
unfolding names
extract_groups (some (Claim.texts groups)) = groups
extract_groups (some (Claim.elements groups)) = names groups
extract_groups (some (Claim.text group)) = group ∷ []
extract_groups (some Claim.other) = []
extract_groups none = []

abbrev pub with_email : Option Text → User → User
with_email none id = id
with_email (some email) id = record id { email = email }

abbrev pub with_display_name : Option Text → Option Text → User → User
with_display_name (some n) other_name id = record id { display_name = n }
with_display_name none (some n) id = record id { display_name = n }
with_display_name none none id = id

abbrev pub default_claim : Text → Text
default_claim groups_claim = if is_empty groups_claim then codes "groups" else groups_claim

-- populateIdentityFromClaims, `none` for its error.
unfoldable pub populate_identity : Claims → Text → User → Option User
unfolding find_username_in_claims extract_groups text_claim lookup set_groups
populate_identity claims groups_claim id = do
  named ← demand (not (is_empty (find_username_in_claims claims)))
  some (
      set_groups (extract_groups (lookup (default_claim groups_claim) claims)) (
        with_display_name (text_claim claims (codes "name"))
          (text_claim claims (codes "display_name"))
          (with_email (text_claim claims (codes "email"))
            (record id { user_name = find_username_in_claims claims }))))
