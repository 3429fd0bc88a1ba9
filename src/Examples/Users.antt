-- ===== src/Examples/Users.antt =====
-- The users of the dashboard.
use home_rdp_gateway.Base.{ℕ, true, Option, none, some, List, [], ◌∷◌}
use home_rdp_gateway.Dashboard.File.{WriteFault, rename}
use home_rdp_gateway.Dashboard.AuthUsers.{AuthUser}
use home_rdp_gateway.Dashboard.AuthUsers.View.{Call, puts, deletes}

abbrev user : ℕ → ℕ → AuthUser
user name at = record {
  username = name ∷ [];
  password = b'p' ∷ [];
  enabled = true;
  created_at = at;
  updated_at = at;
}

abbrev two_users : List AuthUser
two_users = user b'a' 1 ∷ user b'b' 2 ∷ []

abbrev some_calls : List (ℕ × Option WriteFault × Call)
some_calls =
    (7, none, puts (user b'c' 0))
    ∷ (8, some rename, deletes (b'a' ∷ []))
    ∷ (9, none, deletes (b'b' ∷ []))
    ∷ []
