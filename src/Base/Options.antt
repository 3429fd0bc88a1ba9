-- ===== src/Base/Options.antt =====
-- Chains of calls that may fail.
use mathlib.Core.Path.{◌≡◌, refl}
use mathlib.Core.Bool.{Bool, true, false}
use mathlib.Core.Option.{Option, none, some}

infixl 5 ◌>>=◌
abbrev pub ◌>>=◌ {ℓ κ} : {A : Type ℓ} {B : Type κ} → Option A → (A → Option B) → Option B
none >>= f = none
some a >>= f = f a

-- An early return: the chain ends where the test fails.
abbrev pub demand : Bool → Option Bool
demand true = some true
demand false = none

pub chain-some {ℓ κ} :
    {A : Type ℓ} {B : Type κ} (o : Option A) (f : A → Option B) (b : B)
    → (o >>= f) ≡ some b
    → (a : A) × (o ≡ some a) × (f a ≡ some b)
chain-some none f b h = cc
chain-some (some a) f b h = (a, refl, h)

pub demand-some {ℓ} :
    {B : Type ℓ} (t : Bool) (f : Bool → Option B) (b : B)
    → (demand t >>= f) ≡ some b
    → (t ≡ true) × (f true ≡ some b)
demand-some true f b h = (refl, h)
demand-some false f b h = cc

pub demand-true : (t b : Bool) → demand t ≡ some b → t ≡ true
demand-true true b h = refl
demand-true false b h = cc
