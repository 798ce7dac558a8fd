-- ===== src/Base/Options.antt =====
-- Chains of steps that may fail, for `do` blocks.
use mathlib.Core.Bool.{Bool, true, false}
use mathlib.Core.Option.{Option, none, some}
use mathlib.Core.Path.{◌≡◌, refl}
use native.Mathlib.Omega.{arith}

infixl 5 ◌>>=◌ ◌>>◌
abbrev pub ◌>>=◌ {ℓ κ} : {A : Type ℓ} {B : Type κ} → Option A → (A → Option B) → Option B
none >>= f = none
some a >>= f = f a

abbrev pub ◌>>◌ {ℓ} : {B : Type ℓ} → Option (Unit {0}) → Option B → Option B
m >> k = m >>= λ _. k

-- The early return of a failed test.
abbrev pub refuse : Bool → Option (Unit {0})
refuse true = none
refuse false = some tt

-- A chain that gave a result passed each of its tests and steps.
pub refuse-passed {ℓ} :
    {B : Type ℓ} (t : Bool) (k : Option B) {b : B}
    → (refuse t >> k) ≡ some b
    → (t ≡ false) × (k ≡ some b)
refuse-passed true k h = ground arith
refuse-passed false k h = (refl, h)

pub bind-passed {ℓ κ} :
    {A : Type ℓ} {B : Type κ} (m : Option A) (f : A → Option B) {b : B}
    → (m >>= f) ≡ some b
    → (a : A) × (m ≡ some a) × (f a ≡ some b)
bind-passed none f h = ground arith
bind-passed (some a) f h = (a, refl, h)

-- What holds of the result, where there is one.
abbrev pub OnSome {ℓ κ} : {A : Type ℓ} → (A → Type κ) → Option A → Type κ
OnSome P none = Unit
OnSome P (some a) = P a

pub bind-OnSome {ℓ κ μ} :
    {A : Type ℓ} {B : Type κ} (P : B → Type μ) (m : Option A) (f : A → Option B)
    → ((a : A) → OnSome P (f a))
    → OnSome P (m >>= f)
bind-OnSome P none f h = tt
bind-OnSome P (some a) f h = h a
