-- ===== src/Prelude/Throws.antt =====
-- Chains of optional results: nothing is a C++ exception where the source throws.
use mathlib.Core.Path.{◌≡◌, refl}
use mathlib.Core.Bool.{Bool, true, false}
use mathlib.Core.Option.{Option, none, some}

infixl 5 ◌>>=◌ ◌>>◌
abbrev pub ◌>>=◌ {ℓ κ} : {A : Type ℓ} {B : Type κ} → Option A → (A → Option B) → Option B
none >>= f = none
some a >>= f = f a

abbrev pub ◌>>◌ {ℓ κ} : {A : Type ℓ} {B : Type κ} → Option A → Option B → Option B
m >> k = m >>= λ _. k

-- `if (test) throw ...;`
abbrev pub throw_if : Bool → Option Bool
throw_if true = none
throw_if false = some true

-- A result that is there was reached through a first result.
pub >>=-eq-some {ℓ κ} :
    {A : Type ℓ} {B : Type κ} (m : Option A) (f : A → Option B) {b : B}
    → (m >>= f) ≡ some b
    → (a : A) × (m ≡ some a) × (f a ≡ some b)
>>=-eq-some none f h = cc
>>=-eq-some (some a) f h = (a, refl, h)

-- What the first result and the rest give, the whole gives.
pub >>=-found {ℓ κ μ} :
    {A : Type ℓ} {B : Type κ} {Goal : Type μ} (m : Option A) (f : A → Option B) {b : B}
    → (m >>= f) ≡ some b
    → ((a : A) → m ≡ some a → f a ≡ some b → Goal)
    → Goal
>>=-found m f h go = let found = >>=-eq-some m f h in go found.0 found.1 found.2
