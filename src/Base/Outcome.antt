-- ===== src/Base/Outcome.antt =====
-- How a call ends that may also panics.
use mathlib.Core.Path.{◌≡◌, refl}
use Prim.Native.String.{String}
use mathlib.Core.Bool.{Bool, true, false}

pub data Outcome {ℓ} (A : Type ℓ) : Type ℓ where
  gives : A → Outcome A
  fails : String → Outcome A
  panics : Outcome A

infixl 5 ◌>>=◌ ◌>>◌
abbrev pub ◌>>=◌ {ℓ κ} : {A : Type ℓ} {B : Type κ} → Outcome A → (A → Outcome B) → Outcome B
gives a >>= next = next a
fails e >>= next = fails e
panics >>= next = panics

abbrev pub ◌>>◌ {ℓ} : {B : Type ℓ} → Outcome (Unit {0}) → Outcome B → Outcome B
first >> next = first >>= λ _. next

-- `if !test { return errors.New(e) }`
abbrev pub require : Bool → String → Outcome (Unit {0})
require true e = gives tt
require false e = fails e

-- A call that went well went well in each part.
pub >>=-eq-gives {ℓ κ} :
    {A : Type ℓ} {B : Type κ} (first : Outcome A) (next : A → Outcome B) {b : B}
    → (first >>= next) ≡ gives b
    → (a : A) × (first ≡ gives a) × (next a ≡ gives b)
>>=-eq-gives panics next h = cc
>>=-eq-gives (fails e) next h = cc
>>=-eq-gives (gives a) next h = (a, refl, h)

pub require-gives {ℓ} :
    {B : Type ℓ} (test : Bool) (e : String) (k : Outcome B) {b : B}
    → (require test e >> k) ≡ gives b
    → (test ≡ true) × (k ≡ gives b)
require-gives true e k h = (refl, h)
require-gives false e k h = cc
