-- ===== src/Base/Reply.antt =====
-- What a Go function that returns a value and an error returns.
use mathlib.Core.Path.{◌≡◌, refl}
use Prim.Native.String.{String}
use mathlib.Core.Bool.{Bool, true, false}

pub data Reply {ℓ} (A : Type ℓ) : Type ℓ where
  found : A → Reply A
  refused : String → Reply A

-- `if err != nil { return err }`
infixl 5 ◌>>=◌ ◌>>◌
abbrev pub ◌>>=◌ {ℓ κ} : {A : Type ℓ} {B : Type κ} → Reply A → (A → Reply B) → Reply B
found a >>= f = f a
refused err >>= f = refused err

abbrev pub ◌>>◌ {ℓ} : {B : Type ℓ} → Reply (Unit {0}) → Reply B → Reply B
m >> k = m >>= λ _. k

-- `if !ok { return errors.New(err) }`
abbrev pub ensure : Bool → String → Reply (Unit {0})
ensure true err = found tt
ensure false err = refused err

-- A call that went well went well in each part.
pub >>=-eq-found {ℓ κ} :
    {A : Type ℓ} {B : Type κ} (m : Reply A) (f : A → Reply B) {b : B}
    → (m >>= f) ≡ found b
    → (a : A) × (m ≡ found a) × (f a ≡ found b)
>>=-eq-found (found a) f h = (a, refl, h)
>>=-eq-found (refused err) f h = cc

pub ensure-found {ℓ} :
    {B : Type ℓ} (ok : Bool) (err : String) (k : Reply B) {b : B}
    → (ensure ok err >> k) ≡ found b
    → (ok ≡ true) × (k ≡ found b)
ensure-found true err k h = (refl, h)
ensure-found false err k h = cc

pub ensure-true : (ok : Bool) (err : String) {u : Unit {0}} → ensure ok err ≡ found u → ok ≡ true
ensure-true true err h = refl
ensure-true false err h = cc
