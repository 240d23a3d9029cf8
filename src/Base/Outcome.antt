-- ===== src/Base/Outcome.antt =====
-- What a run of C++ code comes to. `spent` marks a loop of the model that has no fuel left.
use mathlib.Core.Path.{◌≡◌, refl}
use mathlib.Core.Option.{Option, none, some}

pub data Exception : Type 0 where
  invalid_argument out_of_range json_error filesystem_error system_error : Exception

pub data Run {ℓ} (A : Type ℓ) : Type ℓ where
  ok : A → Run A
  throws : Exception → Run A
  undefined : Run A
  spent : Run A

infixl 5 ◌>>=◌
abbrev pub ◌>>=◌ {ℓ κ} : {A : Type ℓ} {B : Type κ} → Run A → (A → Run B) → Run B
undefined >>= next = undefined
spent >>= next = spent
throws e >>= next = throws e
ok a >>= next = next a

-- an access that is undefined where there is nothing
abbrev pub at {ℓ} : {A : Type ℓ} → Option A → Run A
at none = undefined
at (some a) = ok a

-- a run that returned went on from what its first part returned
pub >>=-eq-ok {ℓ κ} :
    {A : Type ℓ} {B : Type κ} {r : B} (m : Run A) (next : A → Run B)
    → (m >>= next) ≡ ok r
    → (a : A) × (m ≡ ok a) × (next a ≡ ok r)
>>=-eq-ok undefined next h = cc
>>=-eq-ok spent next h = cc
>>=-eq-ok (throws e) next h = cc
>>=-eq-ok (ok a) next h = (a, refl, h)

pub ok-injective {ℓ} : {A : Type ℓ} {a b : A} → ok a ≡ ok b → a ≡ b
ok-injective h = cc
