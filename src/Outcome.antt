-- ===== src/Outcome.antt =====
-- How a call of the C code ends: with a result, waiting on a mutex, or in undefined behaviour.
use foxdbg.Base.{◌≡◌, ◌≢◌, refl}

pub data Outcome {ℓ} (A : Type ℓ) : Type ℓ where
  ok : A → Outcome A
  blocked : Outcome A
  fault : Outcome A

infixl 5 ◌>>=◌
abbrev pub ◌>>=◌ {ℓ κ} : {A : Type ℓ} {B : Type κ} → Outcome A → (A → Outcome B) → Outcome B
ok a >>= f = f a
blocked >>= f = blocked
fault >>= f = fault

abbrev pub map_ok {ℓ κ} : {A : Type ℓ} {B : Type κ} → (A → B) → Outcome A → Outcome B
map_ok f (ok a) = ok (f a)
map_ok f blocked = blocked
map_ok f fault = fault

pub ok_of_ne {ℓ} : {A : Type ℓ} (m : Outcome A) → m ≢ blocked → m ≢ fault → (a : A) × (m ≡ ok a)
ok_of_ne (ok a) nb nf = (a, refl)
ok_of_ne blocked nb nf = absurd (nb refl)
ok_of_ne fault nb nf = absurd (nf refl)

pub ok-injective {ℓ} : {A : Type ℓ} {x y : A} → ok x ≡ ok y → x ≡ y
ok-injective e = cc
