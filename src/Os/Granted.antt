-- ===== src/Os/Granted.antt =====
-- Runs in which `pthread_mutex_init` does not fail.
use foxdbg.Base.{
  ℕ, suc, ◌+◌, ◌≡◌, ◌≤◌, refl, Bool, true, false, List, [], ◌∷◌, Option, none, some, arith,
}
use foxdbg.Os.{Os, malloc, free, mutex_init, answer_malloc, answer_init}

abbrev successes : List Bool → ℕ
successes [] = 0
successes (true ∷ rest) = suc (successes rest)
successes (false ∷ rest) = 0

-- How many calls of `pthread_mutex_init` succeed before the first that fails.
abbrev pub granted : Os → ℕ
granted os = successes os.inits

-- If that many calls succeed, no more are made, and no mutex is destroyed that is not initialised.
abbrev pub Clean : ℕ → Os → Os → Type 0
Clean n os os' = n ≤ granted os → (os'.stray ≡ os.stray) × (granted os ≤ granted os' + n)

pub Clean-then : (m n : ℕ) (p q r : Os) → Clean m p q → Clean n q r → Clean (m + n) p r
Clean-then m n p q r f g h =
    let (same, left) = f (omega arith) in
    let (same', left') = g (omega arith) in (omega arith, omega arith)

pub Clean-most : (m n : ℕ) (p q : Os) → m ≤ n → Clean m p q → Clean n p q
Clean-most m n p q le f h = let (same, left) = f (omega arith) in (same, omega arith)

answer_malloc-Clean :
    (size : ℕ) (script : List (Option (ℕ → ℕ))) (os : Os)
    → Clean 0 os (answer_malloc size script os).1
unfolding answer_malloc
answer_malloc-Clean size [] os h = (omega arith, omega arith)
answer_malloc-Clean size (none ∷ r) os h = (omega arith, omega arith)
answer_malloc-Clean size (some f ∷ r) os h = (omega arith, omega arith)

pub malloc-Clean : (size : ℕ) (os : Os) → Clean 0 os (malloc size os).1
unfolding malloc
malloc-Clean size os = answer_malloc-Clean size os.mallocs os

pub free-Clean : (some_block : Bool) (os : Os) → Clean 0 os (free some_block os)
unfolding free
free-Clean true os h = (omega arith, omega arith)
free-Clean false os h = (omega arith, omega arith)

answer_init-granted :
    (script : List Bool) (os : Os)
    → os.inits ≡ script
    → 1 ≤ successes script
    → ((answer_init script os).0 ≡ true)
      × ((answer_init script os).1.stray ≡ os.stray)
      × (successes script ≡ granted (answer_init script os).1 + 1)
unfolding answer_init
answer_init-granted [] os e h = absurd (omega arith)
answer_init-granted (false ∷ r) os e h = absurd (omega arith)
answer_init-granted (true ∷ r) os e h = (refl, refl, omega arith)

pub mutex_init-granted :
    (os : Os)
    → 1 ≤ granted os
    → ((mutex_init os).0 ≡ true)
      × ((mutex_init os).1.stray ≡ os.stray)
      × (granted os ≡ granted (mutex_init os).1 + 1)
unfolding mutex_init
mutex_init-granted os = answer_init-granted os.inits os refl
