-- ===== src/Os/Laws.antt =====
-- What one request does to the counters: it is served, or it fails and leaves them alone.
use foxdbg.Base.{
  ℕ, ◌+◌, ◌≡◌, Bool, true, false, List, [], ◌∷◌, Option, none, some, length, length-tabulate, arith,
}
use foxdbg.Os.{Os, malloc, mutex_init, answer_malloc, answer_init}

-- The counters have grown by so many blocks and mutexes, and nothing else has happened.
pub record Grows (os os' : Os) (blocks mutexes : ℕ) : Type 0 where
  pub live : os'.live ≡ os.live + blocks
  pub held : os'.mutexes ≡ os.mutexes + mutexes
  pub stray : os'.stray ≡ os.stray

abbrev pub Malloced : ℕ → Os → Option (List ℕ) × Os → Type 0
Malloced size os (none, os') = Grows os os' 0 0
Malloced size os (some block, os') = Grows os os' 1 0 × (length block ≡ size)

answer_malloc-Malloced :
    (size : ℕ) (script : List (Option (ℕ → ℕ))) (os : Os)
    → Malloced size os (answer_malloc size script os)
unfolding answer_malloc
answer_malloc-Malloced size [] os = omega arith
answer_malloc-Malloced size (none ∷ r) os = omega arith
answer_malloc-Malloced size (some f ∷ r) os = (omega arith, length-tabulate size 0 f)

pub malloc-Malloced : (size : ℕ) (os : Os) → Malloced size os (malloc size os)
unfolding malloc
malloc-Malloced size os = answer_malloc-Malloced size os.mallocs os

abbrev pub Inited : Os → Bool × Os → Type 0
Inited os (true, os') = Grows os os' 0 1
Inited os (false, os') = Grows os os' 0 0

answer_init-Inited : (script : List Bool) (os : Os) → Inited os (answer_init script os)
unfolding answer_init
answer_init-Inited [] os = omega arith
answer_init-Inited (false ∷ r) os = omega arith
answer_init-Inited (true ∷ r) os = omega arith

pub mutex_init-Inited : (os : Os) → Inited os (mutex_init os)
unfolding mutex_init
mutex_init-Inited os = answer_init-Inited os.inits os
