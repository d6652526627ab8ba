-- ===== src/Os.antt =====
-- What lib/foxdbg_buffer.c and lib/foxdbg.c ask of the C library: `malloc`, `free` and mutexes.
-- Each request is answered from a script, so that every pattern of failures is some script.
pub mod Laws
pub mod Granted
use foxdbg.Base.{ℕ, ◌+◌, ◌-◌, Bool, true, false, List, [], ◌∷◌, Option, none, some, tabulate}

-- `mallocs` answers the calls of `malloc` in order: `none` is a failure, otherwise the bytes that
-- the fresh block happens to hold, by index. `inits` answers `pthread_mutex_init`. A script that has
-- ended answers by failure. `live` counts the blocks that are allocated and not yet freed, `mutexes`
-- those mutexes that are initialised and not yet destroyed, and `stray` the calls of
-- `pthread_mutex_destroy` on a mutex that is not initialised.
pub record Os : Type 0 where
  pub mallocs : List (Option (ℕ → ℕ))
  pub inits : List Bool
  pub live : ℕ
  pub mutexes : ℕ
  pub stray : ℕ

answer_malloc : ℕ → List (Option (ℕ → ℕ)) → Os → Option (List ℕ) × Os
answer_malloc size [] os = (none, os)
answer_malloc size (none ∷ rest) os = (none, record os { mallocs = rest })
answer_malloc size (some f ∷ rest) os =
    (some (tabulate size 0 f), record os { mallocs = rest; live = os.live + 1 })

unfoldable pub malloc : ℕ → Os → Option (List ℕ) × Os
unfolding answer_malloc
malloc size os = answer_malloc size os.mallocs os

-- `free (p)`, given whether `p` is not `NULL`: `free (NULL)` does nothing.
unfoldable pub free : Bool → Os → Os
free false os = os
free true os = record os { live = os.live - 1 }

answer_init : List Bool → Os → Bool × Os
answer_init [] os = (false, os)
answer_init (false ∷ rest) os = (false, record os { inits = rest })
answer_init (true ∷ rest) os = (true, record os { inits = rest; mutexes = os.mutexes + 1 })

unfoldable pub mutex_init : Os → Bool × Os
unfolding answer_init
mutex_init os = answer_init os.inits os

-- `pthread_mutex_destroy` on a mutex that is initialised, or is not.
unfoldable pub mutex_destroy : Bool → Os → Os
mutex_destroy true os = record os { mutexes = os.mutexes - 1 }
mutex_destroy false os = record os { stray = os.stray + 1 }
