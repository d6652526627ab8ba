-- ===== src/Tests/Pools.antt =====
-- Two threads on the two buffers of an image channel: one writes pixels and then an info, the other reads
-- the pixels and then the info, as `send_image` does.
use foxdbg.Base.{ℕ, zero, suc, ◌≡◌, refl, true, false, ◌==◌, List, [], ◌∷◌, All, arith}
use foxdbg.Buffer.Calls.{exec}
use foxdbg.Buffer.Threads.{Call, write_call, info_call, read_call}
use foxdbg.Buffer.Threads.Bounds.{CallFits}
use foxdbg.Buffer.Pool.{
  Pool, PoolStep, pick_at, PoolReach, first, next, pool_program, pool_init, only,
}
use foxdbg.Buffer.Pool.Progress.{pool-no_deadlock}
use foxdbg.Tests.Schedules.{block}

abbrev four : ℕ → ℕ
four k = 4

abbrev blocks : ℕ → List ℕ
blocks k = block

abbrev image_calls : ℕ → List (ℕ × Call)
image_calls zero = (0, write_call (1 ∷ 2 ∷ [])) ∷ (1, info_call (3 ∷ [])) ∷ []
image_calls (suc zero) = (0, read_call (λ n. true)) ∷ (1, read_call (λ n. true)) ∷ []
image_calls (suc (suc i)) = []

abbrev from_start : Pool
from_start = pool_init four blocks blocks image_calls

record PoolRun : Type 0 where
  last : Pool
  reach : PoolReach from_start last

-- The writer holds the mutexes of the pixels and has its pointer; the reader has to wait.
abbrev writing : PoolRun
unfolding pool_program exec
writing = record {
  last = _;
  reach =
      next (next (next first (pick_at 0 0 refl refl)) (pick_at 0 0 refl refl))
        (pick_at 0 0 refl refl);
}

not_zero : (k : ℕ) → (0 == suc (suc k)) ≡ false
not_zero k = ground arith

not_one : (k : ℕ) → (1 == suc (suc k)) ≡ false
not_one k = ground arith

image_calls-CallFits : (k i : ℕ) → All (CallFits 4) (only k (image_calls i))
unfolding only
image_calls-CallFits zero zero = (tt, tt)
image_calls-CallFits zero (suc zero) = (tt, tt)
image_calls-CallFits (suc zero) zero = (omega arith, tt)
image_calls-CallFits (suc zero) (suc zero) = (tt, tt)
image_calls-CallFits (suc (suc k)) zero = rw (not_zero k, not_one k) tt
image_calls-CallFits (suc (suc k)) (suc zero) = rw (not_zero k, not_one k) tt
image_calls-CallFits k (suc (suc i)) = tt

pool-no_deadlock_example : (t : Pool) × PoolStep writing.last t
unfolding pool_program writing
pool-no_deadlock_example =
    pool-no_deadlock four blocks blocks image_calls (λ k. refl) (λ k. refl) image_calls-CallFits
      writing.reach 1 0 refl
