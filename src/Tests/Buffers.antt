-- ===== src/Tests/Buffers.antt =====
-- The theorems on lib/foxdbg_buffer.c at concrete buffers and schedules.
use foxdbg.Base.{ℕ, zero, suc, ◌≡◌, ◌≢◌, refl, [], ◌∷◌, All, arith, memcpy}
use foxdbg.Outcome.{fault}
use foxdbg.Buffer.Calls.{copy_in, exec}
use foxdbg.Buffer.Threads.{System, Step, init, pick, program}
use foxdbg.Buffer.Threads.Finish.{left_of, Walk, begin, after, every_run_ends}
use foxdbg.Base.{◌≤◌, ◌<◌}
use foxdbg.Buffer.Threads.Bounds.{CallFits}
use foxdbg.Buffer.Threads.Progress.{never_faults}
use foxdbg.Tests.Schedules.{run, block, two_threads, writing}

pub two_threads-CallFits : (i : ℕ) → All (CallFits 4) (two_threads i)
two_threads-CallFits zero = (tt, (tt, tt))
two_threads-CallFits (suc zero) = (tt, (tt, tt))
two_threads-CallFits (suc (suc i)) = tt

never_faults_example :
    exec 0 (copy_in (1 ∷ 2 ∷ [])) writing.last.buffer (writing.last.locals 0) ≢ fault
unfolding run memcpy
never_faults_example =
    never_faults 4 block block two_threads refl refl two_threads-CallFits writing.reach 0 refl

three-Walk : Walk (init 4 block block two_threads) 3 writing.last
unfolding run exec program
three-Walk = after (after (after begin (pick 0 refl refl)) (pick 0 refl refl)) (pick 0 refl refl)

every_run_ends_example :
    (3 ≤ left_of 2 (init 4 block block two_threads).code)
    × (3 < left_of 2 (init 4 block block two_threads).code → (t : System) × Step writing.last t)
    × (3 ≡ left_of 2 (init 4 block block two_threads).code → (i : ℕ) → writing.last.code i ≡ [])
every_run_ends_example =
    every_run_ends 4 2 block block two_threads no_third refl refl two_threads-CallFits three-Walk
  where
    no_third : (i : ℕ) → 2 ≤ i → two_threads i ≡ []
    no_third zero h = absurd (omega arith)
    no_third (suc zero) h = absurd (omega arith)
    no_third (suc (suc i)) h = refl
