-- ===== src/Tests/Schedules.antt =====
-- Reachable states of the threads of lib/foxdbg_buffer.c by evaluation: the threads move in a given
-- order, and one that has to wait, or has nothing left, passes its turn.
use foxdbg.Base.{ℕ, zero, suc, ◌≡◌, refl, true, List, [], ◌∷◌, ◌++◌, some, memcpy}
use foxdbg.Outcome.{ok, blocked, fault}
use foxdbg.Buffer.Calls.{Access, Result, exec}
use foxdbg.Buffer.Threads.{
  Call, write_call, read_call, System, pick, Reach, start, later, init, program,
}

pub record Run (from : System) : Type 0 where
  pub last : System
  pub reach : Reach from last

access :
    {from s : System}
    → Reach from s
    → (i : ℕ) (a : Access) (rest : List Access) → s.code i ≡ a ∷ rest
    → (r : Result) → exec i a s.buffer (s.locals i) ≡ r
    → Run from
access {s = s} reach i a rest e (ok (b, l)) x = record {
  last = _;
  reach = later reach (pick i e x);
}
access {s = s} reach i a rest e blocked x = record { last = s; reach = reach }
access {s = s} reach i a rest e fault x = record { last = s; reach = reach }

turn : {from s : System} → Reach from s → (i : ℕ) (code : List Access) → s.code i ≡ code → Run from
unfolding access
turn {s = s} reach i [] e = record { last = s; reach = reach }
turn {s = s} reach i (a ∷ rest) e = access reach i a rest e (exec i a s.buffer (s.locals i)) refl

schedule : {from : System} → List ℕ → Run from → Run from
unfolding turn
schedule [] r = r
schedule (i ∷ is) r = schedule is (turn r.reach i (r.last.code i) refl)

unfoldable pub run : (from : System) → List ℕ → Run from
unfolding schedule exec program
run from is = schedule is (record { last = from; reach = start })

-- A buffer of four bytes, a thread that writes two frames and one that reads twice.
abbrev pub block : List ℕ
block = 9 ∷ 9 ∷ 9 ∷ 9 ∷ []

abbrev pub two_threads : ℕ → List Call
two_threads zero = write_call (1 ∷ 2 ∷ []) ∷ write_call (3 ∷ []) ∷ []
two_threads (suc zero) = read_call (λ n. true) ∷ read_call (λ n. true) ∷ []
two_threads (suc (suc _)) = []

abbrev pub from_start : System
from_start = init 4 block block two_threads

abbrev pub repeat : ℕ → ℕ → List ℕ
repeat zero i = []
repeat (suc n) i = i ∷ repeat n i

-- The first frame is written and read.
abbrev pub read_once : Run from_start
read_once = run from_start (repeat 14 0 ++ repeat 6 1)

-- Thread 0 holds the swap mutex and is about to copy; thread 1 waits.
abbrev pub writing : Run from_start
writing = run from_start (0 ∷ 0 ∷ 0 ∷ 1 ∷ [])

read_once_result : (read_once.last.locals 1).copied ≡ some (1 ∷ 2 ∷ [])
unfolding run memcpy
read_once_result = refl

-- Two threads write a frame each, and both have written before either swaps: the second swap undoes the
-- first, and a read behind both writes gets what was there before them.
abbrev two_writers : ℕ → List Call
two_writers zero = write_call (1 ∷ 2 ∷ []) ∷ []
two_writers (suc zero) = write_call (3 ∷ []) ∷ []
two_writers (suc (suc zero)) = read_call (λ n. true) ∷ []
two_writers (suc (suc (suc _))) = []

abbrev hidden : Run (init 4 block block two_writers)
hidden =
    run (init 4 block block two_writers)
      (repeat 7 0 ++ (repeat 7 1 ++ (repeat 7 0 ++ (repeat 7 1 ++ repeat 6 2))))

hidden_result :
    ((hidden.last.locals 2).copied ≡ some [])
    × (hidden.last.code 0 ≡ [])
    × (hidden.last.code 1 ≡ [])
unfolding run memcpy
hidden_result = (refl, refl, refl)
