-- ===== src/Buffer/Bytes/Refine.antt =====
-- Every state of the threads of Buffer/Bytes answers to one of Buffer/Threads.
use foxdbg.Base.{ℕ, refl, List, inl, inr}
use foxdbg.Buffer.Threads
use foxdbg.Buffer.Threads.{Call, System, Step, pick, Reach, update, init}
use foxdbg.Buffer.Threads.Discipline.{Reach-Disciplined, init-Disciplined}
use foxdbg.Buffer.Bytes.{ByteSystem, ByteReach, start, later, byte_init}
use foxdbg.Buffer.Bytes.Relation.{Simulates, at_rest}
use foxdbg.Buffer.Bytes.Steps.{step-Answered}

module _ (size : ℕ) (a b : List ℕ) (calls : ℕ → List Call) where
  -- Copies byte by byte refine copies at once. For any threads and calls, and every state that is
  -- reached with another thread's access between any two bytes of a copy, there is a state that is
  -- reached where each copy is one access, with the same accesses left and the same pointers, sizes and
  -- results held by every thread, and with the same buffer but for the bytes of a copy that has begun;
  -- and these are where that copy puts them.
  pub refines_atomic :
      {f : ByteSystem}
      → ByteReach (byte_init size a b calls) f
      → (s : System) × Reach (init size a b calls) s × Simulates s f
  refines_atomic start = (
    init size a b calls,
    Threads.start,
    at_rest (init size a b calls) (byte_init size a b calls) (λ i. refl) (λ i. refl) refl
        (λ i. (refl, refl)),
  )
  refines_atomic (later {s = f} r st) =
      let (s, reach, v) = refines_atomic r in
      elim (step-Answered s f (Reach-Disciplined (init-Disciplined size a b calls) reach) v st) [
        | inl (s', step, v') ↦ (s', Threads.later reach step, v')
        | inr v' ↦ (s, reach, v')
      ]
