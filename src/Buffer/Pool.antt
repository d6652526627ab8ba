-- ===== src/Buffer/Pool.antt =====
-- All buffers of all channels, and threads that call on one after the other: lib/foxdbg_buffer.c as
-- lib/foxdbg.c and the senders use it.
pub mod Project
pub mod Progress
use foxdbg.Base.{ℕ, ◌≡◌, List, [], ◌∷◌, ◌++◌, map, ◌==◌, if◌then◌else◌}
use foxdbg.Outcome.{ok}
use foxdbg.Buffer.{FoxdbgBuffer, fresh_buffer}
use foxdbg.Buffer.Calls.{Access, Local, exec}
use foxdbg.Buffer.Threads.{Call, call_code, update, no_local}

-- Buffers by number. What a call holds between its accesses is its own, so `locals` has an entry for
-- each thread and buffer.
pub record Pool : Type 0 where
  pub buffers : ℕ → FoxdbgBuffer
  pub code : ℕ → List (ℕ × Access)
  pub locals : ℕ → ℕ → Local

-- Thread `i` makes its next access, at the buffer that it is for.
pub data PoolStep (s : Pool) : Pool → Type 0 where
  pick_at :
      (i k : ℕ) {a : Access} {rest : List (ℕ × Access)} {b : FoxdbgBuffer} {l : Local}
      → s.code i ≡ (k, a) ∷ rest
      → exec i a (s.buffers k) (s.locals i k) ≡ ok (b, l)
      → PoolStep s (record {
        buffers = update s.buffers k b;
        code = update s.code i rest;
        locals = update s.locals i (update (s.locals i) k l);
      })

pub data PoolReach (from : Pool) : Pool → Type 0 where
  first : PoolReach from from
  next : {s t : Pool} → PoolReach from s → PoolStep s t → PoolReach from t

abbrev pub at_buffer : ℕ → Access → ℕ × Access
at_buffer k a = (k, a)

-- The accesses of calls on buffers of the given sizes.
unfoldable pub pool_program : (ℕ → ℕ) → List (ℕ × Call) → List (ℕ × Access)
pool_program size [] = []
pool_program size ((k, c) ∷ calls) =
    map (at_buffer k) (call_code (size k) c) ++ pool_program size calls

abbrev pub pool_init : (ℕ → ℕ) → (ℕ → List ℕ) → (ℕ → List ℕ) → (ℕ → List (ℕ × Call)) → Pool
pool_init size a b calls = record {
  buffers = λ k. fresh_buffer (size k) (a k) (b k);
  code = λ i. pool_program size (calls i);
  locals = λ i k. no_local;
}

-- What is for buffer `k`.
unfoldable pub only {ℓ} : {A : Type ℓ} → ℕ → List (ℕ × A) → List A
only k [] = []
only k ((j, x) ∷ rest) = let r = only k rest in if j == k then x ∷ r else r
