-- ===== src/Buffer/Threads.antt =====
-- Any number of threads that call the functions of lib/foxdbg_buffer.c on one buffer, interleaved
-- in any order, one access at a time. The children prove what holds in every reachable state.
pub mod Discipline
pub mod Bounds
pub mod Safety
pub mod Progress
pub mod Frames
pub mod Programs
pub mod Whole
pub mod Finish
use foxdbg.Base.{ℕ, ◌≡◌, Bool, List, [], ◌∷◌, ◌++◌, none, ◌==◌, if◌then◌else◌}
use foxdbg.Outcome.{ok}
use foxdbg.Buffer.{FoxdbgBuffer, half_a, fresh_buffer}
use foxdbg.Buffer.Calls.{Access, Local, exec, write_frame, write_info, read_frame}

-- A thread's calls on a buffer: `foxdbg_write_channel` on a data buffer, `foxdbg_write_channel_info`
-- on an info buffer, or a sender's read.
pub data Call : Type 0 where
  write_call : List ℕ → Call
  info_call : List ℕ → Call
  read_call : (ℕ → Bool) → Call

abbrev pub call_code : ℕ → Call → List Access
call_code buffer_size (write_call d) = write_frame buffer_size d
call_code buffer_size (info_call d) = write_info buffer_size d
call_code buffer_size (read_call accept) = read_frame accept

-- The accesses of one call after another.
unfoldable pub program : ℕ → List Call → List Access
program buffer_size [] = []
program buffer_size (c ∷ calls) = call_code buffer_size c ++ program buffer_size calls

-- `code` is what each thread still has to do.
pub record System : Type 0 where
  pub buffer : FoxdbgBuffer
  pub code : ℕ → List Access
  pub locals : ℕ → Local

-- The family with a new member at `i`.
abbrev pub update {ℓ} : {A : Type ℓ} (of_thread : ℕ → A) (i : ℕ) (new : A) (j : ℕ) → A
update of_thread i new j = if i == j then new else of_thread j

-- Thread `i` makes its next access, if it does not have to wait.
pub data Step (s : System) : System → Type 0 where
  pick :
      (i : ℕ) {a : Access} {rest : List Access} {b : FoxdbgBuffer} {l : Local}
      → s.code i ≡ a ∷ rest
      → exec i a s.buffer (s.locals i) ≡ ok (b, l)
      → Step s (record { buffer = b; code = update s.code i rest; locals = update s.locals i l })

abbrev pub no_local : Local
no_local = record { ptr = half_a; size = 0; copied = none }

-- A buffer as it was allocated, and the calls that each thread is going to make.
abbrev pub init : ℕ → List ℕ → List ℕ → (ℕ → List Call) → System
init size a b calls = record {
  buffer = fresh_buffer size a b;
  code = λ i. program size (calls i);
  locals = λ _. no_local;
}

pub data Reach (from : System) : System → Type 0 where
  start : Reach from from
  later : {s t : System} → Reach from s → Step s t → Reach from t
