-- ===== src/Buffer/Bytes.antt =====
-- The threads of Buffer/Threads with copies that are made byte by byte, so that other threads can come
-- between two bytes of a `memcpy`: lib/foxdbg_buffer.c and the copies of its callers.
pub mod Image
pub mod Relation
pub mod Steps
pub mod Refine
pub mod Laws
use foxdbg.Base.{
  ℕ, suc, ◌+◌, ◌≡◌, ◌<◌, Bool, true, false, List, [], ◌∷◌, ◌++◌, some, length, get_elem?, memcpy,
}
use foxdbg.Outcome.{ok}
use foxdbg.Buffer.{FoxdbgBuffer, fresh_buffer, half_bytes, set_half}
use foxdbg.Buffer.Calls.{Access, copy_in, copy_out, Local, exec}
use foxdbg.Buffer.Threads.{Call, program, update, no_local}

-- `progress` counts the bytes that a thread has copied of the `memcpy` that it is in, and `taken` are
-- those that it has copied out.
pub record ByteSystem : Type 0 where
  pub buffer : FoxdbgBuffer
  pub code : ℕ → List Access
  pub locals : ℕ → Local
  pub progress : ℕ → ℕ
  pub taken : ℕ → List ℕ

-- The access is a copy; a reader copies only if it accepts the size.
abbrev pub copies : Local → Access → Bool
copies l (copy_in d) = true
copies l (copy_out accept) = accept l.size
copies l _ = false

-- Thread `i` makes an access that is no copy, or copies one more byte, or ends a copy.
pub data ByteStep (f : ByteSystem) : ByteSystem → Type 0 where
  whole :
      (i : ℕ) {a : Access} {rest : List Access} {b : FoxdbgBuffer} {l : Local}
      → f.code i ≡ a ∷ rest
      → copies (f.locals i) a ≡ false
      → exec i a f.buffer (f.locals i) ≡ ok (b, l)
      → ByteStep f
          (record f { buffer = b; code = update f.code i rest; locals = update f.locals i l })
  put :
      (i : ℕ) {d out : List ℕ} {rest : List Access} {v : ℕ}
      → f.code i ≡ copy_in d ∷ rest
      → get_elem? d (f.progress i) ≡ some v
      → memcpy (half_bytes f.buffer (f.locals i).ptr) (f.progress i) (v ∷ []) ≡ some out
      → ByteStep f (record f {
        buffer = set_half f.buffer (f.locals i).ptr out;
        progress = update f.progress i (suc (f.progress i));
      })
  put_end :
      (i : ℕ) {d : List ℕ} {rest : List Access}
      → f.code i ≡ copy_in d ∷ rest
      → f.progress i ≡ length d
      → ByteStep f (record f { code = update f.code i rest; progress = update f.progress i 0 })
  get :
      (i : ℕ) {accept : ℕ → Bool} {rest : List Access} {v : ℕ}
      → f.code i ≡ copy_out accept ∷ rest
      → accept (f.locals i).size ≡ true
      → f.progress i < (f.locals i).size
      → get_elem? (half_bytes f.buffer (f.locals i).ptr) (f.progress i) ≡ some v
      → ByteStep f (record f {
        progress = update f.progress i (suc (f.progress i));
        taken = update f.taken i (f.taken i ++ (v ∷ []));
      })
  get_end :
      (i : ℕ) {accept : ℕ → Bool} {rest : List Access}
      → f.code i ≡ copy_out accept ∷ rest
      → accept (f.locals i).size ≡ true
      → f.progress i ≡ (f.locals i).size
      → ByteStep f (record f {
        code = update f.code i rest;
        locals = update f.locals i (record (f.locals i) { copied = some (f.taken i) });
        progress = update f.progress i 0;
        taken = update f.taken i [];
      })

pub data ByteReach (from : ByteSystem) : ByteSystem → Type 0 where
  start : ByteReach from from
  later : {s t : ByteSystem} → ByteReach from s → ByteStep s t → ByteReach from t

abbrev pub byte_init : ℕ → List ℕ → List ℕ → (ℕ → List Call) → ByteSystem
byte_init size a b calls = record {
  buffer = fresh_buffer size a b;
  code = λ i. program size (calls i);
  locals = λ _. no_local;
  progress = λ _. 0;
  taken = λ _. [];
}
