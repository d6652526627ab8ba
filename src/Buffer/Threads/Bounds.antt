-- ===== src/Buffer/Threads/Bounds.antt =====
-- Sizes stay within the allocation, so that no access of any thread is undefined.
use foxdbg.Base.{
  ℕ, ◌≡◌, ◌≢◌, ◌≤◌, List, [], ◌∷◌, length, leb, ◌==◌, arith, Bool-cases, Option-cases, inl, inr,
  All, All-append, length-memcpy, memcpy, memcpy-zero, leb→le,
}
use foxdbg.Outcome.{ok, fault}
use foxdbg.Buffer.{FoxdbgBuffer, half_bytes}
use foxdbg.Buffer.Calls.{write, read, swap, Access, lock, unlock, copy_in, set_size, Local, exec}
use foxdbg.Buffer.Threads.{
  Call, write_call, info_call, read_call, call_code, program, System, update, Step, pick, Reach,
  start, later, init,
}
use foxdbg.Buffer.Threads.Discipline.{check, Follows}

-- Both halves are as large as was asked for, and no populated size is larger.
pub record IsSized (size : ℕ) (b : FoxdbgBuffer) : Type 0 where
  pub asked : b.buffer_size ≡ size
  pub size_a : length b.buffer_a ≡ size
  pub size_b : length b.buffer_b ≡ size
  pub front_fits : b.front_buffer_size ≤ size
  pub back_fits : b.back_buffer_size ≤ size

abbrev pub AccessFits : ℕ → Access → Type 0
AccessFits size (copy_in d) = length d ≤ size
AccessFits size (set_size n) = n ≤ size
AccessFits size _ = Unit

-- An info write may pass a size that is too large; the others cannot.
abbrev pub CallFits : ℕ → Call → Type 0
CallFits size (info_call d) = length d ≤ size
CallFits size _ = Unit

call-fits : (size : ℕ) (c : Call) → CallFits size c → All (AccessFits size) (call_code size c)
call-fits size (write_call d) h = elim (Bool-cases (leb (length d) size)) [
  | inl e ↦ rw e (let le = leb→le (length d) size e in omega arith)
  | inr e ↦ rw e (omega arith)
]
call-fits size (info_call d) h = elim (Bool-cases (leb (length d) size)) [
  | inl e ↦ rw e (omega arith)
  | inr e ↦ rw e (omega arith)
]
call-fits size (read_call f) h = omega arith

program-fits :
    (size : ℕ) (calls : List Call)
    → All (CallFits size) calls
    → All (AccessFits size) (program size calls)
unfolding program
program-fits size [] h = tt
program-fits size (c ∷ calls) h =
    All-append (AccessFits size) (program size calls) (program-fits size calls h.1)
      (call_code size c) (call-fits size c h.0)

exec-IsSized :
    (size t : ℕ) (a : Access) (b : FoxdbgBuffer) (l : Local) {b' : FoxdbgBuffer} {l' : Local}
    → IsSized size b
    → l.size ≤ size
    → AccessFits size a
    → exec t a b l ≡ ok (b', l')
    → IsSized size b' × (l'.size ≤ size)
unfolding exec
exec-IsSized size t (lock swap) b l v ls h e = ground arith
exec-IsSized size t (lock read) b l v ls h e = ground arith
exec-IsSized size t (lock write) b l v ls h e = ground arith
exec-IsSized size t (unlock swap) b l v ls h e = ground arith
exec-IsSized size t (unlock read) b l v ls h e = ground arith
exec-IsSized size t (unlock write) b l v ls h e = ground arith
exec-IsSized size t (copy_in d) b l v ls h e =
    elim (Option-cases (memcpy (half_bytes b l.ptr) 0 d)) [
      | inl past ↦ ground arith
      | inr (out, copied) ↦ ground (arith, length-memcpy (half_bytes b l.ptr) 0 d copied)
    ]
exec-IsSized size t _ b l v ls h e = ground arith

-- Under the discipline and within the sizes an access waits or succeeds.
pub exec-ne-fault :
    (size t : ℕ) (a : Access) (c : List Access) (b : FoxdbgBuffer) (l : Local)
    → IsSized size b
    → l.size ≤ size
    → AccessFits size a
    → Follows t b (a ∷ c)
    → exec t a b l ≢ fault
unfolding exec check
exec-ne-fault size t (unlock swap) c b l v ls h f = ground arith
exec-ne-fault size t (unlock read) c b l v ls h f = ground arith
exec-ne-fault size t (unlock write) c b l v ls h f = ground arith
exec-ne-fault size t (lock swap) c b l v ls h f = ground arith
exec-ne-fault size t (lock read) c b l v ls h f = ground arith
exec-ne-fault size t (lock write) c b l v ls h f = ground arith
exec-ne-fault size t (copy_in d) c b l v ls h f =
    ground (arith, memcpy-zero b.buffer_a d, memcpy-zero b.buffer_b d)
exec-ne-fault size t _ c b l v ls h f = ground arith

-- The sizes of a whole system.
pub record IsBounded (size : ℕ) (s : System) : Type 0 where
  pub buffer : IsSized size s.buffer
  pub locals : (i : ℕ) → (s.locals i).size ≤ size
  pub code : (i : ℕ) → All (AccessFits size) (s.code i)

pub Step-IsBounded : (size : ℕ) {s t : System} → Step s t → IsBounded size s → IsBounded size t
Step-IsBounded size {s} (pick i {a} {rest} {b} {l} e x) v = record {
  buffer = moved.0;
  locals = λ j. ground (arith, v.locals j, moved);
  code = λ j. kept j;
}
  where
    head : All (AccessFits size) (a ∷ rest)
    head = rw e at (v.code i)

    moved : IsSized size b × (l.size ≤ size)
    moved = exec-IsSized size i a s.buffer (s.locals i) v.buffer (v.locals i) head.0 x

    kept : (j : ℕ) → All (AccessFits size) (update s.code i rest j)
    kept j = elim (Bool-cases (i == j)) [
      | inl same ↦ rw same head.1
      | inr other ↦ rw other (v.code j)
    ]

module _ (size : ℕ) (a b : List ℕ) (calls : ℕ → List Call) (la : length a ≡ size)
    (lb : length b ≡ size) (fits : (i : ℕ) → All (CallFits size) (calls i)) where
  init-IsBounded : IsBounded size (init size a b calls)
  init-IsBounded = record {
    buffer = omega arith;
    locals = λ i. omega arith;
    code = λ i. program-fits size (calls i) (fits i);
  }

  pub Reach-IsBounded : {s : System} → Reach (init size a b calls) s → IsBounded size s
  Reach-IsBounded start = init-IsBounded
  Reach-IsBounded (later r st) = Step-IsBounded size st (Reach-IsBounded r)
