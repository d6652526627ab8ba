-- ===== src/Tests/Bytes.antt =====
-- The threads of Buffer/Bytes in a given order, with the bytes of each `memcpy` as steps of their own,
-- and the theorems on them there.
use foxdbg.Base.{
  All, ℕ, zero, suc, ◌≡◌, ◌<◌, refl, Bool, true, false, List, [], ◌∷◌, ◌++◌, Option, none, some,
  length, get_elem?, memcpy, ◌==◌, ==_iff, ltb, arith, ◌⊎◌, inl, inr,
}
use foxdbg.Outcome.{ok}
use foxdbg.Buffer.{half_bytes}
use foxdbg.Buffer.Calls.{Access, copy_in, copy_out, Result, exec}
use foxdbg.Buffer.Threads.{System, Reach, init, program}
use foxdbg.Buffer.Threads.Frames.{IsFrame, Writes}
use foxdbg.Buffer.Bytes.{
  ByteSystem, copies, ByteStep, whole, put, put_end, get, get_end, ByteReach, start, later,
  byte_init,
}
use foxdbg.Buffer.Bytes.Relation.{Simulates}
use foxdbg.Buffer.Bytes.Refine.{refines_atomic}
use foxdbg.Buffer.Bytes.Laws.{whole_frames, no_stall}
use foxdbg.Tests.Schedules.{block, two_threads, repeat}
use foxdbg.Tests.Buffers.{two_threads-CallFits}

record ByteRun (from : ByteSystem) : Type 0 where
  last : ByteSystem
  reach : ByteReach from last

module _ {from f : ByteSystem} (reach : ByteReach from f) (i : ℕ) where
  stay : ByteRun from
  stay = record { last = f; reach = reach }

  move : {g : ByteSystem} → ByteStep f g → ByteRun from
  move {g} s = record { last = g; reach = later reach s }

  plain :
      (a : Access) (rest : List Access)
      → f.code i ≡ a ∷ rest
      → copies (f.locals i) a ≡ false
      → (r : Result) → exec i a f.buffer (f.locals i) ≡ r
      → ByteRun from
  unfolding stay move
  plain a rest e c (ok (b, l)) x = move (whole i e c x)
  plain a rest e c _ x = stay

  put_at :
      (d : List ℕ) (rest : List Access) (v : ℕ)
      → f.code i ≡ copy_in d ∷ rest
      → get_elem? d (f.progress i) ≡ some v
      → (out : Option (List ℕ))
      → memcpy (half_bytes f.buffer (f.locals i).ptr) (f.progress i) (v ∷ []) ≡ out
      → ByteRun from
  unfolding stay move
  put_at d rest v e g (some out) x = move (put i e g x)
  put_at d rest v e g none x = stay

  end_put :
      (d : List ℕ) (rest : List Access)
      → f.code i ≡ copy_in d ∷ rest
      → (full : Bool) → (f.progress i == length d) ≡ full
      → ByteRun from
  unfolding stay move
  end_put d rest e true x = move (put_end i e ((==_iff (f.progress i) (length d)).0 x))
  end_put d rest e false x = stay

  put_on :
      (d : List ℕ) (rest : List Access)
      → f.code i ≡ copy_in d ∷ rest
      → (v : Option ℕ) → get_elem? d (f.progress i) ≡ v
      → ByteRun from
  unfolding put_at end_put
  put_on d rest e (some v) x =
      put_at d rest v e x (memcpy (half_bytes f.buffer (f.locals i).ptr) (f.progress i) (v ∷ []))
        refl
  put_on d rest e none x = end_put d rest e (f.progress i == length d) refl

  get_at :
      (p : ℕ → Bool) (rest : List Access)
      → f.code i ≡ copy_out p ∷ rest
      → p (f.locals i).size ≡ true
      → f.progress i < (f.locals i).size
      → (v : Option ℕ) → get_elem? (half_bytes f.buffer (f.locals i).ptr) (f.progress i) ≡ v
      → ByteRun from
  unfolding stay move
  get_at p rest e c lt (some v) x = move (get i e c lt x)
  get_at p rest e c lt none x = stay

  end_get :
      (p : ℕ → Bool) (rest : List Access)
      → f.code i ≡ copy_out p ∷ rest
      → p (f.locals i).size ≡ true
      → (full : Bool) → (f.progress i == (f.locals i).size) ≡ full
      → ByteRun from
  unfolding stay move
  end_get p rest e c true x = move (get_end i e c ((==_iff (f.progress i) (f.locals i).size).0 x))
  end_get p rest e c false x = stay

  get_on :
      (p : ℕ → Bool) (rest : List Access)
      → f.code i ≡ copy_out p ∷ rest
      → p (f.locals i).size ≡ true
      → (more : Bool) → ltb (f.progress i) (f.locals i).size ≡ more
      → ByteRun from
  unfolding get_at end_get
  get_on p rest e c true x =
      get_at p rest e c (ground arith)
        (get_elem? (half_bytes f.buffer (f.locals i).ptr) (f.progress i)) refl
  get_on p rest e c false x = end_get p rest e c (f.progress i == (f.locals i).size) refl

  copy_on :
      (p : ℕ → Bool) (rest : List Access)
      → f.code i ≡ copy_out p ∷ rest
      → (accepts : Bool) → p (f.locals i).size ≡ accepts
      → ByteRun from
  unfolding get_on plain
  copy_on p rest e true c = get_on p rest e c (ltb (f.progress i) (f.locals i).size) refl
  copy_on p rest e false c =
      plain (copy_out p) rest e c (exec i (copy_out p) f.buffer (f.locals i)) refl

  byte_turn : (code : List Access) → f.code i ≡ code → ByteRun from
  unfolding stay put_on copy_on plain
  byte_turn [] e = stay
  byte_turn (copy_in d ∷ rest) e = put_on d rest e (get_elem? d (f.progress i)) refl
  byte_turn (copy_out p ∷ rest) e = copy_on p rest e (p (f.locals i).size) refl
  byte_turn (a ∷ rest) e = plain a rest e refl (exec i a f.buffer (f.locals i)) refl

byte_schedule : {from : ByteSystem} → List ℕ → ByteRun from → ByteRun from
unfolding byte_turn
byte_schedule [] r = r
byte_schedule (i ∷ is) r = byte_schedule is (byte_turn r.reach i (r.last.code i) refl)

byte_run : (from : ByteSystem) → List ℕ → ByteRun from
unfolding byte_schedule exec program
byte_run from is = byte_schedule is (record { last = from; reach = start })

-- Thread 1 tries between the bytes of thread 0, and reads the frame when it is complete.
abbrev turns : List ℕ
turns = 0 ∷ 0 ∷ 0 ∷ 0 ∷ 1 ∷ 0 ∷ 1 ∷ 0 ∷ (repeat 10 0 ++ repeat 12 1)

abbrev read_between : ByteRun (byte_init 4 block block two_threads)
read_between = byte_run (byte_init 4 block block two_threads) turns

-- Thread 0 has copied one byte of two.
abbrev in_copy : ByteRun (byte_init 4 block block two_threads)
in_copy = byte_run (byte_init 4 block block two_threads) (0 ∷ 0 ∷ 0 ∷ 0 ∷ 1 ∷ [])

in_copy_result : (in_copy.last.progress 0 ≡ 1) × (in_copy.last.buffer.buffer_b ≡ 1 ∷ 9 ∷ 9 ∷ 9 ∷ [])
unfolding byte_run memcpy
in_copy_result = (refl, refl)

abbrev EitherFrame : List ℕ → Type 0
EitherFrame d = (d ≡ 1 ∷ 2 ∷ []) ⊎ (d ≡ 3 ∷ [])

two_threads-Writes : (i : ℕ) → All (Writes EitherFrame 4) (two_threads i)
two_threads-Writes zero = (inl refl, (inr refl, tt))
two_threads-Writes (suc zero) = (tt, (tt, tt))
two_threads-Writes (suc (suc i)) = tt

whole_frames_example : IsFrame EitherFrame (1 ∷ 2 ∷ [])
unfolding byte_run memcpy
whole_frames_example =
    whole_frames EitherFrame 4 block block two_threads two_threads-Writes read_between.reach 1
      (1 ∷ 2 ∷ []) refl

no_stall_example : (f' : ByteSystem) × ByteStep in_copy.last f'
unfolding byte_run memcpy
no_stall_example =
    no_stall 4 block block two_threads refl refl two_threads-CallFits in_copy.reach 1 refl

refines_atomic_example :
    (s : System) × Reach (init 4 block block two_threads) s × Simulates s in_copy.last
refines_atomic_example = refines_atomic 4 block block two_threads in_copy.reach
