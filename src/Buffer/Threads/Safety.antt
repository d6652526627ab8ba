-- ===== src/Buffer/Threads/Safety.antt =====
-- What the three mutexes of a buffer buy, for any number of threads and any calls.
use foxdbg.Base.{
  ℕ, ◌≡◌, ◌≢◌, refl, Bool, true, false, List, ◌∷◌, Option, none, some, arith, ==_refl,
}
use foxdbg.Outcome.{ok, blocked}
use foxdbg.Buffer.{FoxdbgBuffer}
use foxdbg.Buffer.Calls.{
  write, read, swap, Access, lock, unlock, copy_in, copy_out, Local, owns, exec,
}
use foxdbg.Buffer.Threads.{Call, System, Reach, init}
use foxdbg.Buffer.Threads.Discipline.{
  check, Follows, Disciplined, Reach-Disciplined, init-Disciplined,
}

-- An access to what the mutexes protect.
abbrev pub touches : Access → Bool
touches (lock _) = false
touches (unlock _) = false
touches _ = true

pub touches-owner :
    (t : ℕ) (b : FoxdbgBuffer) (a : Access) (c : List Access)
    → Follows t b (a ∷ c)
    → touches a ≡ true
    → b.swap_mutex ≡ some t
unfolding check
touches-owner t b (lock m) c f h = cc
touches-owner t b (unlock m) c f h = cc
touches-owner t b _ c f h = ground arith

module _ (size : ℕ) (a b : List ℕ) (calls : ℕ → List Call) where
  disciplined : {s : System} → Reach (init size a b calls) s → Disciplined s
  disciplined r = Reach-Disciplined (init-Disciplined size a b calls) r

  -- However many threads make the calls of `Call` on the buffer, in whatever order: in every
  -- reachable state, two threads that are both about to make an access of such a call to its
  -- bytes, pointers or sizes are the same thread. The read of `send_pointcloud` behind
  -- `foxdbg_buffer_end_read` is no access of such a call.
  pub mutual_exclusion :
      {s : System}
      → Reach (init size a b calls) s
      → (i j : ℕ) {x y : Access} {c d : List Access} → s.code i ≡ x ∷ c
      → s.code j ≡ y ∷ d
      → touches x ≡ true
      → touches y ≡ true
      → i ≡ j
  mutual_exclusion {s} r i j {x} {y} {c} {d} ei ej hx hy =
      let oi = touches-owner i s.buffer x c (rw ei at (disciplined r i)) hx in
      let oj = touches-owner j s.buffer y d (rw ej at (disciplined r j)) hy in ground arith

pub waits :
    (i j : ℕ) (b : FoxdbgBuffer) (l : Local) (x : Access) (c : List Access)
    → i ≢ j
    → b.swap_mutex ≡ some i
    → Follows j b (x ∷ c)
    → exec j x b l ≡ blocked
unfolding exec check
waits i j b l (lock swap) c ne own f = ground arith
waits i j b l (lock read) c ne own f = ground arith
waits i j b l (lock write) c ne own f = ground arith
waits i j b l (unlock swap) c ne own f = ground arith
waits i j b l (unlock read) c ne own f = ground arith
waits i j b l (unlock write) c ne own f = ground arith
waits i j b l _ c ne own f = ground arith

module _ (size : ℕ) (a b : List ℕ) (calls : ℕ → List Call) where
  -- In every reachable state, while a thread holds the swap mutex, every other thread that has
  -- something left to do has to wait.
  pub isolation :
      {s : System}
      → Reach (init size a b calls) s
      → (i j : ℕ) {x : Access} {c : List Access} → i ≢ j
      → s.buffer.swap_mutex ≡ some i
      → s.code j ≡ x ∷ c
      → exec j x s.buffer (s.locals j) ≡ blocked
  isolation {s} r i j {x} {c} ne own ej =
      waits i j s.buffer (s.locals j) x c ne own (rw ej at (disciplined size a b calls r j))

-- The two halves, the pointers to them and the populated sizes.
pub record SameContents (b b' : FoxdbgBuffer) : Type 0 where
  pub same_a : b'.buffer_a ≡ b.buffer_a
  pub same_b : b'.buffer_b ≡ b.buffer_b
  pub same_front : b'.front_buffer ≡ b.front_buffer
  pub same_back : b'.back_buffer ≡ b.back_buffer
  pub same_front_size : b'.front_buffer_size ≡ b.front_buffer_size
  pub same_back_size : b'.back_buffer_size ≡ b.back_buffer_size

pub exec-SameContents :
    (t : ℕ) (x : Access) (b : FoxdbgBuffer) (l : Local) {b' : FoxdbgBuffer} {l' : Local}
    → touches x ≡ false
    → exec t x b l ≡ ok (b', l')
    → SameContents b b'
unfolding exec
exec-SameContents t (lock swap) b l h e = ground arith
exec-SameContents t (lock read) b l h e = ground arith
exec-SameContents t (lock write) b l h e = ground arith
exec-SameContents t (unlock swap) b l h e = ground arith
exec-SameContents t (unlock read) b l h e = ground arith
exec-SameContents t (unlock write) b l h e = ground arith
exec-SameContents t _ b l h e = cc

-- A mutex that the holder of the swap mutex does not hold is free.
free_or_own : (k : ℕ) (m : Option ℕ) → ((j : ℕ) → m ≡ some j → j ≡ k) → owns m k ≡ false → m ≡ none
free_or_own k none h e = refl
free_or_own k (some j) h e = absurd (ground (arith, h j refl))

pub holder_runs :
    (k : ℕ) (b : FoxdbgBuffer) (l : Local) (x : Access) (c : List Access)
    → b.swap_mutex ≡ some k
    → ((j : ℕ) → b.read_mutex ≡ some j → j ≡ k)
    → ((j : ℕ) → b.write_mutex ≡ some j → j ≡ k)
    → Follows k b (x ∷ c)
    → exec k x b l ≢ blocked
unfolding exec check
holder_runs k b l (lock swap) c s r w f = ground (arith, ==_refl k)
holder_runs k b l (lock read) c s r w f = ground (arith, free_or_own k b.read_mutex r)
holder_runs k b l (lock write) c s r w f = ground (arith, free_or_own k b.write_mutex w)
holder_runs k b l (unlock swap) c s r w f = ground arith
holder_runs k b l (unlock read) c s r w f = ground arith
holder_runs k b l (unlock write) c s r w f = ground arith
holder_runs k b l (copy_in d) c s r w f = ground arith
holder_runs k b l (copy_out d) c s r w f = ground arith
holder_runs k b l _ c s r w f = ground arith

pub only_lock :
    (t : ℕ) (x : Access) (c : List Access) (b : FoxdbgBuffer) (l : Local)
    → b.swap_mutex ≡ none
    → Follows t b (x ∷ c)
    → exec t x b l ≢ blocked
unfolding exec check
only_lock t (lock swap) c b l e f = ground arith
only_lock t (lock read) c b l e f = ground arith
only_lock t (lock write) c b l e f = ground arith
only_lock t _ c b l e f = ground arith
