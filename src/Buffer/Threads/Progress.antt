-- ===== src/Buffer/Threads/Progress.antt =====
-- No access is undefined, and threads with work left never all wait.
use foxdbg.Base.{
  ℕ, ◌≡◌, ◌≢◌, refl, Bool, true, List, [], ◌∷◌, Option, none, some, length, arith, Bool-cases,
  Option-cases, ◌⊎◌, inl, inr, All, ==_refl,
}
use foxdbg.Outcome.{ok, blocked, fault, ok_of_ne}
use foxdbg.Buffer.{FoxdbgBuffer}
use foxdbg.Buffer.Calls.{Access, Local, owns, exec}
use foxdbg.Buffer.Threads.{Call, System, Step, pick, Reach, init}
use foxdbg.Buffer.Threads.Discipline.{
  check, check-unheld, Disciplined, Reach-Disciplined, init-Disciplined,
}
use foxdbg.Buffer.Threads.Bounds.{CallFits, IsBounded, Reach-IsBounded, exec-ne-fault}
use foxdbg.Buffer.Threads.Safety.{only_lock, holder_runs}

-- Thread `i` gets through the access.
abbrev pub Runs : System → ℕ → Access → Type 0
Runs s i x = (r : FoxdbgBuffer × Local) × (exec i x s.buffer (s.locals i) ≡ ok r)

runs :
    (size : ℕ) {s : System} (i : ℕ) (x : Access) (c : List Access)
    → Disciplined s
    → IsBounded size s
    → s.code i ≡ x ∷ c
    → exec i x s.buffer (s.locals i) ≢ blocked
    → Runs s i x
runs size {s} i x c d v e free =
    let fits = rw e at (v.code i) in
    ok_of_ne (exec i x s.buffer (s.locals i)) free
      (exec-ne-fault size i x c s.buffer (s.locals i) v.buffer (v.locals i) fits.0 (rw e at (d i)))

-- Whoever holds one of the other mutexes holds the swap mutex.
owner_is :
    (j k : ℕ) (r w : Bool) (m : Option ℕ) (c : List Access)
    → m ≡ some k
    → check (owns m j) r w c ≡ true
    → (r ≡ true) ⊎ (w ≡ true)
    → j ≡ k
owner_is j k r w m c e f held = elim (Bool-cases (owns m j)) [
  | inl own ↦ ground arith
  | inr other ↦ ground (arith, check-unheld r w c (rw other at f))
]

-- The holder of the swap mutex has something left to do.
holder_busy :
    (s : System) (k : ℕ)
    → Disciplined s
    → s.buffer.swap_mutex ≡ some k
    → (code : List Access) → s.code k ≡ code
    → (x : Access) × (c : List Access) × (s.code k ≡ x ∷ c)
unfolding check
holder_busy s k d own [] e = absurd (let f = rw e at (d k) in ground (arith, ==_refl k))
holder_busy s k d own (x ∷ c) e = (x, c, e)

-- And it gets through it.
pub holder-Runs :
    (size : ℕ) {s : System} (k : ℕ) (x : Access) (c : List Access)
    → Disciplined s
    → IsBounded size s
    → s.buffer.swap_mutex ≡ some k
    → s.code k ≡ x ∷ c
    → Runs s k x
holder-Runs size {s} k x c d v own e = runs size k x c d v e (
    holder_runs k s.buffer (s.locals k) x c own
      (λ j held.
        owner_is j k (owns s.buffer.read_mutex j) (owns s.buffer.write_mutex j) s.buffer.swap_mutex
          (s.code j) own (d j) (inl (rw held (==_refl j))))
      (λ j held.
        owner_is j k (owns s.buffer.read_mutex j) (owns s.buffer.write_mutex j) s.buffer.swap_mutex
          (s.code j) own (d j) (inr (rw held (==_refl j))))
      (rw e at (d k)))

-- Where nobody holds the swap mutex, everybody gets through the next access.
pub free-Runs :
    (size : ℕ) {s : System} (i : ℕ) (x : Access) (c : List Access)
    → Disciplined s
    → IsBounded size s
    → s.buffer.swap_mutex ≡ none
    → s.code i ≡ x ∷ c
    → Runs s i x
free-Runs size {s} i x c d v free e =
    runs size i x c d v e (only_lock i x c s.buffer (s.locals i) free (rw e at (d i)))

module _ (size : ℕ) (a b : List ℕ) (calls : ℕ → List Call) (la : length a ≡ size)
    (lb : length b ≡ size) (fits : (i : ℕ) → All (CallFits size) (calls i)) where
  -- In every state that threads reach by reads, data writes of any length, and info writes that fit
  -- the buffer, no thread's next access is undefined: no copy runs past a half of the buffer, and no
  -- thread unlocks a mutex that it does not hold.
  pub never_faults :
      {s : System}
      → Reach (init size a b calls) s
      → (i : ℕ) {x : Access} {c : List Access} → s.code i ≡ x ∷ c
      → exec i x s.buffer (s.locals i) ≢ fault
  never_faults {s} r i {x} {c} e =
      let v = Reach-IsBounded size a b calls la lb fits r in
      let fit = rw e at (v.code i) in
      exec-ne-fault size i x c s.buffer (s.locals i) v.buffer (v.locals i) fit.0
        (rw e at (Reach-Disciplined (init-Disciplined size a b calls) r i))

  -- In every state that threads reach by reads, data writes of any length, and info writes that fit
  -- the buffer, while some thread has an access left, some thread can make its next one: the three
  -- mutexes do not deadlock.
  pub no_deadlock :
      {s : System}
      → Reach (init size a b calls) s
      → (i : ℕ) {x : Access} {c : List Access} → s.code i ≡ x ∷ c
      → (t : System) × Step s t
  no_deadlock {s} r i {x} {c} e =
      let v = Reach-IsBounded size a b calls la lb fits r in
      let d = Reach-Disciplined (init-Disciplined size a b calls) r in
      elim (Option-cases s.buffer.swap_mutex) [
        | inl free ↦ (_, pick i e (free-Runs size i x c d v free e).1)
        | inr (k, own) ↦
            (let (y, rest, f) = holder_busy s k d own (s.code k) refl in
              (_, pick k f (holder-Runs size k y rest d v own f).1))
      ]
