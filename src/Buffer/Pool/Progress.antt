-- ===== src/Buffer/Pool/Progress.antt =====
-- Threads that work on many buffers never all wait: whoever holds the mutexes of one buffer is about to
-- make an access on that buffer.
use foxdbg.Base.{
  ℕ, ◌≡◌, ◌≢◌, refl, sym, ◌∙◌, ap, Bool, true, false, ◌&&◌, List, [], ◌∷◌, ◌++◌, Option, none, some,
  map, length, leb, ◌==◌, ==_refl, ==_iff, Bool-cases, Option-cases, inl, inr, All, arith,
}
use mathlib.Core.Path.{subst}
use foxdbg.Outcome.{ok}
use foxdbg.Buffer.{FoxdbgBuffer}
use foxdbg.Buffer.Calls.{write, read, swap, Access, lock, unlock, Local, owns, exec}
use foxdbg.Buffer.Threads.{Call, write_call, info_call, read_call, call_code, update}
use foxdbg.Buffer.Threads.Discipline.{Reach-Disciplined, init-Disciplined, exec-SameOwner}
use foxdbg.Buffer.Threads.Bounds.{CallFits, Reach-IsBounded}
use foxdbg.Buffer.Threads.Progress.{holder-Runs, free-Runs}
use foxdbg.Buffer.Pool.{
  Pool, PoolStep, pick_at, PoolReach, first, next, at_buffer, pool_program, pool_init, only,
}
use foxdbg.Buffer.Pool.Project.{projected, projected-Reach}

-- With the swap mutex of the given buffer held, or of none, the accesses take and give back the swap
-- mutex of one buffer after the other, and are for the buffer whose mutex is held.
pub bracketed : Option ℕ → List (ℕ × Access) → Bool
bracketed none [] = true
bracketed none ((k, lock swap) ∷ c) = bracketed (some k) c
bracketed none (_ ∷ c) = false
bracketed (some h) [] = false
bracketed (some h) ((k, unlock swap) ∷ c) = k == h && bracketed none c
bracketed (some h) ((k, _) ∷ c) = k == h && bracketed (some h) c

-- The buffer whose swap mutex is held behind an access.
held_behind : Option ℕ → ℕ → Access → Option ℕ
held_behind h k (lock swap) = some k
held_behind h k (unlock swap) = none
held_behind h k _ = h

bracketed-call :
    (size k : ℕ) (c : Call) (rest : List (ℕ × Access))
    → bracketed none rest ≡ true
    → bracketed none (map (at_buffer k) (call_code size c) ++ rest) ≡ true
unfolding bracketed
bracketed-call size k (write_call d) rest h = elim (Bool-cases (leb (length d) size)) [
  | inl e ↦ rw (e, ==_refl k) h
  | inr e ↦ rw (e, ==_refl k) h
]
bracketed-call size k (info_call d) rest h = elim (Bool-cases (leb (length d) size)) [
  | inl e ↦ rw (e, ==_refl k) h
  | inr e ↦ rw (e, ==_refl k) h
]
bracketed-call size k (read_call f) rest h = rw (==_refl k) h

bracketed-program :
    (size : ℕ → ℕ) (calls : List (ℕ × Call)) → bracketed none (pool_program size calls) ≡ true
unfolding bracketed pool_program
bracketed-program size [] = refl
bracketed-program size ((k, c) ∷ calls) =
    bracketed-call (size k) k c (pool_program size calls) (bracketed-program size calls)

bracketed-next :
    (h : Option ℕ) (k : ℕ) (a : Access) (c : List (ℕ × Access))
    → bracketed h ((k, a) ∷ c) ≡ true
    → bracketed (held_behind h k a) c ≡ true
unfolding bracketed held_behind
bracketed-next none k (lock swap) c e = e
bracketed-next none k (lock read) c e = absurd (cc)
bracketed-next none k (lock write) c e = absurd (cc)
bracketed-next none k (unlock _) c e = absurd (cc)
bracketed-next none k _ c e = absurd (cc)
bracketed-next (some h) k (lock swap) c e = ground arith
bracketed-next (some h) k (lock read) c e = ground arith
bracketed-next (some h) k (lock write) c e = ground arith
bracketed-next (some h) k (unlock swap) c e = ground arith
bracketed-next (some h) k (unlock read) c e = ground arith
bracketed-next (some h) k (unlock write) c e = ground arith
bracketed-next (some h) k _ c e = ground arith

bracketed-at :
    (h k : ℕ) (a : Access) (c : List (ℕ × Access)) → bracketed (some h) ((k, a) ∷ c) ≡ true → k ≡ h
unfolding bracketed
bracketed-at h k (lock _) c e = ground arith
bracketed-at h k (unlock swap) c e = ground arith
bracketed-at h k (unlock read) c e = ground arith
bracketed-at h k (unlock write) c e = ground arith
bracketed-at h k _ c e = ground arith

-- Whoever holds the swap mutex of buffer `k` behind an access on it has it for the held one.
exec-held :
    (i : ℕ) (a : Access) (b : FoxdbgBuffer) (l : Local) (h : Option ℕ) (k : ℕ) {b' : FoxdbgBuffer}
    {l' : Local}
    → exec i a b l ≡ ok (b', l')
    → (owns b.swap_mutex i ≡ true → h ≡ some k)
    → owns b'.swap_mutex i ≡ true
    → held_behind h k a ≡ some k
unfolding exec held_behind
exec-held i (lock swap) b l h k e before own = refl
exec-held i (lock read) b l h k e before own = before (ground arith)
exec-held i (lock write) b l h k e before own = before (ground arith)
exec-held i (unlock swap) b l h k e before own = absurd (ground arith)
exec-held i (unlock read) b l h k e before own = before (ground arith)
exec-held i (unlock write) b l h k e before own = before (ground arith)
exec-held i _ b l h k e before own = before (ground arith)

-- What a thread holds, and that it is about to make accesses on just that.
record Holding (s : Pool) (i : ℕ) : Type 0 where
  held : Option ℕ
  brackets : bracketed held (s.code i) ≡ true
  owned : (k : ℕ) → owns (s.buffers k).swap_mutex i ≡ true → held ≡ some k

module _ (s : Pool) (i k : ℕ) (a : Access) (rest : List (ℕ × Access)) (b : FoxdbgBuffer) (l : Local)
    (e : s.code i ≡ (k, a) ∷ rest) (x : exec i a (s.buffers k) (s.locals i k) ≡ ok (b, l)) where
  behind : Pool
  behind = record {
    buffers = update s.buffers k b;
    code = update s.code i rest;
    locals = update s.locals i (update (s.locals i) k l);
  }

  -- The thread that moves.
  mover-Holding : Holding s i → Holding behind i
  unfolding behind
  mover-Holding v =
      let b0 : bracketed v.held ((k, a) ∷ rest) ≡ true =
        ap (bracketed v.held) (sym e) ∙ v.brackets in
      record {
        held = held_behind v.held k a;
        brackets = rw (==_refl i) (bracketed-next v.held k a rest b0);
        owned = λ m own. elim (Bool-cases (k == m)) [
          | inl same ↦
              (let eq = (==_iff k m).0 same in
                subst (λ n. held_behind v.held k a ≡ some n) eq
                  (exec-held i a (s.buffers k) (s.locals i k) v.held k x (v.owned k)
                    (rw same at own)))
          | inr other ↦ absurd (
              let at_m : v.held ≡ some m = v.owned m (rw other at own) in
              let eq =
                bracketed-at m k a rest (ap (λ h. bracketed h ((k, a) ∷ rest)) (sym at_m) ∙ b0) in
              ground arith)
        ];
      }

  -- Any other.
  other-Holding : (j : ℕ) → i ≢ j → Holding s j → Holding behind j
  unfolding behind
  other-Holding j ne v = record {
    held = v.held;
    brackets = (let apart : (i == j) ≡ false = ground arith in rw apart v.brackets);
    owned = λ m own. elim (Bool-cases (k == m)) [
      | inl same ↦
          (let eq = (==_iff k m).0 same in
            let o = exec-SameOwner i j a (s.buffers k) (s.locals i k) ne x in
            subst (λ n. v.held ≡ some n) eq (v.owned k (sym o.of_swap ∙ (rw same at own))))
      | inr other ↦ v.owned m (rw other at own)
    ];
  }

step-Holding : {s t : Pool} → PoolStep s t → ((i : ℕ) → Holding s i) → (i : ℕ) → Holding t i
unfolding behind
step-Holding {s} (pick_at i k {a = a} {rest = rest} {b = b} {l = l} e x) v j =
    elim (Bool-cases (i == j)) [
      | inl same ↦
          subst (Holding (behind s i k a rest b l e x)) ((==_iff i j).0 same)
            (mover-Holding s i k a rest b l e x (v i))
      | inr other ↦ other-Holding s i k a rest b l e x j (ground arith) (v j)
    ]

module _ (size : ℕ → ℕ) (a b : ℕ → List ℕ) (calls : ℕ → List (ℕ × Call)) where
  PoolReach-Holding : {s : Pool} → PoolReach (pool_init size a b calls) s → (i : ℕ) → Holding s i
  PoolReach-Holding first i = record {
    held = none;
    brackets = bracketed-program size (calls i);
    owned = λ k own. absurd (cc);
  }
  PoolReach-Holding (next r st) i = step-Holding st (PoolReach-Holding r) i

-- Where the mutex of a buffer is held, the next access of its holder is on that buffer.
holder_at :
    (s : Pool) (j k : ℕ)
    → Holding s j
    → (s.buffers k).swap_mutex ≡ some j
    → (c : List (ℕ × Access)) → s.code j ≡ c
    → (y : Access) × (rest : List (ℕ × Access)) × (s.code j ≡ (k, y) ∷ rest)
unfolding bracketed
holder_at s j k v own [] e = absurd (
    let h = v.owned k (rw own (==_refl j)) in
    let f = ap (bracketed v.held) (sym e) ∙ v.brackets in
    let g = ap (λ o. bracketed o []) (sym h) ∙ f in cc)
holder_at s j k v own ((m, y) ∷ rest) e =
    let h = v.owned k (rw own (==_refl j)) in
    let f = ap (bracketed v.held) (sym e) ∙ v.brackets in
    let eq = bracketed-at k m y rest (ap (λ o. bracketed o ((m, y) ∷ rest)) (sym h) ∙ f) in
    (y, rest, e ∙ ap (λ n. (n, y) ∷ rest) eq)

only-head :
    (k : ℕ) (x : Access) (rest : List (ℕ × Access)) → only k ((k, x) ∷ rest) ≡ x ∷ only k rest
unfolding only
only-head k x rest = rw (==_refl k) refl

module _ (size : ℕ → ℕ) (a b : ℕ → List ℕ) (calls : ℕ → List (ℕ × Call))
    (la : (k : ℕ) → length (a k) ≡ size k) (lb : (k : ℕ) → length (b k) ≡ size k)
    (fits : (k i : ℕ) → All (CallFits (size k)) (only k (calls i))) where
  -- In every state that threads reach by reads, data writes of any length, and info writes that fit,
  -- each on any of any number of buffers, one call after the other: while some thread has an access
  -- left, some thread can make its next one. The mutexes of all buffers together do not deadlock.
  pub pool-no_deadlock :
      {s : Pool}
      → PoolReach (pool_init size a b calls) s
      → (i k : ℕ) {x : Access} {c : List (ℕ × Access)} → s.code i ≡ (k, x) ∷ c
      → (t : Pool) × PoolStep s t
  pool-no_deadlock {s} r i k {x} {c} e =
      let p = projected-Reach size a b calls r k in
      let d = Reach-Disciplined (init-Disciplined (size k) (a k) (b k) (λ n. only k (calls n))) p in
      let v =
        Reach-IsBounded (size k) (a k) (b k) (λ n. only k (calls n)) (la k) (lb k) (fits k) p in
      elim (Option-cases (s.buffers k).swap_mutex) [
        | inl free ↦ (
          _,
          pick_at i k e
              (free-Runs (size k) {s = projected k s} i x (only k c) d v free
                (ap (only k) e ∙ only-head k x c)).1,
        )
        | inr (j, own) ↦
            (let (y, rest, f) =
                holder_at s j k (PoolReach-Holding size a b calls r j) own (s.code j) refl in
              (
                _,
                pick_at j k f
                    (holder-Runs (size k) {s = projected k s} j y (only k rest) d v own
                      (ap (only k) f ∙ only-head k y rest)).1,
              ))
      ]
