-- ===== src/Buffer/Threads/Whole.antt =====
-- Frames stay whole in every reachable state of the threads of lib/foxdbg_buffer.c.
use foxdbg.Base.{
  ℕ, ◌≡◌, ◌≢◌, refl, Bool, true, false, List, [], ◌∷◌, some, ◌==◌, arith, Bool-cases, inl, inr, All,
  ==_iff, ==_refl, take,
}
use foxdbg.Outcome.{ok}
use foxdbg.Buffer.{FoxdbgBuffer, fresh_buffer, half_bytes}
use foxdbg.Buffer.Calls.{
  Access, lock, unlock, get_back, get_front, copy_in, set_size, exchange, copy_out, Local, exec,
}
use foxdbg.Buffer.Threads.Programs.{Shaped-program, Doing-program}
use foxdbg.Buffer.Threads.{Call, System, no_local, update, Step, pick, Reach, start, later, init}
use foxdbg.Buffer.Threads.Discipline.{Disciplined, Reach-Disciplined, init-Disciplined}
use foxdbg.Buffer.Threads.Safety.{touches, touches-owner, SameContents, exec-SameContents}
use foxdbg.Buffer.Threads.Frames.{
  IsFrame, Next, Shaped, Writes, Doing, mover, front_frame, back_frame, is_exchange, exec-apart,
  exec-front, exec-back, exec-exchange, exec-set_size, exec-copied,
}

abbrev sets : List Access → Bool
sets (set_size n ∷ c) = true
sets _ = false

abbrev head_touches : List Access → Bool
head_touches [] = false
head_touches (x ∷ c) = touches x

sets-head : (c : List Access) → head_touches c ≡ false → sets c ≡ false
sets-head [] h = refl
sets-head (set_size n ∷ c) h = cc
sets-head (_ ∷ c) h = refl

is_exchange-eq : (a : Access) → is_exchange a ≡ true → a ≡ exchange
is_exchange-eq exchange h = refl
is_exchange-eq _ h = cc

others_quiet :
    (s : System) {i : ℕ} (j : ℕ) (c : List Access)
    → Disciplined s
    → s.buffer.swap_mutex ≡ some i
    → i ≢ j
    → s.code j ≡ c
    → head_touches c ≡ false
others_quiet s j [] d own ne e = refl
others_quiet s j (x ∷ c) d own ne e = elim (Bool-cases (touches x)) [
  | inl t ↦ absurd (let o = touches-owner j s.buffer x c (rw e at (d j)) t in ground arith)
  | inr n ↦ n
]

module _ (W : List ℕ → Type 0) where
  Doing-quiet :
      (b : FoxdbgBuffer) (l : Local) (c : List Access) → head_touches c ≡ false → Doing W b l c
  Doing-quiet b l [] h = tt
  Doing-quiet b l (copy_in d ∷ c) h = cc
  Doing-quiet b l (set_size n ∷ c) h = cc
  Doing-quiet b l (copy_out f ∷ c) h = cc
  Doing-quiet b l (_ ∷ c) h = tt

  Doing-same :
      (b b' : FoxdbgBuffer) (l : Local) (c : List Access)
      → SameContents b b'
      → Doing W b l c
      → Doing W b' l c
  unfolding half_bytes
  Doing-same b b' l (copy_in d ∷ c) v h = ground arith
  Doing-same b b' l (set_size n ∷ c) v h =
      let same : take n (half_bytes b' b'.back_buffer) ≡ take n (half_bytes b b.back_buffer) =
        ground arith in
      rw same h
  Doing-same b b' l (copy_out f ∷ c) v h = ground arith
  Doing-same b b' l [] v h = tt
  Doing-same b b' l (_ ∷ c) v h = tt

  pub record Whole (s : System) : Type 0 where
    pub shape : (i : ℕ) → Shaped W (s.code i)
    pub apart : s.buffer.front_buffer ≢ s.buffer.back_buffer
    pub front : IsFrame W (front_frame s.buffer)
    pub back : ((i : ℕ) → sets (s.code i) ≡ false) → IsFrame W (back_frame s.buffer)
    pub doing : (i : ℕ) → Doing W s.buffer (s.locals i) (s.code i)
    pub copied : (i : ℕ) (d : List ℕ) → (s.locals i).copied ≡ some d → IsFrame W d

  back_kept :
      (t : ℕ) (a : Access) (c : List Access) (b : FoxdbgBuffer) (l : Local) {b' : FoxdbgBuffer}
      {l' : Local}
      → Next W a c
      → Doing W b l (a ∷ c)
      → IsFrame W (front_frame b)
      → (sets (a ∷ c) ≡ false → IsFrame W (back_frame b))
      → sets c ≡ false
      → exec t a b l ≡ ok (b', l')
      → IsFrame W (back_frame b')
  back_kept t exchange c b l n h f old new e = rw ((exec-exchange t b l e).1) f
  back_kept t (set_size k) c b l n h f old new e = rw (exec-set_size t k b l e) h
  back_kept t (copy_in d) (set_size k ∷ c) b l n h f old new e = cc
  back_kept t (copy_in d) _ b l n h f old new e = absurd n
  back_kept t (lock m) c b l n h f old new e = rw (exec-back t (lock m) b l refl e) (old refl)
  back_kept t (unlock m) c b l n h f old new e = rw (exec-back t (unlock m) b l refl e) (old refl)
  back_kept t get_back c b l n h f old new e = rw (exec-back t get_back b l refl e) (old refl)
  back_kept t get_front c b l n h f old new e = rw (exec-back t get_front b l refl e) (old refl)
  back_kept t (copy_out g) c b l n h f old new e =
      rw (exec-back t (copy_out g) b l refl e) (old refl)

  -- Where another thread than `i` stands, after a step of `i`.
  module _ (s : System) (d : Disciplined s) (v : Whole s) (i : ℕ) (a : Access) (rest : List Access)
      (b : FoxdbgBuffer) (l : Local) (e : s.code i ≡ a ∷ rest)
      (x : exec i a s.buffer (s.locals i) ≡ ok (b, l)) where
    head : Next W a rest × Shaped W rest
    head = rw e at (v.shape i)

    here : Doing W s.buffer (s.locals i) (a ∷ rest)
    here = rw e at (v.doing i)

    quiet : (j : ℕ) → i ≢ j → touches a ≡ true → head_touches (s.code j) ≡ false
    quiet j ne t =
        others_quiet s j (s.code j) d (touches-owner i s.buffer a rest (rw e at (d i)) t) ne refl

    other-Doing : (j : ℕ) → i ≢ j → Doing W b (s.locals j) (s.code j)
    other-Doing j ne = elim (Bool-cases (touches a)) [
      | inl t ↦ Doing-quiet b (s.locals j) (s.code j) (quiet j ne t)
      | inr n ↦
          Doing-same s.buffer b (s.locals j) (s.code j)
            (exec-SameContents i a s.buffer (s.locals i) n x) (v.doing j)
    ]

    none_sets : a ≡ exchange → (j : ℕ) → sets (s.code j) ≡ false
    none_sets q j = elim (Bool-cases (i == j)) [
      | inl same ↦ rw (← (==_iff i j).0 same, e, q) refl
      | inr other ↦ sets-head (s.code j) (quiet j (ground arith) (rw q refl))
    ]

    front_kept : IsFrame W (front_frame b)
    front_kept = elim (Bool-cases (is_exchange a)) [
      | inl t ↦
          (let q = is_exchange-eq a t in
            rw ((exec-exchange i s.buffer (s.locals i) (rw q at x)).0) (v.back (none_sets q)))
      | inr n ↦ rw (exec-front i a s.buffer (s.locals i) v.apart (λ w q. rw q at here) n x) v.front
    ]

    abbrev moved : System
    moved = record { buffer = b; code = update s.code i rest; locals = update s.locals i l }

    -- A fact about each thread holds after the step if it holds of the others and of the mover.
    split {κ} :
        (P : List Access → Local → Type κ)
        → P rest l
        → ((j : ℕ) → i ≢ j → P (s.code j) (s.locals j))
        → (j : ℕ) → P (moved.code j) (moved.locals j)
    split P own others j = elim (Bool-cases (i == j)) [
      | inl same ↦ rw same own
      | inr other ↦ rw other (others j (ground arith))
    ]

    old_sets :
        ((j : ℕ) → sets (moved.code j) ≡ false)
        → sets (a ∷ rest) ≡ false
        → (j : ℕ) → sets (s.code j) ≡ false
    old_sets new own j = elim (Bool-cases (i == j)) [
      | inl same ↦ rw (← (==_iff i j).0 same, e) own
      | inr other ↦ rw other at (new j)
    ]

    moved-Whole : Whole moved
    moved-Whole = record {
      shape = split (λ c k. Shaped W c) head.1 (λ j ne. v.shape j);
      apart = exec-apart i a rest s.buffer (s.locals i) v.apart x;
      front = front_kept;
      back = λ new.
          back_kept i a rest s.buffer (s.locals i) head.0 here v.front
            (λ own. v.back (old_sets new own)) (rw (==_refl i) at (new i)) x;
      doing =
          split (λ c k. Doing W b k c) (mover W i a rest s.buffer (s.locals i) head.0 here x)
            other-Doing;
      copied =
          split (λ c k. (w : List ℕ) → k.copied ≡ some w → IsFrame W w)
            (λ w q. elim (exec-copied i a s.buffer (s.locals i) w (λ f p. rw p at here) x q) [
              | inl old ↦ v.copied i w old
              | inr new ↦ rw new v.front
            ])
            (λ j ne. v.copied j);
    }

  Step-Whole : {s t : System} → Step s t → Disciplined s → Whole s → Whole t
  Step-Whole {s} (pick i {a} {rest} {b} {l} e x) d v = moved-Whole s d v i a rest b l e x

module _ (W : List ℕ → Type 0) (size : ℕ) (a b : List ℕ) (calls : ℕ → List Call)
    (writes : (i : ℕ) → All (Writes W size) (calls i)) where
  init-Whole : Whole W (init size a b calls)
  init-Whole = record {
    shape = λ i. Shaped-program W size (calls i) (writes i);
    apart = cc;
    front = inl refl;
    back = λ _. inl refl;
    doing = λ i. Doing-program W size (calls i) (fresh_buffer size a b) no_local;
    copied = λ i d q. cc;
  }

  Reach-Whole : {s : System} → Reach (init size a b calls) s → Whole W s
  Reach-Whole start = init-Whole
  Reach-Whole (later r st) =
      Step-Whole W st (Reach-Disciplined (init-Disciplined size a b calls) r) (Reach-Whole r)

  -- Let any number of threads read and write one buffer, info writes being no larger than it. In
  -- every reachable state, what a thread took in its last read, if it took anything, is no bytes at
  -- all or exactly one of the frames that the threads write: no read is torn between two frames.
  pub copied-whole :
      {s : System}
      → Reach (init size a b calls) s
      → (i : ℕ) (d : List ℕ) → (s.locals i).copied ≡ some d
      → IsFrame W d
  copied-whole r = (Reach-Whole r).copied
