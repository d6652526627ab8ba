-- ===== src/Buffer/Threads/Finish.antt =====
-- Every schedule of the threads comes to an end, with all calls returned.
use foxdbg.Base.{
  ℕ, zero, suc, ◌+◌, ◌≡◌, ◌≤◌, ◌<◌, refl, sym, ◌∙◌, ap, false, List, [], ◌∷◌, length, ◌==◌, ==_iff,
  leb, arith, All, Bool-cases, inl, inr,
}
use foxdbg.Buffer.Calls.{Access}
use foxdbg.Buffer.Threads.{Call, program, System, Step, pick, Reach, start, later, update, init}
use foxdbg.Buffer.Threads.Bounds.{CallFits}
use foxdbg.Buffer.Threads.Progress.{no_deadlock}

-- The accesses that the first `n` threads have left.
unfoldable pub left_of : ℕ → (ℕ → List Access) → ℕ
left_of zero code = 0
left_of (suc n) code = left_of n code + length (code n)

-- The states that are reached in a number of steps.
pub data Walk (from : System) : ℕ → System → Type 0 where
  begin : Walk from 0 from
  after : {k : ℕ} {s t : System} → Walk from k s → Step s t → Walk from (suc k) t

pub Walk-Reach : {from s : System} {k : ℕ} → Walk from k s → Reach from s
Walk-Reach begin = start
Walk-Reach (after w st) = later (Walk-Reach w) st

left_of-same :
    (n i : ℕ) (code : ℕ → List Access) (rest : List Access)
    → n ≤ i
    → left_of n (update code i rest) ≡ left_of n code
unfolding left_of
left_of-same zero i code rest h = refl
left_of-same (suc n) i code rest h =
    let e : (i == n) ≡ false = ground arith in
    rw e (ap (λ m. m + length (code n)) (left_of-same n i code rest (omega arith)))

left_of-step :
    (n i : ℕ) (code : ℕ → List Access) {a : Access} (rest : List Access)
    → i < n
    → code i ≡ a ∷ rest
    → suc (left_of n (update code i rest)) ≡ left_of n code
unfolding left_of
left_of-step zero i code rest h e = absurd (omega arith)
left_of-step (suc n) i code {a} rest h e = elim (Bool-cases (i == n)) [
  | inl same ↦
      (let eq = (==_iff i n).0 same in
        let l : length (code n) ≡ suc (length rest) =
          ap (λ k. length (code k)) (sym eq) ∙ ap length e in
        rw same (omega (arith, left_of-same n i code rest (omega (arith, eq)), l)))
  | inr other ↦ rw other (omega (arith, left_of-step n i code rest (ground arith) e))
]

none_left : (n : ℕ) (code : ℕ → List Access) → left_of n code ≡ 0 → (i : ℕ) → i < n → code i ≡ []
unfolding left_of
none_left zero code z i h = absurd (omega arith)
none_left (suc n) code z i h = elim (Bool-cases (i == n)) [
  | inl same ↦ ap code ((==_iff i n).0 same) ∙ empty (code n) (omega arith)
  | inr other ↦ none_left n code (omega arith) i (ground arith)
]
  where
    empty : (xs : List Access) → length xs ≡ 0 → xs ≡ []
    empty [] e = refl
    empty (x ∷ xs) e = absurd (omega arith)

-- A thread with an access left.
abbrev Busy : (ℕ → List Access) → Type 0
Busy code = (i : ℕ) × (a : Access) × (rest : List Access) × (code i ≡ a ∷ rest)

some_left : (n : ℕ) (code : ℕ → List Access) → 0 < left_of n code → Busy code
unfolding left_of
some_left zero code h = absurd (omega arith)
some_left (suc n) code h = busy_at (code n) refl (λ z. some_left n code (omega (arith, z)))
  where
    busy_at : (c : List Access) → code n ≡ c → (length (code n) ≡ 0 → Busy code) → Busy code
    busy_at [] e before = before (ap length e)
    busy_at (a ∷ rest) e before = (n, a, rest, e)

module _ (size n : ℕ) (a b : List ℕ) (calls : ℕ → List Call)
    (few : (i : ℕ) → n ≤ i → calls i ≡ []) where
  -- No other thread has anything to do, and each step takes one access off.
  record Counted (k : ℕ) (s : System) : Type 0 where
    idle : (i : ℕ) → n ≤ i → s.code i ≡ []
    count : k + left_of n s.code ≡ left_of n (init size a b calls).code

  Walk-Counted : {k : ℕ} {s : System} → Walk (init size a b calls) k s → Counted k s
  unfolding program
  Walk-Counted begin = record { idle = λ i h. ap (program size) (few i h); count = omega arith }
  Walk-Counted (after {k} {s} w (pick i {a = x} {rest = rest} e y)) =
      let c = Walk-Counted w in
      let small : i < n = elim (Bool-cases (leb n i)) [
        | inl large ↦ absurd (let z = sym (c.idle i (ground arith)) ∙ e in cc)
        | inr less ↦ ground arith
      ] in
      record {
        idle = λ j h. (let ne : (i == j) ≡ false = ground arith in rw ne (c.idle j h));
        count = omega (arith, c.count, left_of-step n i s.code rest small e);
      }

  module _ (la : length a ≡ size) (lb : length b ≡ size)
      (fits : (i : ℕ) → All (CallFits size) (calls i)) where
    -- Let `n` threads make reads, data writes of any length, and info writes that fit the buffer. Then
    -- every schedule ends after the same number of accesses, those of all calls together: a run that
    -- has made fewer can be continued by some thread, none has made more, and one that has made them
    -- all has every call of every thread returned.
    pub every_run_ends :
        {k : ℕ} {s : System}
        → Walk (init size a b calls) k s
        → (k ≤ left_of n (init size a b calls).code)
          × ((k < left_of n (init size a b calls).code) → (t : System) × Step s t)
          × ((k ≡ left_of n (init size a b calls).code) → (i : ℕ) → s.code i ≡ [])
    every_run_ends {k} {s} w =
        let c = Walk-Counted w in
        (
          omega (arith, c.count),
          (λ less.
              (let (i, x, rest, e) = some_left n s.code (omega (arith, c.count, less)) in
                no_deadlock size a b calls la lb fits (Walk-Reach w) i e)),
          (λ all i. elim (Bool-cases (leb n i)) [
            | inl large ↦ c.idle i (ground arith)
            | inr small ↦ none_left n s.code (omega (arith, c.count, all)) i (ground arith)
          ]),
        )
