-- ===== src/Buffer/Pool/Project.antt =====
-- What happens to one buffer among many is what happens to it alone.
use foxdbg.Base.{
  ℕ, ◌≡◌, refl, sym, ◌∙◌, ap, false, List, [], ◌∷◌, ◌++◌, map, ◌==◌, ==_refl, ==_iff, Bool-cases,
  inl, inr,
}
use mathlib.Core.Path.{subst}
use foxdbg.Outcome.{ok}
use foxdbg.Buffer.Calls.{Access, exec}
use foxdbg.Buffer.Threads
use foxdbg.Buffer.Threads.{Call, call_code, program, System, Step, pick, Reach, update, init}
use foxdbg.Buffer.Pool.{
  Pool, PoolStep, pick_at, PoolReach, first, next, at_buffer, pool_program, pool_init, only,
}

-- The threads as buffer `k` sees them.
abbrev pub projected : ℕ → Pool → System
projected k s = record {
  buffer = s.buffers k;
  code = λ i. only k (s.code i);
  locals = λ i. s.locals i k;
}

only-append {ℓ} :
    {A : Type ℓ} (k : ℕ) (xs ys : List (ℕ × A)) → only k (xs ++ ys) ≡ only k xs ++ only k ys
unfolding only
only-append k [] ys = refl
only-append k ((j, x) ∷ xs) ys = elim (Bool-cases (j == k)) [
  | inl same ↦ rw same (ap (λ r. x ∷ r) (only-append k xs ys))
  | inr other ↦ rw other (only-append k xs ys)
]

only-same : (k : ℕ) (xs : List Access) → only k (map (at_buffer k) xs) ≡ xs
unfolding only
only-same k [] = refl
only-same k (x ∷ xs) = rw (==_refl k) (ap (λ r. x ∷ r) (only-same k xs))

only-other : (j k : ℕ) (xs : List Access) → (j == k) ≡ false → only k (map (at_buffer j) xs) ≡ []
unfolding only
only-other j k [] e = refl
only-other j k (x ∷ xs) e = rw e (only-other j k xs e)

only-program :
    (size : ℕ → ℕ) (k : ℕ) (calls : List (ℕ × Call))
    → only k (pool_program size calls) ≡ program (size k) (only k calls)
unfolding pool_program program only
only-program size k [] = refl
only-program size k ((j, c) ∷ calls) =
    only-append k (map (at_buffer j) (call_code (size j) c)) (pool_program size calls)
    ∙ elim (Bool-cases (j == k)) [
      | inl same ↦
          (let eq = (==_iff j k).0 same in
            let here : only k (map (at_buffer j) (call_code (size j) c)) ≡ call_code (size k) c =
              ap (λ n. only k (map (at_buffer n) (call_code (size n) c))) eq
              ∙ only-same k (call_code (size k) c) in
            rw same (
              ap (λ r. r ++ only k (pool_program size calls)) here
              ∙ ap (λ r. call_code (size k) c ++ r) (only-program size k calls)))
      | inr other ↦ rw other (
          ap (λ r. r ++ only k (pool_program size calls))
            (only-other j k (call_code (size j) c) other)
          ∙ only-program size k calls)
    ]

update-map {ℓ κ} :
    {A : Type ℓ} {B : Type κ} (g : A → B) (f : ℕ → A) (i : ℕ) (x : A) (m : ℕ)
    → g (update f i x m) ≡ update (λ n. g (f n)) i (g x) m
update-map g f i x m = elim (Bool-cases (i == m)) [
  | inl same ↦ rw same refl
  | inr other ↦ rw other refl
]

update_keeps {ℓ} : {A : Type ℓ} (f : ℕ → A) (i : ℕ) (x : A) (m : ℕ) → x ≡ f i → update f i x m ≡ f m
update_keeps f i x m e = elim (Bool-cases (i == m)) [
  | inl same ↦ rw same (e ∙ ap f ((==_iff i m).0 same))
  | inr other ↦ rw other refl
]

system_ext :
    {s t : System}
    → s.buffer ≡ t.buffer
    → ((m : ℕ) → s.code m ≡ t.code m)
    → ((m : ℕ) → s.locals m ≡ t.locals m)
    → s ≡ t
system_ext p q r = λ i. record { buffer = p i; code = λ m. q m i; locals = λ m. r m i }

projected-step :
    {from : System} (k : ℕ) {s t : Pool}
    → Reach from (projected k s)
    → PoolStep s t
    → Reach from (projected k t)
unfolding only
projected-step {from} k {s} r (pick_at i j {a = x} {rest = rest} {b = b'} {l = l} e ex) =
    elim (Bool-cases (j == k)) [
      | inl same ↦
          (let eq = (==_iff j k).0 same in
            let ex' = subst (λ n. exec i x (s.buffers n) (s.locals i n) ≡ ok (b', l)) eq ex in
            let head : only k (s.code i) ≡ x ∷ only k rest = ap (only k) e ∙ rw same refl in
            subst (Reach from)
              (system_ext (rw same refl) (λ m. sym (update-map (only k) s.code i rest m))
                (λ m.
                  sym
                    (update-map (λ f. f k) s.locals i (update (s.locals i) j l) m ∙ rw same refl)))
              (Threads.later r (pick i head ex')))
      | inr other ↦
          (let same_code : only k rest ≡ only k (s.code i) = sym (ap (only k) e ∙ rw other refl) in
            subst (Reach from)
              (system_ext (rw other refl)
                (λ m. sym (
                  update-map (only k) s.code i rest m
                  ∙ update_keeps (λ n. only k (s.code n)) i (only k rest) m same_code))
                (λ m. sym (
                  update-map (λ f. f k) s.locals i (update (s.locals i) j l) m
                  ∙ update_keeps (λ n. s.locals n k) i (update (s.locals i) j l k) m
                      (rw other refl))))
              r)
    ]

module _ (size : ℕ → ℕ) (a b : ℕ → List ℕ) (calls : ℕ → List (ℕ × Call)) where
  -- In every state that threads reach by calls on any number of buffers, each buffer, with what the
  -- threads still have to do on it and hold of it, is in a state that they reach by their calls on
  -- that buffer alone.
  pub projected-Reach :
      {s : Pool}
      → PoolReach (pool_init size a b calls) s
      → (k : ℕ) → Reach (init (size k) (a k) (b k) (λ i. only k (calls i))) (projected k s)
  projected-Reach first k =
      subst (Reach (init (size k) (a k) (b k) (λ i. only k (calls i))))
        (system_ext refl (λ m. sym (only-program size k (calls m))) (λ m. refl)) Threads.start
  projected-Reach (next r st) k = projected-step k (projected-Reach r k) st
