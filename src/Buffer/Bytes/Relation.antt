-- ===== src/Buffer/Bytes/Relation.antt =====
-- How a state of Buffer/Bytes answers to one where copies are made at once.
use foxdbg.Base.{
  ℕ, ◌≡◌, ◌≢◌, ◌≤◌, refl, ap, sym, ◌∙◌, true, false, List, [], ◌∷◌, ◌⊎◌, inl, inr, some, length,
  take, ◌==◌, ==_refl, ==_iff, Bool-cases, Option-cases, arith,
}
use mathlib.Core.Path.{subst}
use foxdbg.Outcome.{ok, blocked}
use foxdbg.Buffer.{Half, half_a, half_b, FoxdbgBuffer, half_bytes, set_half}
use foxdbg.Buffer.Calls.{Access, copy_in, copy_out, Local, exec}
use foxdbg.Buffer.Threads.{System, update}
use foxdbg.Buffer.Threads.Discipline.{Follows, Disciplined}
use foxdbg.Buffer.Threads.Safety.{touches, touches-owner, waits}
use foxdbg.Buffer.Bytes.{ByteSystem, copies}
use foxdbg.Buffer.Bytes.Image.{
  overlay, partly, image, set_half-swap_mutex, image-zero, image-free, image-holder,
}

-- How far a thread may be in the copy that it is about to make, given the buffer before that copy.
abbrev pub InCopy : List Access → ℕ → List ℕ → Local → FoxdbgBuffer → Type 0
InCopy (copy_in d ∷ _) k t l b = (k ≤ length d) × (k ≤ length (half_bytes b l.ptr)) × (t ≡ [])
InCopy (copy_out accept ∷ _) k t l b =
    (t ≡ take k (half_bytes b l.ptr))
    × (k ≤ length (half_bytes b l.ptr))
    × (k ≤ l.size)
    × ((k ≡ 0) ⊎ (accept l.size ≡ true))
InCopy _ k t l b = (k ≡ 0) × (t ≡ [])

-- The same threads with copies made at once, each as if its present copy had not begun.
pub record Simulates (s : System) (f : ByteSystem) : Type 0 where
  pub same_code : (i : ℕ) → f.code i ≡ s.code i
  pub same_locals : (i : ℕ) → f.locals i ≡ s.locals i
  pub same_buffer : f.buffer ≡ image s f.progress
  pub in_copy : (i : ℕ) → InCopy (s.code i) (f.progress i) (f.taken i) (s.locals i) s.buffer

-- Whoever is not about to touch the buffer has copied nothing.
not_begun :
    (c : List Access) (k : ℕ) (t : List ℕ) (l : Local) (b : FoxdbgBuffer) (i : ℕ)
    → InCopy c k t l b
    → Follows i b c
    → b.swap_mutex ≢ some i
    → (k ≡ 0) × (t ≡ [])
not_begun (copy_in d ∷ c) k t l b i h f free =
    absurd (free (touches-owner i b (copy_in d) c f refl))
not_begun (copy_out p ∷ c) k t l b i h f free =
    absurd (free (touches-owner i b (copy_out p) c f refl))
not_begun [] k t l b i h f free = h
not_begun (_ ∷ c) k t l b i h f free = h

-- Nor has whoever is about to make an access that is no copy.
no_copy :
    (a : Access) (c : List Access) (k : ℕ) (t : List ℕ) (l : Local) (b : FoxdbgBuffer)
    → InCopy (a ∷ c) k t l b
    → copies l a ≡ false
    → (k ≡ 0) × (t ≡ []) × (partly (a ∷ c) k l b ≡ b)
no_copy (copy_in d) c k t l b h e = absurd (cc)
no_copy (copy_out p) c k t l b (h, m, n, inl z) e =
    (z, h ∙ ap (λ n. take n (half_bytes b l.ptr)) z, refl)
no_copy (copy_out p) c k t l b (h, m, n, inr y) e = absurd (cc)
no_copy _ c k t l b h e = (h.0, h.1, refl)

pub InCopy-zero : (c : List Access) (l : Local) (b : FoxdbgBuffer) → InCopy c 0 [] l b
InCopy-zero [] l b = (refl, refl)
InCopy-zero (copy_in d ∷ c) l b = (omega arith, omega arith, refl)
InCopy-zero (copy_out p ∷ c) l b = (refl, omega arith, omega arith, inl refl)
InCopy-zero (_ ∷ c) l b = (refl, refl)

set_half-Follows :
    (i : ℕ) (b : FoxdbgBuffer) (h : Half) (x : List ℕ) (c : List Access)
    → Follows i b c
    → Follows i (set_half b h x) c
unfolding set_half
set_half-Follows i b half_a x c f = f
set_half-Follows i b half_b x c f = f

partly-Follows :
    (i : ℕ) (c c' : List Access) (k : ℕ) (l : Local) (b : FoxdbgBuffer)
    → Follows i b c
    → Follows i (partly c' k l b) c
partly-Follows i c [] k l b f = f
partly-Follows i c (copy_in d ∷ c') k l b f =
    set_half-Follows i b l.ptr (overlay k d (half_bytes b l.ptr)) c f
partly-Follows i c (_ ∷ c') k l b f = f

partly-swap :
    (c : List Access) (k : ℕ) (l : Local) (b : FoxdbgBuffer)
    → (partly c k l b).swap_mutex ≡ b.swap_mutex
partly-swap [] k l b = refl
partly-swap (copy_in d ∷ c) k l b = set_half-swap_mutex b l.ptr (overlay k d (half_bytes b l.ptr))
partly-swap (_ ∷ c) k l b = refl

-- A state in which nobody has begun a copy.
pub at_rest :
    (s : System) (f : ByteSystem)
    → ((i : ℕ) → f.code i ≡ s.code i)
    → ((i : ℕ) → f.locals i ≡ s.locals i)
    → f.buffer ≡ s.buffer
    → ((i : ℕ) → (f.progress i ≡ 0) × (f.taken i ≡ []))
    → Simulates s f
at_rest s f ec el eb z = record {
  same_code = ec;
  same_locals = el;
  same_buffer = eb ∙ sym (image-zero s f.progress (λ i. (z i).0));
  in_copy = λ i. rw ((z i).0, (z i).1) (InCopy-zero (s.code i) (s.locals i) s.buffer);
}

blocked-ne-ok {ℓ} : {A : Type ℓ} {x : A} → blocked ≡ ok x → ⊥
blocked-ne-ok e = cc

pub update-same {ℓ} : {A : Type ℓ} (f : ℕ → A) (i : ℕ) (x : A) → update f i x i ≡ x
update-same f i x = rw (==_refl i) refl

-- A fact about each thread after a change at one.
pub at_each {ℓ κ} :
    {A : Type ℓ} (P : ℕ → A → Type κ) (f : ℕ → A) (i : ℕ) (x : A)
    → P i x
    → ((j : ℕ) → i ≢ j → P j (f j))
    → (j : ℕ) → P j (update f i x j)
at_each P f i x here there j = elim (Bool-cases (i == j)) [
  | inl same ↦ rw same (subst (λ k. P k x) ((==_iff i j).0 same) here)
  | inr other ↦ rw other (there j (ground arith))
]

module _ (s : System) (f : ByteSystem) (d : Disciplined s) (v : Simulates s f) (i : ℕ) (a : Access)
    (rest : List Access) (e : f.code i ≡ a ∷ rest) where
  pub at_code : s.code i ≡ a ∷ rest
  at_code = sym (v.same_code i) ∙ e

  pub here : InCopy (a ∷ rest) (f.progress i) (f.taken i) (s.locals i) s.buffer
  here = rw at_code at (v.in_copy i)

  pub follows : Follows i s.buffer (a ∷ rest)
  follows = rw at_code at (d i)

  -- If thread `i` holds the swap mutex, no other has begun.
  pub others_wait :
      s.buffer.swap_mutex ≡ some i → (j : ℕ) → i ≢ j → (f.progress j ≡ 0) × (f.taken j ≡ [])
  others_wait own j ne =
      not_begun (s.code j) (f.progress j) (f.taken j) (s.locals j) s.buffer j (v.in_copy j) (d j)
        (λ p. absurd (ground arith))

  -- A copier holds it, and what it sees is its own copy.
  pub copier :
      touches a ≡ true
      → (s.buffer.swap_mutex ≡ some i)
        × (f.buffer ≡ partly (a ∷ rest) (f.progress i) (s.locals i) s.buffer)
  copier t =
      let own = touches-owner i s.buffer a rest follows t in
      (own, v.same_buffer ∙ image-holder s f.progress i (a ∷ rest) own at_code)

  -- All that a thread sees when it makes an access that is no copy.
  pub record Seen : Type 0 where
    pub sees : f.buffer ≡ s.buffer
    pub all_rest : (j : ℕ) → (f.progress j ≡ 0) × (f.taken j ≡ [])

  pub seen :
      {r : FoxdbgBuffer × Local}
      → copies (f.locals i) a ≡ false
      → exec i a f.buffer (f.locals i) ≡ ok r
      → Seen
  seen plain x = elim (Option-cases s.buffer.swap_mutex) [
    | inl free ↦ record {
      sees = v.same_buffer ∙ image-free s f.progress free;
      all_rest = λ j.
          not_begun (s.code j) (f.progress j) (f.taken j) (s.locals j) s.buffer j (v.in_copy j)
            (d j) (λ p. absurd (ground arith));
    }
    | inr (k, own) ↦ elim (Bool-cases (i == k)) [
      | inl same ↦
          (let mine : s.buffer.swap_mutex ≡ some i =
              own ∙ ap (λ n. some n) (sym ((==_iff i k).0 same)) in
            let n =
              no_copy a rest (f.progress i) (f.taken i) (s.locals i) s.buffer here
                (rw (← v.same_locals i) plain) in
            record {
              sees = v.same_buffer ∙ image-holder s f.progress i (a ∷ rest) mine at_code ∙ n.2;
              all_rest = λ j. elim (Bool-cases (i == j)) [
                | inl eq ↦
                    subst (λ m. (f.progress m ≡ 0) × (f.taken m ≡ [])) ((==_iff i j).0 eq)
                      (n.0, n.1)
                | inr ne ↦ others_wait mine j (ground arith)
              ];
            })
      | inr other ↦ absurd (
          let img = v.same_buffer ∙ image-holder s f.progress k (s.code k) own refl in
          let b = partly (s.code k) (f.progress k) (s.locals k) s.buffer in
          let w =
            waits k i b (f.locals i) a rest (ground arith)
              (partly-swap (s.code k) (f.progress k) (s.locals k) s.buffer ∙ own)
              (partly-Follows i (a ∷ rest) (s.code k) (f.progress k) (s.locals k) s.buffer
                follows) in
          blocked-ne-ok (sym w ∙ ap (λ y. exec i a y (f.locals i)) (sym img) ∙ x))
    ]
  ]
