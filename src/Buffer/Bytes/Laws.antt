-- ===== src/Buffer/Bytes/Laws.antt =====
-- Frames stay whole and threads never stall also where copies are made byte by byte.
use foxdbg.Base.{
  ℕ, zero, suc, ◌≡◌, ◌≤◌, ◌<◌, refl, ap, sym, ◌∙◌, true, false, List, [], ◌∷◌, inl, inr, some,
  length, get_elem?, memcpy-in_range, ◌==◌, ==_iff, Bool-cases, Option-cases, All, arith,
}
use foxdbg.Outcome.{ok, blocked}
use foxdbg.Buffer.{Half, half_a, half_b, FoxdbgBuffer, half_bytes}
use foxdbg.Buffer.Calls.{Access, copy_in, copy_out, Local, exec}
use foxdbg.Buffer.Threads.{Call, System, Step, pick}
use foxdbg.Buffer.Threads.Discipline.{Disciplined, Reach-Disciplined, init-Disciplined}
use foxdbg.Buffer.Threads.Bounds.{CallFits, IsSized, IsBounded, Reach-IsBounded}
use foxdbg.Buffer.Threads.Safety.{waits}
use foxdbg.Buffer.Threads.Progress.{no_deadlock}
use foxdbg.Buffer.Threads.Frames.{IsFrame, Writes}
use foxdbg.Buffer.Threads.Whole.{copied-whole}
use foxdbg.Buffer.Bytes.{
  ByteSystem, copies, ByteStep, whole, put, put_end, get, get_end, ByteReach, byte_init,
}
use foxdbg.Buffer.Bytes.Image.{
  overlay, length-overlay, partly, half_bytes-set_half, image-free, image-holder,
}
use foxdbg.Buffer.Bytes.Relation.{Simulates, copier, here}
use foxdbg.Buffer.Bytes.Refine.{refines_atomic}

module _ (W : List ℕ → Type 0) (size : ℕ) (a b : List ℕ) (calls : ℕ → List Call)
    (writes : (i : ℕ) → All (Writes W size) (calls i)) where
  -- Let any number of threads read and write one buffer, with every `memcpy` made byte by byte and with
  -- info writes no larger than the buffer. In every reachable state, what a thread took in its last
  -- read, if it took anything, is no bytes at all or exactly one of the frames that the threads write:
  -- no read is torn between two frames.
  pub whole_frames :
      {f : ByteSystem}
      → ByteReach (byte_init size a b calls) f
      → (i : ℕ) (d : List ℕ) → (f.locals i).copied ≡ some d
      → IsFrame W d
  whole_frames r i d e =
      let (s, reach, v) = refines_atomic size a b calls r in
      copied-whole W size a b calls writes reach i d
        (ap (λ (l : Local). l.copied) (sym (v.same_locals i)) ∙ e)

get_elem?-in : (k : ℕ) (xs : List ℕ) → k < length xs → (v : ℕ) × (get_elem? xs k ≡ some v)
get_elem?-in k [] h = absurd (omega arith)
get_elem?-in zero (x ∷ xs) h = (x, refl)
get_elem?-in (suc k) (x ∷ xs) h = get_elem?-in k xs (omega arith)

half_sized :
    (size : ℕ) (b : FoxdbgBuffer) (h : Half) → IsSized size b → length (half_bytes b h) ≡ size
unfolding half_bytes
half_sized size b half_a v = v.size_a
half_sized size b half_b v = v.size_b

-- The next byte of a copy, or its end, where the halves and the sizes are as they should be.
copy_on :
    (size : ℕ) (s : System) (f : ByteSystem) (i : ℕ) (a : Access) (rest : List Access)
    → Disciplined s
    → IsBounded size s
    → Simulates s f
    → f.code i ≡ a ∷ rest
    → copies (f.locals i) a ≡ true
    → (f' : ByteSystem) × ByteStep f f'
copy_on size s f i (copy_in d) rest dis bound v e c =
    let k = f.progress i in
    let p = (s.locals i).ptr in
    let own = copier s f dis v i (copy_in d) rest e refl in
    let begun = here s f dis v i (copy_in d) rest e in
    let sized : length (half_bytes f.buffer (f.locals i).ptr) ≡ size =
      ap (λ (l : Local). length (half_bytes f.buffer l.ptr)) (v.same_locals i)
      ∙ ap (λ y. length (half_bytes y p)) own.1
      ∙ ap length (half_bytes-set_half s.buffer p (overlay k d (half_bytes s.buffer p)))
      ∙ length-overlay k d (half_bytes s.buffer p) begun.0 begun.1
      ∙ half_sized size s.buffer p bound.buffer in
    let fits : length d ≤ size = (rw (sym (v.same_code i) ∙ e) at (bound.code i)).0 in
    elim (Bool-cases (k == length d)) [
      | inl full ↦ (_, put_end i e ((==_iff k (length d)).0 full))
      | inr more ↦
          (let (w, g) = get_elem?-in k d (ground arith) in
            let (out, m, l) =
              memcpy-in_range (half_bytes f.buffer (f.locals i).ptr) k (w ∷ []) (ground arith) in
            (_, put i e g m))
    ]
copy_on size s f i (copy_out accept) rest dis bound v e c =
    let k = f.progress i in
    let own = copier s f dis v i (copy_out accept) rest e refl in
    let begun = here s f dis v i (copy_out accept) rest e in
    let sized : length (half_bytes f.buffer (f.locals i).ptr) ≡ size =
      ap (λ (l : Local). length (half_bytes f.buffer l.ptr)) (v.same_locals i)
      ∙ ap (λ y. length (half_bytes y (s.locals i).ptr)) own.1
      ∙ half_sized size s.buffer (s.locals i).ptr bound.buffer in
    let same_size : (f.locals i).size ≡ (s.locals i).size =
      ap (λ (l : Local). l.size) (v.same_locals i) in
    let fits = bound.locals i in
    elim (Bool-cases (k == (f.locals i).size)) [
      | inl full ↦ (_, get_end i e c ((==_iff k (f.locals i).size).0 full))
      | inr more ↦
          (let lt : k < (f.locals i).size = ground (arith, begun.2) in
            let (w, g) = get_elem?-in k (half_bytes f.buffer (f.locals i).ptr) (omega arith) in
            (_, get i e c lt g))
    ]
copy_on size s f i _ rest dis bound v e c = absurd (cc)

ok-ne-blocked {ℓ} : {A : Type ℓ} {x : A} → blocked ≡ ok x → ⊥
ok-ne-blocked e = cc

partly-plain :
    (a : Access) (rest : List Access) (k : ℕ) (l : Local) (b : FoxdbgBuffer)
    → copies l a ≡ false
    → partly (a ∷ rest) k l b ≡ b
partly-plain (copy_in d) rest k l b e = cc
partly-plain _ rest k l b e = refl

-- Whoever can make an access that is no copy with copies made at once can make it here.
plain_on :
    (s : System) (f : ByteSystem) (i : ℕ) (a : Access) (rest : List Access)
    {r : FoxdbgBuffer × Local}
    → Disciplined s
    → Simulates s f
    → s.code i ≡ a ∷ rest
    → copies (s.locals i) a ≡ false
    → exec i a s.buffer (s.locals i) ≡ ok r
    → f.buffer ≡ s.buffer
plain_on s f i a rest dis v e plain x = elim (Option-cases s.buffer.swap_mutex) [
  | inl free ↦ v.same_buffer ∙ image-free s f.progress free
  | inr (k, own) ↦ elim (Bool-cases (i == k)) [
    | inl same ↦
        (let mine : s.buffer.swap_mutex ≡ some i =
            own ∙ ap (λ n. some n) (sym ((==_iff i k).0 same)) in
          v.same_buffer
          ∙ image-holder s f.progress i (a ∷ rest) mine e
          ∙ partly-plain a rest (f.progress i) (s.locals i) s.buffer plain)
    | inr other ↦ absurd (
        ok-ne-blocked
          (sym (waits k i s.buffer (s.locals i) a rest (ground arith) own (rw e at (dis i))) ∙ x))
  ]
]

step_on :
    (size : ℕ) (s : System) (f : ByteSystem)
    → Disciplined s
    → IsBounded size s
    → Simulates s f
    → {t : System} → Step s t
    → (f' : ByteSystem) × ByteStep f f'
step_on size s f dis bound v (pick i {a} {rest} {b} {l} e x) =
    let e' : f.code i ≡ a ∷ rest = v.same_code i ∙ e in
    elim (Bool-cases (copies (f.locals i) a)) [
      | inl copy ↦ copy_on size s f i a rest dis bound v e' copy
      | inr plain ↦
          (let same =
              plain_on s f i a rest dis v e (ap (λ k. copies k a) (sym (v.same_locals i)) ∙ plain)
                x in
            let x' : exec i a f.buffer (f.locals i) ≡ ok (b, l) =
              ap (λ k. exec i a f.buffer k) (v.same_locals i)
              ∙ ap (λ y. exec i a y (s.locals i)) same
              ∙ x in
            (_, whole i e' plain x'))
    ]

module _ (size : ℕ) (a b : List ℕ) (calls : ℕ → List Call) (la : length a ≡ size)
    (lb : length b ≡ size) (fits : (i : ℕ) → All (CallFits size) (calls i)) where
  -- In every state that threads reach by reads, data writes of any length, and info writes that fit the
  -- buffer, with every `memcpy` made byte by byte: while some thread has an access left, some thread can
  -- make its next step. Where that is a byte of a copy, it is within the half of the buffer.
  pub no_stall :
      {f : ByteSystem}
      → ByteReach (byte_init size a b calls) f
      → (i : ℕ) {x : Access} {c : List Access} → f.code i ≡ x ∷ c
      → (f' : ByteSystem) × ByteStep f f'
  no_stall {f} r i e =
      let (s, reach, v) = refines_atomic size a b calls r in
      let dis = Reach-Disciplined (init-Disciplined size a b calls) reach in
      let bound = Reach-IsBounded size a b calls la lb fits reach in
      let (t, step) = no_deadlock size a b calls la lb fits reach i (sym (v.same_code i) ∙ e) in
      step_on size s f dis bound v step
