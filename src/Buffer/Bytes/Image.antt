-- ===== src/Buffer/Bytes/Image.antt =====
-- What a buffer looks like while bytes are copied into it, given what it was before the copy.
use foxdbg.Base.{
  ℕ, zero, suc, ◌+◌, ◌≡◌, ◌≤◌, refl, ap, ◌∙◌, List, [], ◌∷◌, ◌++◌, Option, none, some, length, take,
  drop, get_elem?, memcpy, memcpy-parts, length-append, length-take, length-drop, arith,
}
use foxdbg.Buffer.{Half, half_a, half_b, FoxdbgBuffer, half_bytes, set_half}
use foxdbg.Buffer.Calls.{Access, copy_in, Local}
use foxdbg.Buffer.Threads.{System}

-- `k` bytes of `d` over the start of `h`.
abbrev pub overlay : ℕ → List ℕ → List ℕ → List ℕ
overlay k d h = take k d ++ drop k h

module _ {ℓ} {A : Type ℓ} where
  pub take-all : (xs : List A) → take (length xs) xs ≡ xs
  take-all [] = refl
  take-all (x ∷ xs) = ap (λ r. x ∷ r) (take-all xs)

  -- One more element.
  pub take-suc :
      (k : ℕ) (xs : List A) {v : A}
      → get_elem? xs k ≡ some v
      → take (suc k) xs ≡ take k xs ++ (v ∷ [])
  take-suc k [] e = cc
  take-suc zero (x ∷ xs) e = cc
  take-suc (suc k) (x ∷ xs) e = ap (λ r. x ∷ r) (take-suc k xs e)

  pub get_elem?-lt : (k : ℕ) (xs : List A) {v : A} → get_elem? xs k ≡ some v → suc k ≤ length xs
  get_elem?-lt k [] e = cc
  get_elem?-lt zero (x ∷ xs) e = omega arith
  get_elem?-lt (suc k) (x ∷ xs) e = omega (arith, get_elem?-lt k xs e)

pub length-overlay :
    (k : ℕ) (d h : List ℕ) → k ≤ length d → k ≤ length h → length (overlay k d h) ≡ length h
length-overlay k d h hd hh =
    omega (arith, length-append (take k d) (drop k h), length-take k d, length-drop k h)

-- A byte written behind the bytes that are there.
overlay_put :
    (k : ℕ) (d h : List ℕ) {v : ℕ}
    → get_elem? d k ≡ some v
    → k ≤ length h
    → take k (overlay k d h) ++ ((v ∷ []) ++ drop (suc k) (overlay k d h)) ≡ overlay (suc k) d h
overlay_put k [] h e fits = cc
overlay_put zero (x ∷ d) h e fits = cc
overlay_put (suc k) (x ∷ d) [] e fits = elim fits [ ]
overlay_put (suc k) (x ∷ d) (y ∷ h) e fits = ap (λ r. x ∷ r) (overlay_put k d h e (omega arith))

pub memcpy-overlay :
    (k : ℕ) (d h : List ℕ) {v : ℕ} {out : List ℕ}
    → get_elem? d k ≡ some v
    → k ≤ length h
    → memcpy (overlay k d h) k (v ∷ []) ≡ some out
    → (out ≡ overlay (suc k) d h) × (suc k ≤ length h)
memcpy-overlay k d h {v} e fits c =
    let p = memcpy-parts (overlay k d h) k (v ∷ []) c in
    let next : k + length (v ∷ []) ≡ suc k = omega arith in
    (
      p.1 ∙ rw next (overlay_put k d h e fits),
      omega (arith, p.0, length-overlay k d h (omega (arith, get_elem?-lt k d e)) fits),
    )

-- What the copy that the thread is in has made of the buffer so far.
abbrev pub partly : List Access → ℕ → Local → FoxdbgBuffer → FoxdbgBuffer
partly (copy_in d ∷ _) k l b = set_half b l.ptr (overlay k d (half_bytes b l.ptr))
partly _ k l b = b

-- The buffer, given what it would be had the holder of the swap mutex not begun its copy.
abbrev pub image : System → (ℕ → ℕ) → FoxdbgBuffer
image s progress = elim s.buffer.swap_mutex [
  | none ↦ s.buffer
  | some i ↦ partly (s.code i) (progress i) (s.locals i) s.buffer
]

set_half-same : (b : FoxdbgBuffer) (h : Half) → set_half b h (half_bytes b h) ≡ b
unfolding set_half half_bytes
set_half-same b half_a = refl
set_half-same b half_b = refl

pub half_bytes-set_half :
    (b : FoxdbgBuffer) (h : Half) (x : List ℕ) → half_bytes (set_half b h x) h ≡ x
unfolding set_half half_bytes
half_bytes-set_half b half_a x = refl
half_bytes-set_half b half_b x = refl

pub set_half-set_half :
    (b : FoxdbgBuffer) (h : Half) (x y : List ℕ) → set_half (set_half b h x) h y ≡ set_half b h y
unfolding set_half
set_half-set_half b half_a x y = refl
set_half-set_half b half_b x y = refl

pub set_half-swap_mutex :
    (b : FoxdbgBuffer) (h : Half) (x : List ℕ) → (set_half b h x).swap_mutex ≡ b.swap_mutex
unfolding set_half
set_half-swap_mutex b half_a x = refl
set_half-swap_mutex b half_b x = refl

partly-zero : (c : List Access) (l : Local) (b : FoxdbgBuffer) → partly c 0 l b ≡ b
partly-zero [] l b = refl
partly-zero (copy_in d ∷ c) l b = set_half-same b l.ptr
partly-zero (_ ∷ c) l b = refl

-- A buffer is what it is where nothing has been copied yet.
pub image-zero :
    (s : System) (progress : ℕ → ℕ) → ((i : ℕ) → progress i ≡ 0) → image s progress ≡ s.buffer
image-zero s progress h = go s.buffer.swap_mutex
  where
    go :
        (m : Option ℕ)
        → elim m [ none ↦ s.buffer | some i ↦ partly (s.code i) (progress i) (s.locals i) s.buffer ]
          ≡ s.buffer
    go none = refl
    go (some i) =
        ap (λ k. partly (s.code i) k (s.locals i) s.buffer) (h i)
        ∙ partly-zero (s.code i) (s.locals i) s.buffer

pub image-free :
    (s : System) (progress : ℕ → ℕ) → s.buffer.swap_mutex ≡ none → image s progress ≡ s.buffer
image-free s progress free =
    ap
      (λ (m : Option ℕ). elim m [
        | none ↦ s.buffer
        | some j ↦ partly (s.code j) (progress j) (s.locals j) s.buffer
      ])
      free

-- Where thread `i` holds the swap mutex.
pub image-holder :
    (s : System) (progress : ℕ → ℕ) (i : ℕ) (c : List Access)
    → s.buffer.swap_mutex ≡ some i
    → s.code i ≡ c
    → image s progress ≡ partly c (progress i) (s.locals i) s.buffer
image-holder s progress i c own e =
    ap
      (λ (m : Option ℕ). elim m [
        | none ↦ s.buffer
        | some j ↦ partly (s.code j) (progress j) (s.locals j) s.buffer
      ])
      own
    ∙ ap (λ x. partly x (progress i) (s.locals i) s.buffer) e
