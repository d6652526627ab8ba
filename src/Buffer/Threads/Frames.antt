-- ===== src/Buffer/Threads/Frames.antt =====
-- Frames go through a buffer whole: what a reader copies is what some writer wrote.
use foxdbg.Base.{
  ℕ, ◌≡◌, ◌≢◌, ◌≤◌, refl, Bool, true, false, List, [], ◌∷◌, none, some, length, arith, Option-cases,
  ◌⊎◌, inl, inr, take, take-memcpy, memcpy,
}
use foxdbg.Outcome.{ok}
use foxdbg.Buffer.{FoxdbgBuffer, half_bytes}
use foxdbg.Buffer.Calls.{
  write, read, swap, Access, lock, unlock, get_back, get_front, copy_in, set_size, exchange,
  copy_out, Local, exec,
}
use foxdbg.Buffer.Threads.{Call, write_call, info_call, read_call}

-- A copy leaves its bytes in the half that the pointer leads to.
stored :
    (b : FoxdbgBuffer) (l : Local) (d out : List ℕ) (t : ℕ) {b' : FoxdbgBuffer} {l' : Local}
    → l.ptr ≡ b.back_buffer
    → memcpy (half_bytes b l.ptr) 0 d ≡ some out
    → exec t (copy_in d) b l ≡ ok (b', l')
    → half_bytes b' b'.back_buffer ≡ out
unfolding exec
stored b l d out t p c e = ground arith

stored_fault :
    (b : FoxdbgBuffer) (l : Local) (d : List ℕ) (t : ℕ) {b' : FoxdbgBuffer} {l' : Local}
    → memcpy (half_bytes b l.ptr) 0 d ≡ none
    → exec t (copy_in d) b l ≡ ok (b', l')
    → ⊥
unfolding exec
stored_fault b l d t p e = ground arith

-- `W` holds of the frames that some call writes.
module _ (W : List ℕ → Type 0) where
  -- No bytes at all, or one of the frames.
  abbrev pub IsFrame : List ℕ → Type 0
  IsFrame bytes = (bytes ≡ []) ⊎ W bytes

  -- What may stand behind an access: a copy and its size belong together.
  abbrev pub Next : Access → List Access → Type 0
  Next get_back (copy_in d ∷ c) = Unit
  Next get_back (set_size n ∷ c) = n ≡ 0
  Next get_back _ = ⊥
  Next get_front (copy_out f ∷ c) = Unit
  Next get_front _ = ⊥
  Next (copy_in d) (set_size n ∷ c) = W d × (n ≡ length d)
  Next (copy_in d) _ = ⊥
  Next _ (copy_in d ∷ c) = ⊥
  Next _ (set_size n ∷ c) = ⊥
  Next _ (copy_out f ∷ c) = ⊥
  Next _ _ = Unit

  abbrev pub Shaped : List Access → Type 0
  Shaped [] = Unit
  Shaped (a ∷ c) = Next a c × Shaped c

  -- A data write of any length; an info write that fits; a read.
  abbrev pub Writes : ℕ → Call → Type 0
  Writes size (write_call d) = W d
  Writes size (info_call d) = W d × (length d ≤ size)
  Writes size (read_call f) = Unit

  -- What the thread that is about to make the first access of its code knows of the buffer.
  abbrev pub Doing : FoxdbgBuffer → Local → List Access → Type 0
  Doing b l (copy_in d ∷ c) = l.ptr ≡ b.back_buffer
  Doing b l (set_size n ∷ c) = IsFrame (take n (half_bytes b b.back_buffer))
  Doing b l (copy_out f ∷ c) = (l.ptr ≡ b.front_buffer) × (l.size ≡ b.front_buffer_size)
  Doing b l _ = Unit

  pub mover :
      (t : ℕ) (a : Access) (c : List Access) (b : FoxdbgBuffer) (l : Local) {b' : FoxdbgBuffer}
      {l' : Local}
      → Next a c
      → Doing b l (a ∷ c)
      → exec t a b l ≡ ok (b', l')
      → Doing b' l' c
  unfolding exec
  mover t get_back (copy_in d ∷ c) b l x h e = ground arith
  mover t get_back (set_size n ∷ c) b l x h e = rw x (inl refl)
  mover t get_back _ b l x h e = absurd x
  mover t get_front (copy_out f ∷ c) b l x h e = ground arith
  mover t get_front _ b l x h e = absurd x
  mover t (copy_in d) (set_size n ∷ c) b l x h e =
      elim (Option-cases (memcpy (half_bytes b l.ptr) 0 d)) [
        | inl past ↦ absurd (stored_fault b l d t past e)
        | inr (out, copied) ↦
            rw (stored b l d out t h copied e, x.1, take-memcpy (half_bytes b l.ptr) d copied)
              (inr x.0)
      ]
  mover t (copy_in d) _ b l x h e = absurd x
  mover t _ (copy_in d ∷ c) b l x h e = absurd x
  mover t _ (set_size n ∷ c) b l x h e = absurd x
  mover t _ (copy_out f ∷ c) b l x h e = absurd x
  mover t _ _ b l x h e = tt

abbrev pub front_frame : FoxdbgBuffer → List ℕ
front_frame b = take b.front_buffer_size (half_bytes b b.front_buffer)

abbrev pub back_frame : FoxdbgBuffer → List ℕ
back_frame b = take b.back_buffer_size (half_bytes b b.back_buffer)

-- The accesses that change a frame.
abbrev pub is_exchange : Access → Bool
is_exchange exchange = true
is_exchange _ = false

abbrev pub changes_back : Access → Bool
changes_back exchange = true
changes_back (copy_in d) = true
changes_back (set_size n) = true
changes_back _ = false

module _ (t : ℕ) (a : Access) (c : List Access) (b : FoxdbgBuffer) (l : Local) where
  pub exec-apart :
      {b' : FoxdbgBuffer} {l' : Local}
      → b.front_buffer ≢ b.back_buffer
      → exec t a b l ≡ ok (b', l')
      → b'.front_buffer ≢ b'.back_buffer
  unfolding exec
  exec-apart h e = go a e
    where
      go :
          (x : Access) {b' : FoxdbgBuffer} {l' : Local}
          → exec t x b l ≡ ok (b', l')
          → b'.front_buffer ≢ b'.back_buffer
      go (lock swap) e = ground arith
      go (lock read) e = ground arith
      go (lock write) e = ground arith
      go (unlock swap) e = ground arith
      go (unlock read) e = ground arith
      go (unlock write) e = ground arith
      go _ e = ground arith

pub exec-front :
    (t : ℕ) (a : Access) (b : FoxdbgBuffer) (l : Local) {b' : FoxdbgBuffer} {l' : Local}
    → b.front_buffer ≢ b.back_buffer
    → ((d : List ℕ) → a ≡ copy_in d → l.ptr ≡ b.back_buffer)
    → is_exchange a ≡ false
    → exec t a b l ≡ ok (b', l')
    → front_frame b' ≡ front_frame b
unfolding exec
exec-front t (lock swap) b l ne p x e = ground arith
exec-front t (lock read) b l ne p x e = ground arith
exec-front t (lock write) b l ne p x e = ground arith
exec-front t (unlock swap) b l ne p x e = ground arith
exec-front t (unlock read) b l ne p x e = ground arith
exec-front t (unlock write) b l ne p x e = ground arith
exec-front t (copy_in d) b l ne p x e = ground (arith, p d refl)
exec-front t _ b l ne p x e = ground arith

pub exec-back :
    (t : ℕ) (a : Access) (b : FoxdbgBuffer) (l : Local) {b' : FoxdbgBuffer} {l' : Local}
    → changes_back a ≡ false
    → exec t a b l ≡ ok (b', l')
    → back_frame b' ≡ back_frame b
unfolding exec
exec-back t (lock swap) b l x e = ground arith
exec-back t (lock read) b l x e = ground arith
exec-back t (lock write) b l x e = ground arith
exec-back t (unlock swap) b l x e = ground arith
exec-back t (unlock read) b l x e = ground arith
exec-back t (unlock write) b l x e = ground arith
exec-back t _ b l x e = ground arith

pub exec-exchange :
    (t : ℕ) (b : FoxdbgBuffer) (l : Local) {b' : FoxdbgBuffer} {l' : Local}
    → exec t exchange b l ≡ ok (b', l')
    → (front_frame b' ≡ back_frame b) × (back_frame b' ≡ front_frame b)
unfolding exec
exec-exchange t b l e = ground arith

pub exec-set_size :
    (t n : ℕ) (b : FoxdbgBuffer) (l : Local) {b' : FoxdbgBuffer} {l' : Local}
    → exec t (set_size n) b l ≡ ok (b', l')
    → back_frame b' ≡ take n (half_bytes b b.back_buffer)
unfolding exec
exec-set_size t n b l e = ground arith

-- What a reader takes is the front frame.
pub exec-copied :
    (t : ℕ) (a : Access) (b : FoxdbgBuffer) (l : Local) {b' : FoxdbgBuffer} {l' : Local}
    (d : List ℕ)
    → ((f : ℕ → Bool) → a ≡ copy_out f → (l.ptr ≡ b.front_buffer) × (l.size ≡ b.front_buffer_size))
    → exec t a b l ≡ ok (b', l')
    → l'.copied ≡ some d
    → (l.copied ≡ some d) ⊎ (d ≡ front_frame b)
unfolding exec
exec-copied t (lock swap) b l d p e h = ground arith
exec-copied t (lock read) b l d p e h = ground arith
exec-copied t (lock write) b l d p e h = ground arith
exec-copied t (unlock swap) b l d p e h = ground arith
exec-copied t (unlock read) b l d p e h = ground arith
exec-copied t (unlock write) b l d p e h = ground arith
exec-copied t (copy_out f) b l d p e h = ground (arith, p f refl)
exec-copied t _ b l d p e h = ground arith
