-- ===== src/Buffer/Threads/Programs.antt =====
-- The calls of lib/foxdbg_buffer.c have the shape that keeps frames whole.
use foxdbg.Base.{ℕ, refl, List, [], ◌∷◌, ◌++◌, length, leb, Bool-cases, inl, inr, All, le→leb}
use foxdbg.Buffer.{FoxdbgBuffer}
use foxdbg.Buffer.Calls.{write, swap, Access, unlock, Local, swap_buffers}
use foxdbg.Buffer.Threads.{Call, write_call, info_call, read_call, call_code, program}
use foxdbg.Buffer.Threads.Frames.{Next, Shaped, Writes, Doing}

module _ (W : List ℕ → Type 0) where
  -- `swap_buffers`, behind the unlocking of `end_write`.
  Shaped-swap :
      (rest : List Access)
      → Next W (unlock swap) rest
      → Shaped W rest
      → Shaped W ((unlock write ∷ unlock swap ∷ swap_buffers) ++ rest)
  Shaped-swap rest n r = (tt, (tt, (tt, (tt, (tt, (tt, (tt, (tt, (n, r)))))))))

  Shaped-call :
      (size : ℕ) (c : Call) (rest : List Access)
      → Writes W size c
      → Next W (unlock swap) rest
      → Shaped W rest
      → Shaped W (call_code size c ++ rest)
  Shaped-call size (write_call d) rest h n r = elim (Bool-cases (leb (length d) size)) [
    | inl fits ↦ rw fits (tt, (tt, (tt, ((h, refl), (tt, Shaped-swap rest n r)))))
    | inr large ↦ rw large (tt, (tt, (refl, (tt, Shaped-swap rest n r))))
  ]
  Shaped-call size (info_call d) rest h n r =
      rw (le→leb (length d) size h.1) (tt, (tt, (tt, ((h.0, refl), (tt, Shaped-swap rest n r)))))
  Shaped-call size (read_call f) rest h n r = (tt, (tt, (tt, (tt, (tt, (n, r))))))

  Next-program : (size : ℕ) (calls : List Call) → Next W (unlock swap) (program size calls)
  unfolding program
  Next-program size [] = tt
  Next-program size (write_call d ∷ calls) = tt
  Next-program size (info_call d ∷ calls) = tt
  Next-program size (read_call f ∷ calls) = tt

  pub Shaped-program :
      (size : ℕ) (calls : List Call) → All (Writes W size) calls → Shaped W (program size calls)
  unfolding program
  Shaped-program size [] h = tt
  Shaped-program size (c ∷ calls) h =
      Shaped-call size c (program size calls) h.0 (Next-program size calls)
        (Shaped-program size calls h.1)

  pub Doing-program :
      (size : ℕ) (calls : List Call) (b : FoxdbgBuffer) (l : Local)
      → Doing W b l (program size calls)
  unfolding program
  Doing-program size [] b l = tt
  Doing-program size (write_call d ∷ calls) b l = tt
  Doing-program size (info_call d ∷ calls) b l = tt
  Doing-program size (read_call f ∷ calls) b l = tt
