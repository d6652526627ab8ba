-- ===== src/Buffer/Alone/Mailbox.antt =====
-- The double buffer of lib/foxdbg_buffer.c as a mailbox for one frame: what a sequence of writes and
-- reads returns.
use foxdbg.Base.{
  ℕ, ◌≡◌, refl, ◌∙◌, ap, Bool, List, [], ◌∷◌, Option, none, some, length, leb, leb→le,
  if◌then◌else◌, arith, Bool-cases, inl, inr,
}
use foxdbg.Outcome.{Outcome, ok, map_ok, ◌>>=◌}
use foxdbg.Buffer.{FoxdbgBuffer, fresh_buffer}
use foxdbg.Buffer.Alone.{IsIdle, contents, write_buffer, read_buffer, read_buffer_lem}
use foxdbg.Buffer.Alone.Laws.{write_buffer-Written, write_buffer-Empty, fresh-IsIdle}

-- A write or a read by thread `t`.
pub data Use : Type 0 where
  writes : (t : ℕ) → List ℕ → Use
  reads : (t : ℕ) → (ℕ → Bool) → Use

abbrev Answers : Type 0
Answers = List (Option (List ℕ))

-- The uses one after the other, with what each read copied, if anything.
unfoldable pub use_buffer : List Use → FoxdbgBuffer → Outcome (Answers × FoxdbgBuffer)
use_buffer [] b = ok ([], b)
use_buffer (writes t d ∷ rest) b = write_buffer t d b >>= use_buffer rest
use_buffer (reads t accept ∷ rest) b =
    read_buffer t accept b >>= λ r. map_ok (λ s. (r.0 ∷ s.0, s.1)) (use_buffer rest r.1)

-- A mailbox of `size` bytes: it holds the last frame, or an empty one in place of a frame that is too
-- large; a read leaves it as it is.
unfoldable pub mailbox : ℕ → List Use → List ℕ → Answers × List ℕ
mailbox size [] m = ([], m)
mailbox size (writes t d ∷ rest) m = mailbox size rest (if leb (length d) size then d else [])
mailbox size (reads t accept ∷ rest) m =
    let (answers, last) = mailbox size rest m in
    ((if accept (length m) then some m else none) ∷ answers, last)

-- The buffer shows the frame that the mailbox holds.
pub record Holds (size : ℕ) (m : List ℕ) (b : FoxdbgBuffer) : Type 0 where
  pub idle : IsIdle b
  pub sized : b.buffer_size ≡ size
  pub shows : contents b ≡ m
  pub populated : b.front_buffer_size ≡ length m

Holds-write :
    (size t : ℕ) (d m : List ℕ) (b : FoxdbgBuffer)
    → Holds size m b
    → (b' : FoxdbgBuffer) × (write_buffer t d b ≡ ok b')
      × Holds size (if leb (length d) size then d else []) b'
Holds-write size t d m b h = elim (Bool-cases (leb (length d) size)) [
  | inl fits ↦
      (let (b', e, w) =
          write_buffer-Written t b h.idle d (omega (arith, leb→le (length d) size fits, h.sized)) in
        (
          b',
          e,
          rw fits (record {
            idle = w.idle;
            sized = w.same_size ∙ h.sized;
            shows = w.shows;
            populated = w.size;
          }),
        ))
  | inr large ↦
      (let (b', e, w) = write_buffer-Empty t b h.idle d (ground (arith, h.sized)) in
        (
          b',
          e,
          rw large (record {
            idle = w.idle;
            sized = w.same_size ∙ h.sized;
            shows = w.shows;
            populated = w.size;
          }),
        ))
]

Holds-read :
    (size t : ℕ) (accept : ℕ → Bool) (m : List ℕ) (b : FoxdbgBuffer)
    → Holds size m b
    → read_buffer t accept b ≡ ok (if accept (length m) then some m else none, b)
Holds-read size t accept m b h =
    read_buffer_lem t b h.idle accept
    ∙ ap (λ n. ok (if accept n then some (contents b) else none, b)) h.populated
    ∙ ap (λ x. ok (if accept (length m) then some x else none, b)) h.shows

use_buffer-Holds :
    (size : ℕ) (uses : List Use) (m : List ℕ) (b : FoxdbgBuffer)
    → Holds size m b
    → (b' : FoxdbgBuffer) × (use_buffer uses b ≡ ok ((mailbox size uses m).0, b'))
      × Holds size (mailbox size uses m).1 b'
unfolding use_buffer mailbox
use_buffer-Holds size [] m b h = (b, refl, h)
use_buffer-Holds size (writes t d ∷ rest) m b h =
    let (b1, e, h1) = Holds-write size t d m b h in
    let (b2, e2, h2) = use_buffer-Holds size rest (if leb (length d) size then d else []) b1 h1 in
    (b2, ap (λ r. r >>= use_buffer rest) e ∙ e2, h2)
use_buffer-Holds size (reads t accept ∷ rest) m b h =
    let (b2, e2, h2) = use_buffer-Holds size rest m b h in
    (
      b2,
      ap (λ r. r >>= λ x. map_ok (λ s. (x.0 ∷ s.0, s.1)) (use_buffer rest x.1))
            (Holds-read size t accept m b h)
          ∙ ap (map_ok (λ s. ((if accept (length m) then some m else none) ∷ s.0, s.1))) e2,
      h2,
    )

-- A buffer as it was allocated, whatever the fresh halves hold, is a mailbox that is empty at first:
-- any sequence of writes of any size and reads, by threads that do not meet, returns, and each read
-- copies what the mailbox holds, if it accepts the size, and nothing otherwise. Behind the sequence
-- the buffer is well formed and shows what the mailbox holds.
pub refines_mailbox :
    (size : ℕ) (a b : List ℕ)
    → length a ≡ size
    → length b ≡ size
    → (uses : List Use)
    → (b' : FoxdbgBuffer) × (use_buffer uses (fresh_buffer size a b)
        ≡ ok ((mailbox size uses []).0, b'))
      × Holds size (mailbox size uses []).1 b'
refines_mailbox size a b la lb uses =
    use_buffer-Holds size uses [] (fresh_buffer size a b)
      (record { idle = fresh-IsIdle size a b la lb; sized = refl; shows = refl; populated = refl })
