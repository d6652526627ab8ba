-- ===== src/Buffer/Alone/Laws.antt =====
-- What is read from a buffer after a write, and that writes keep a buffer well formed.
use foxdbg.Base.{
  ℕ, ◌≡◌, ◌≤◌, ◌<◌, ◌∙◌, ap, refl, Bool, true, List, [], none, some, length, leb, if◌then◌else◌,
  arith, Bool-cases, inl, inr, drop, take-append, length-append, length-drop, leb→le, lt→leb_false,
  ==_refl,
}
use mathlib.Core.Path.{ap₂}
use foxdbg.Outcome.{ok, fault, map_ok, ◌>>=◌}
use foxdbg.Buffer.{FoxdbgBuffer, half_bytes, fresh_buffer}
use foxdbg.Buffer.Calls.{run}
use foxdbg.Buffer.Alone.{
  IsIdle, contents, write_buffer, write_info_buffer, read_buffer, published, filled,
  write_buffer-fits, write_buffer-large, read_buffer_lem,
}

pub fresh-IsIdle :
    (size : ℕ) (a b : List ℕ) → length a ≡ size → length b ≡ size → IsIdle (fresh_buffer size a b)
fresh-IsIdle size a b la lb = ground arith

published-IsIdle :
    (b : FoxdbgBuffer) (n : ℕ) → IsIdle b → n ≤ b.buffer_size → IsIdle (published b n)
unfolding published
published-IsIdle b n v h = ground arith

filled-IsIdle :
    (b : FoxdbgBuffer) (d : List ℕ) → IsIdle b → length d ≤ b.buffer_size → IsIdle (filled b d)
unfolding filled
filled-IsIdle b d v h = ground (
  arith,
  length-append d (drop (length d) b.buffer_a),
  length-append d (drop (length d) b.buffer_b),
  length-drop (length d) b.buffer_a,
  length-drop (length d) b.buffer_b,
)

-- The buffer behind a write: whole, of the same size, and with what the write published.
pub record Written (d : List ℕ) (b b' : FoxdbgBuffer) : Type 0 where
  pub idle : IsIdle b'
  pub same_size : b'.buffer_size ≡ b.buffer_size
  pub size : b'.front_buffer_size ≡ length d
  pub shows : contents b' ≡ d

pub read-Written :
    (u : ℕ) (accept : ℕ → Bool) (d : List ℕ) (b b' : FoxdbgBuffer)
    → Written d b b'
    → map_ok (λ r. r.0) (read_buffer u accept b') ≡ ok (if accept (length d) then some d else none)
read-Written u accept d b b' w =
    ap (map_ok (λ r. r.0)) (read_buffer_lem u b' w.idle accept)
    ∙ ap₂ (λ n c. ok (if accept n then some c else none)) w.size w.shows

module _ (t : ℕ) (b : FoxdbgBuffer) (v : IsIdle b) where
  -- A write of a frame that fits, to an idle, well-formed buffer, returns and publishes that frame;
  -- the buffer is idle, well formed and of the same size again.
  pub write_buffer-Written :
      (d : List ℕ)
      → length d ≤ b.buffer_size
      → (b' : FoxdbgBuffer) × (write_buffer t d b ≡ ok b') × Written d b b'
  unfolding published filled
  write_buffer-Written d h = (
    published (filled b d) (length d),
    write_buffer-fits t b v d h,
    record {
      idle = published-IsIdle (filled b d) (length d) (filled-IsIdle b d v h) (ground arith);
      same_size = ground arith;
      size = refl;
      shows = ground (arith, take-append d (drop (length d) (half_bytes b b.back_buffer)));
    },
  )

  -- A write of a frame that does not fit publishes an empty frame.
  pub write_buffer-Empty :
      (d : List ℕ)
      → b.buffer_size < length d
      → (b' : FoxdbgBuffer) × (write_buffer t d b ≡ ok b') × Written [] b b'
  unfolding published
  write_buffer-Empty d h = (
    published b 0,
    write_buffer-large t b v d h,
    record {
      idle = published-IsIdle b 0 v (omega arith);
      same_size = refl;
      size = refl;
      shows = refl;
    },
  )

  -- What a read by one thread returns right after `foxdbg_write_channel` wrote `d` to an idle,
  -- well-formed buffer: `d` itself if it fits the buffer and an empty frame if not, as far as the
  -- reader accepts the size, and nothing if it does not.
  pub read-write :
      (u : ℕ) (accept : ℕ → Bool) (d : List ℕ)
      → let frame = if leb (length d) b.buffer_size then d else [] in
        map_ok (λ r. r.0) (write_buffer t d b >>= read_buffer u accept)
        ≡ ok (if accept (length frame) then some frame else none)
  read-write u accept d = elim (Bool-cases (leb (length d) b.buffer_size)) [
    | inl fits ↦ rw fits (
        let (b', e, w) = write_buffer-Written d (leb→le (length d) b.buffer_size fits) in
        rw e (read-Written u accept d b b' w))
    | inr large ↦ rw large (
        let (b', e, w) = write_buffer-Empty d (ground arith) in
        rw e (read-Written u accept [] b b' w))
  ]

  -- A read gives the published frame if its size is accepted, nothing if not, and leaves the buffer
  -- as it was.
  pub read-same :
      (accept : ℕ → Bool)
      → read_buffer t accept b
        ≡ ok (if accept b.front_buffer_size then some (contents b) else none, b)
  read-same accept = read_buffer_lem t b v accept

  -- `foxdbg_write_channel_info` publishes the size that it was given also where it copied nothing:
  -- on an idle, well-formed buffer, a write that does not fit returns, with that size published,
  -- and the next read that accepts the size runs past the buffer.
  pub info_overrun :
      (u : ℕ) (accept : ℕ → Bool) (d : List ℕ)
      → b.buffer_size < length d
      → accept (length d) ≡ true
      → (b' : FoxdbgBuffer) × (write_info_buffer t d b ≡ ok b')
        × (b'.front_buffer_size ≡ length d)
        × (read_buffer u accept b' ≡ fault)
  unfolding write_info_buffer run read_buffer published
  info_overrun u accept d h ok_size = (
    published b (length d),
    rw (lt→leb_false (length d) b.buffer_size h) (ground (arith, ==_refl t)),
    refl,
    ground (arith, ==_refl u),
  )
