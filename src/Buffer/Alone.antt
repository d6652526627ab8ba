-- ===== src/Buffer/Alone.antt =====
-- The calls of lib/foxdbg_buffer.c by a thread that meets no other: what a write publishes and what
-- a read returns.
pub mod Laws
pub mod Mailbox
use foxdbg.Base.{
  ℕ, ◌≡◌, ◌≢◌, ◌≤◌, ◌<◌, ◌∙◌, sym, ap, refl, Bool, true, false, List, [], ◌∷◌, ◌++◌, Option, none,
  some, length, leb, ◌==◌, if◌then◌else◌, arith, Bool-cases, inl, inr, take, drop, take-append,
  memcpy, memcpy-zero, length-append, length-drop, leb→le, le→leb, lt→leb_false, ==_refl,
}
use foxdbg.Outcome.{Outcome, ok, fault, map_ok, ◌>>=◌}
use foxdbg.Buffer.{Half, half_a, half_b, FoxdbgBuffer, half_bytes, set_half}
use foxdbg.Buffer.Calls.{Local, exec, run, write_frame, write_info, read_frame, owns}

-- No mutex is held, both halves are as large as `buffer_size`, the pointers lead to different halves,
-- and the populated sizes are no larger.
pub record IsIdle (b : FoxdbgBuffer) : Type 0 where
  pub write_free : b.write_mutex ≡ none
  pub read_free : b.read_mutex ≡ none
  pub swap_free : b.swap_mutex ≡ none
  pub size_a : length b.buffer_a ≡ b.buffer_size
  pub size_b : length b.buffer_b ≡ b.buffer_size
  pub front_fits : b.front_buffer_size ≤ b.buffer_size
  pub back_fits : b.back_buffer_size ≤ b.buffer_size
  pub apart : b.front_buffer ≢ b.back_buffer

-- The bytes that a reader gets.
abbrev pub contents : FoxdbgBuffer → List ℕ
contents b = take b.front_buffer_size (half_bytes b b.front_buffer)

abbrev pub blank : Local
blank = record { ptr = half_a; size = 0; copied = none }

-- `foxdbg_write_channel`'s part on a buffer, by thread `t`.
unfoldable pub write_buffer : ℕ → List ℕ → FoxdbgBuffer → Outcome FoxdbgBuffer
write_buffer t d b = map_ok (λ r. r.0) (run t (write_frame b.buffer_size d) (b, blank))

-- `foxdbg_write_channel_info`'s part.
unfoldable pub write_info_buffer : ℕ → List ℕ → FoxdbgBuffer → Outcome FoxdbgBuffer
write_info_buffer t d b = map_ok (λ r. r.0) (run t (write_info b.buffer_size d) (b, blank))

-- A sender's read: the bytes if the size is accepted, and the buffer behind the read.
unfoldable pub read_buffer :
    ℕ → (ℕ → Bool) → FoxdbgBuffer → Outcome (Option (List ℕ) × FoxdbgBuffer)
read_buffer t accept b = map_ok (λ r. (r.1.copied, r.0)) (run t (read_frame accept) (b, blank))

-- The buffer behind a write of `populated` bytes: the halves have changed places.
pub published : FoxdbgBuffer → ℕ → FoxdbgBuffer
published b populated = record b {
  front_buffer = b.back_buffer;
  back_buffer = b.front_buffer;
  front_buffer_size = populated;
  back_buffer_size = b.front_buffer_size;
}

pub filled : FoxdbgBuffer → List ℕ → FoxdbgBuffer
unfolding set_half half_bytes
filled b d = set_half b b.back_buffer (d ++ drop (length d) (half_bytes b b.back_buffer))

module _ (t : ℕ) (b : FoxdbgBuffer) (v : IsIdle b) where
  pub write_buffer-fits :
      (d : List ℕ)
      → length d ≤ b.buffer_size
      → write_buffer t d b ≡ ok (published (filled b d) (length d))
  unfolding write_buffer run published filled
  write_buffer-fits d h =
      rw (le→leb (length d) b.buffer_size h)
        (ground (arith, ==_refl t, memcpy-zero b.buffer_a d, memcpy-zero b.buffer_b d))

  pub write_buffer-large :
      (d : List ℕ) → b.buffer_size < length d → write_buffer t d b ≡ ok (published b 0)
  unfolding write_buffer run published
  write_buffer-large d h = rw (lt→leb_false (length d) b.buffer_size h) (ground (arith, ==_refl t))

  pub read_buffer_lem :
      (accept : ℕ → Bool)
      → read_buffer t accept b
        ≡ ok (if accept b.front_buffer_size then some (contents b) else none, b)
  unfolding read_buffer run
  read_buffer_lem accept = ground (arith, ==_refl t)
