-- ===== src/Registry/Writes.antt =====
-- `foxdbg_write_channel` on a valid list of channels.
use foxdbg.Base.{
  ℕ, zero, suc, ◌+◌, ◌^◌, ◌≡◌, ◌≢◌, ◌≤◌, ◌<◌, refl, true, false, List, [], ◌∷◌, ℤ, pos, to_int,
  to_int-small, eq_int, eq_int_iff, if◌then◌else◌, leb, length, All, arith, Bool-cases, inl, inr,
  leb→le, some, ap, sym, ◌∙◌,
}
use foxdbg.Outcome.{ok}
use foxdbg.Buffer.{FoxdbgBuffer}
use foxdbg.Buffer.Alone.{contents, write_buffer}
use foxdbg.Buffer.Alone.Laws.{Written, write_buffer-Written, write_buffer-Empty}
use foxdbg.Channel.{Channel}
use foxdbg.Registry.{Foxdbg, write_to, write_channel}
use foxdbg.Registry.Invariant.{ChannelOk, Numbered, IsValid}

-- What a write leaves in a channel: all as it was but the data buffer, which shows the frame if that
-- fits, and an empty one if not.
pub record Wrote (d : List ℕ) (c c' : Channel) : Type 0 where
  pub rest_same : c' ≡ record c { data_buffer = c'.data_buffer }
  pub shown : contents c'.data_buffer ≡ (if leb (length d) c.data_buffer.buffer_size then d else [])

-- The lists agree but at position `k`, where `P` holds.
abbrev pub OneChanged : (Channel → Channel → Type 0) → ℕ → List Channel → List Channel → Type 0
OneChanged P zero (c ∷ cs) (c' ∷ cs') = P c c' × (cs' ≡ cs)
OneChanged P (suc k) (c ∷ cs) (c' ∷ cs') = (c' ≡ c) × OneChanged P k cs cs'
OneChanged P _ _ _ = ⊥

pub write_one :
    (t : ℕ) (d : List ℕ) (c : Channel)
    → ChannelOk c
    → (b : FoxdbgBuffer) × (write_buffer t d c.data_buffer ≡ ok b)
      × Wrote d c (record c { data_buffer = b })
      × ChannelOk (record c { data_buffer = b })
write_one t d c v = elim (Bool-cases (leb (length d) c.data_buffer.buffer_size)) [
  | inl fits ↦
      (let (b, e, w) =
          write_buffer-Written t c.data_buffer v.data_idle d
            (leb→le (length d) c.data_buffer.buffer_size fits) in
        (b, e, record { rest_same = refl; shown = rw fits w.shows }, written_ok d b w))
  | inr large ↦
      (let (b, e, w) = write_buffer-Empty t c.data_buffer v.data_idle d (ground arith) in
        (b, e, record { rest_same = refl; shown = rw large w.shows }, written_ok [] b w))
]
  where
    written_ok :
        (frame : List ℕ) (b : FoxdbgBuffer)
        → Written frame c.data_buffer b
        → ChannelOk (record c { data_buffer = b })
    written_ok frame b w = record {
      data_idle = w.idle;
      sized = v.sized ∙ ap (λ n. some n) (sym w.same_size);
      info = v.info;
    }

-- The write to channel number `i` of a list that is numbered from `n`.
write_to-Wrote :
    (t i n k : ℕ) (d : List ℕ) (cs : List Channel)
    → Numbered n cs
    → All ChannelOk cs
    → k < length cs
    → i ≡ n + k
    → n + length cs ≤ 2 ^ 31
    → (cs' : List Channel) × (write_to t (pos i) d cs ≡ ok cs')
      × OneChanged (Wrote d) k cs cs'
      × Numbered n cs'
      × All ChannelOk cs'
      × (length cs' ≡ length cs)
unfolding write_to
write_to-Wrote t i n k d [] num v lt e few = absurd (omega arith)
write_to-Wrote t i n zero d (c ∷ cs) num v lt e few =
    let (b, eq, w, o) = write_one t d c v.0 in
    let here : eq_int c.channel_id (pos i) ≡ true = ground (arith, to_int-small n, num.0) in
    (
      record c { data_buffer = b } ∷ cs,
      rw (here, eq) refl,
      (w, refl),
      (num.0, num.1),
      (o, v.1),
      refl,
    )
write_to-Wrote t i n (suc k) d (c ∷ cs) num v lt e few =
    let (cs', eq, w, m, o, l) =
      write_to-Wrote t i (suc n) k d cs num.1 v.1 (omega arith) (omega arith) (omega arith) in
    let there : eq_int c.channel_id (pos i) ≡ false = ground (arith, to_int-small n, num.0) in
    (c ∷ cs', rw (there, eq) refl, (refl, w), (num.0, m), (v.0, o), ap suc l)

-- An id that no channel has: the walk ends with nothing changed.
write_to-unknown :
    (t n : ℕ) (id : ℤ) (d : List ℕ) (cs : List Channel)
    → Numbered n cs
    → ((k : ℕ) → n ≤ k → k < n + length cs → id ≢ to_int k)
    → write_to t id d cs ≡ ok cs
unfolding write_to
write_to-unknown t n id d [] num ne = refl
write_to-unknown t n id d (c ∷ cs) num ne =
    let there : eq_int c.channel_id id ≡ false =
      ground (arith, eq_int_iff c.channel_id id, num.0, ne n) in
    rw (there, write_to-unknown t (suc n) id d cs num.1 (λ k a b. ne k (omega arith) (omega arith)))
      refl

module _ (t : ℕ) (d : List ℕ) (s : Foxdbg) (v : IsValid s) where
  -- `foxdbg_write_channel` with the id of a channel of a valid list of at most 2 ^ 31 channels
  -- returns: at that channel the data buffer shows the frame, or an empty frame where it does not
  -- fit, with all else of the channel the same; every other channel, the counters and the receive
  -- channels are the same; the list is still valid.
  pub write_channel-Wrote :
      (k : ℕ)
      → length s.channels ≤ 2 ^ 31
      → k < length s.channels
      → (s' : Foxdbg) × (write_channel t (pos k) d s ≡ ok s')
        × OneChanged (Wrote d) k s.channels s'.channels
        × (s' ≡ record s { channels = s'.channels })
        × IsValid s'
  unfolding write_channel
  write_channel-Wrote k few lt =
      let (cs', e, w, num, o, l) =
        write_to-Wrote t k 0 k d s.channels v.numbered v.channels_ok lt (omega arith)
          (omega arith) in
      (
        record s { channels = cs' },
        rw e refl,
        w,
        refl,
        record { counted = omega (arith, v.counted, l); numbered = num; channels_ok = o },
      )

  -- With an id that no channel of a valid list has, `foxdbg_write_channel` returns and changes
  -- nothing.
  pub write_channel-unknown :
      (id : ℤ) → ((k : ℕ) → k < length s.channels → id ≢ to_int k) → write_channel t id d s ≡ ok s
  unfolding write_channel
  write_channel-unknown id ne =
      rw (write_to-unknown t 0 id d s.channels v.numbered (λ k a b. ne k (omega arith))) refl
