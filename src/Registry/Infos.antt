-- ===== src/Registry/Infos.antt =====
-- `foxdbg_write_channel_info` on a valid list of channels, for an info that fits.
use foxdbg.Base.{
  ℕ, zero, suc, ◌+◌, ◌^◌, ◌≡◌, ◌≤◌, ◌<◌, ◌⊎◌, inl, inr, refl, sym, ◌∙◌, ap, true, false, List, [],
  ◌∷◌, Option, none, some, pos, to_int-small, eq_int, length, le→leb, All, arith,
}
use mathlib.Core.Path.{subst}
use foxdbg.Outcome.{ok, map_ok}
use foxdbg.Buffer.{FoxdbgBuffer}
use foxdbg.Buffer.Alone.{contents, write_buffer, write_info_buffer}
use foxdbg.Buffer.Alone.Laws.{write_buffer-Written}
use foxdbg.Channel.{Channel}
use foxdbg.Registry.{Foxdbg, info_size, info_at, write_info_to, write_channel_info}
use foxdbg.Registry.Invariant.{InfoOk, ChannelOk, Numbered, IsValid}
use foxdbg.Registry.Writes.{OneChanged}

-- For an info that fits, it is the write of a frame.
pub write_info-eq-write :
    (t : ℕ) (d : List ℕ) (b : FoxdbgBuffer)
    → length d ≤ b.buffer_size
    → write_info_buffer t d b ≡ write_buffer t d b
unfolding write_info_buffer write_buffer
write_info-eq-write t d b h = rw (le→leb (length d) b.buffer_size h) refl

-- The info buffer, if there is one, shows the info.
abbrev pub ShowsInfo : List ℕ → Option FoxdbgBuffer → Option FoxdbgBuffer → Type 0
ShowsInfo d none none = Unit
ShowsInfo d (some _) (some b) = contents b ≡ d
ShowsInfo d _ _ = ⊥

abbrev pub Informed : List ℕ → Channel → Channel → Type 0
Informed d c c' =
    (c' ≡ record c { info_buffer = c'.info_buffer }) × ShowsInfo d c.info_buffer c'.info_buffer

-- The type has no info, or one of at least that size.
abbrev pub TypeFits : ℕ → Channel → Type 0
TypeFits n c = (info_size c.channel_type ≡ 0) ⊎ (n ≤ info_size c.channel_type)

-- So it is at a position of the list.
abbrev pub InfoFits : ℕ → ℕ → List Channel → Type 0
InfoFits n k [] = ⊥
InfoFits n zero (c ∷ cs) = TypeFits n c
InfoFits n (suc k) (c ∷ cs) = InfoFits n k cs

pub fits_buffer :
    (n : ℕ) (c : Channel) (b : FoxdbgBuffer)
    → InfoOk (info_size c.channel_type) (some b)
    → TypeFits n c
    → n ≤ b.buffer_size
fits_buffer n c b io (inl e) = omega (arith, io.1, io.2)
fits_buffer n c b io (inr h) = omega (arith, io.1)

-- The walk past the last channel with the id, or before it.
passed_over :
    (t i n : ℕ) (d : List ℕ) (cs : List Channel)
    → Numbered n cs
    → i < n
    → n + length cs ≤ 2 ^ 31
    → write_info_to t (pos i) d cs ≡ ok cs
unfolding write_info_to
passed_over t i n d [] num lt few = refl
passed_over t i n d (c ∷ cs) num lt few =
    let there : eq_int c.channel_id (pos i) ≡ false = ground (arith, to_int-small n, num.0) in
    rw (there, passed_over t i (suc n) d cs num.1 (omega arith) (omega arith)) refl

-- The channel with the id.
info_here :
    (t i n : ℕ) (d : List ℕ) (c : Channel) (cs : List Channel) (info : Option FoxdbgBuffer)
    → c.info_buffer ≡ info
    → ChannelOk c
    → TypeFits (length d) c
    → write_info_to t (pos i) d cs ≡ ok cs
    → (c' : Channel) × (info_at t d c cs info
          (map_ok (λ rest. c ∷ rest) (write_info_to t (pos i) d cs))
        ≡ ok (c' ∷ cs))
      × Informed d c c'
      × ChannelOk c'
unfolding info_at
info_here t i n d c cs none e v fits rest =
    (c, ap (map_ok (λ r. c ∷ r)) rest, (refl, subst (λ x. ShowsInfo d x x) (sym e) tt), v)
info_here t i n d c cs (some b) e v fits rest =
    let io : InfoOk (info_size c.channel_type) (some b) =
      subst (λ x. InfoOk (info_size c.channel_type) x) e v.info in
    let (b', eq, w) = write_buffer-Written t b io.0 d (fits_buffer (length d) c b io fits) in
    (
      record c { info_buffer = some b' },
      ap (map_ok (λ x. record c { info_buffer = some x } ∷ cs))
          (write_info-eq-write t d b (fits_buffer (length d) c b io fits) ∙ eq),
      (refl, subst (λ x. ShowsInfo d x (some b')) (sym e) w.shows),
      record {
        data_idle = v.data_idle;
        sized = v.sized;
        info = (w.idle, w.same_size ∙ io.1, io.2);
      },
    )

write_info_to-Informed :
    (t i n k : ℕ) (d : List ℕ) (cs : List Channel)
    → Numbered n cs
    → All ChannelOk cs
    → k < length cs
    → i ≡ n + k
    → n + length cs ≤ 2 ^ 31
    → InfoFits (length d) k cs
    → (cs' : List Channel) × (write_info_to t (pos i) d cs ≡ ok cs')
      × OneChanged (Informed d) k cs cs'
      × Numbered n cs'
      × All ChannelOk cs'
      × (length cs' ≡ length cs)
unfolding write_info_to
write_info_to-Informed t i n k d [] num v lt e few fits = absurd (omega arith)
write_info_to-Informed t i n zero d (c ∷ cs) num v lt e few fits =
    let past = passed_over t i (suc n) d cs num.1 (omega arith) (omega arith) in
    let (c', eq, w, o) = info_here t i n d c cs c.info_buffer refl v.0 fits past in
    let here : eq_int c.channel_id (pos i) ≡ true = ground (arith, to_int-small n, num.0) in
    (
      c' ∷ cs,
      rw here eq,
      (w, refl),
      (ap (λ (x : Channel). x.channel_id) w.0 ∙ num.0, num.1),
      (o, v.1),
      refl,
    )
write_info_to-Informed t i n (suc k) d (c ∷ cs) num v lt e few fits =
    let (cs', eq, w, m, o, l) =
      write_info_to-Informed t i (suc n) k d cs num.1 v.1 (omega arith) (omega arith) (omega arith)
        fits in
    let there : eq_int c.channel_id (pos i) ≡ false = ground (arith, to_int-small n, num.0) in
    (c ∷ cs', rw (there, eq) refl, (refl, w), (num.0, m), (v.0, o), ap suc l)

module _ (t : ℕ) (d : List ℕ) (s : Foxdbg) (v : IsValid s) where
  -- `foxdbg_write_channel_info` with the id of a channel of a valid list of at most 2 ^ 31 channels
  -- returns, if the type of that channel has no info or one of at least the size that is written:
  -- the info buffer of the channel, if it has one, shows the written bytes, with all else of the
  -- channel the same, and nothing changes where it has none; every other channel, the counters and
  -- the receive channels are the same; the list is still valid.
  pub write_channel_info-Informed :
      (k : ℕ)
      → length s.channels ≤ 2 ^ 31
      → k < length s.channels
      → InfoFits (length d) k s.channels
      → (s' : Foxdbg) × (write_channel_info t (pos k) d s ≡ ok s')
        × OneChanged (Informed d) k s.channels s'.channels
        × (s' ≡ record s { channels = s'.channels })
        × IsValid s'
  unfolding write_channel_info
  write_channel_info-Informed k few lt fits =
      let (cs', e, w, num, o, l) =
        write_info_to-Informed t k 0 k d s.channels v.numbered v.channels_ok lt (omega arith)
          (omega arith) fits in
      (
        record s { channels = cs' },
        rw e refl,
        w,
        refl,
        record { counted = omega (arith, v.counted, l); numbered = num; channels_ok = o },
      )
