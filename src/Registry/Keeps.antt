-- ===== src/Registry/Keeps.antt =====
-- Writes with any id, to channels that exist and to those that do not, keep the lists of lib/foxdbg.c
-- as they should be.
use foxdbg.Base.{
  ℕ, suc, ◌+◌, ◌^◌, ◌≡◌, ◌≢◌, ◌≤◌, ◌<◌, inl, inr, refl, sym, ◌∙◌, ap, List, [], ◌∷◌, Option, none,
  some, ℤ, pos, String, eq_int, length, length-append, All, arith, Bool-cases,
}
use mathlib.Core.Path.{subst}
use foxdbg.Outcome.{Outcome, ok, blocked, fault, map_ok}
use foxdbg.Buffer.{FoxdbgBuffer}
use foxdbg.Buffer.Alone.Laws.{write_buffer-Written}
use foxdbg.Channel.{ChannelType, image, Channel, sizeof_image_info}
use foxdbg.Registry.{
  Foxdbg, info_size, write_to, info_at, write_info_to, write_channel, write_channel_info,
  add_channel, add_rx_channel,
}
use foxdbg.Registry.Invariant.{
  InfoOk, ChannelOk, Numbered, Numbered-append, Added, add_channel-Added, add_channel-IsValid,
  IsValid,
}
use foxdbg.Registry.Receiving.{RxAdded, add_rx_channel-RxAdded}
use foxdbg.Registry.Writes.{write_one}
use foxdbg.Registry.Infos.{TypeFits, fits_buffer, write_info-eq-write}

-- The receive channels are numbered from 0 in order and counted.
pub record RxValid (s : Foxdbg) : Type 0 where
  pub counted : s.rx_channel_count ≡ length s.rx_channels
  pub numbered : Numbered 0 s.rx_channels

pub record ListsOk (s : Foxdbg) : Type 0 where
  pub channels_ok : IsValid s
  pub rx_ok : RxValid s

-- The walk returns, and the channels stay well formed, numbered and as many as they were.
abbrev pub Keeps : List Channel → Outcome (List Channel) → Type 0
Keeps cs r =
    (cs' : List Channel) × (r ≡ ok cs')
    × All ChannelOk cs'
    × ((n : ℕ) → Numbered n cs → Numbered n cs')
    × (length cs' ≡ length cs)

Keeps-later :
    (c : Channel) (cs : List Channel) {r : Outcome (List Channel)}
    → ChannelOk c
    → Keeps cs r
    → Keeps (c ∷ cs) (map_ok (λ rest. c ∷ rest) r)
Keeps-later c cs v (cs', e, o, num, l) =
    (c ∷ cs', ap (map_ok (λ rest. c ∷ rest)) e, (v, o), (λ n h. (h.0, num (suc n) h.1)), ap suc l)

write_to-Keeps :
    (t : ℕ) (id : ℤ) (d : List ℕ) (cs : List Channel)
    → All ChannelOk cs
    → Keeps cs (write_to t id d cs)
unfolding write_to
write_to-Keeps t id d [] v = ([], refl, tt, (λ n h. h), refl)
write_to-Keeps t id d (c ∷ cs) v = elim (Bool-cases (eq_int c.channel_id id)) [
  | inl here ↦
      (let (b, e, w, o) = write_one t d c v.0 in
        rw here (
          record c { data_buffer = b } ∷ cs,
          ap (map_ok (λ b'. record c { data_buffer = b' } ∷ cs)) e,
          (o, v.1),
          (λ n h. h),
          refl,
        ))
  | inr there ↦ rw there (Keeps-later c cs v.0 (write_to-Keeps t id d cs v.1))
]

-- No type has more info than an image.
type_fits :
    (n : ℕ)
    → n ≤ sizeof_image_info
    → (ty : ChannelType) (c : Channel) → c.channel_type ≡ ty
    → TypeFits n c
type_fits n h image c e = inr (subst (λ k. n ≤ info_size k) (sym e) h)
type_fits n h _ c e = inl (ap info_size e)

info_at-Keeps :
    (t : ℕ) (d : List ℕ) (c : Channel) (cs : List Channel) (info : Option FoxdbgBuffer)
    {later : Outcome (List Channel)}
    → length d ≤ sizeof_image_info
    → c.info_buffer ≡ info
    → ChannelOk c
    → All ChannelOk cs
    → Keeps (c ∷ cs) later
    → Keeps (c ∷ cs) (info_at t d c cs info later)
unfolding info_at
info_at-Keeps t d c cs none fits e v vs later = later
info_at-Keeps t d c cs (some b) fits e v vs later =
    let io : InfoOk (info_size c.channel_type) (some b) =
      subst (λ x. InfoOk (info_size c.channel_type) x) e v.info in
    let small = fits_buffer (length d) c b io (type_fits (length d) fits c.channel_type c refl) in
    let (b', eq, w) = write_buffer-Written t b io.0 d small in
    (
      record c { info_buffer = some b' } ∷ cs,
      ap (map_ok (λ x. record c { info_buffer = some x } ∷ cs))
          (write_info-eq-write t d b small ∙ eq),
      (
        record {
          data_idle = v.data_idle;
          sized = v.sized;
          info = (w.idle, w.same_size ∙ io.1, io.2);
        },
        vs,
      ),
      (λ n h. h),
      refl,
    )

write_info_to-Keeps :
    (t : ℕ) (id : ℤ) (d : List ℕ) (cs : List Channel)
    → length d ≤ sizeof_image_info
    → All ChannelOk cs
    → Keeps cs (write_info_to t id d cs)
unfolding write_info_to
write_info_to-Keeps t id d [] fits v = ([], refl, tt, (λ n h. h), refl)
write_info_to-Keeps t id d (c ∷ cs) fits v =
    let later = Keeps-later c cs v.0 (write_info_to-Keeps t id d cs fits v.1) in
    elim (Bool-cases (eq_int c.channel_id id)) [
      | inl here ↦ rw here (info_at-Keeps t d c cs c.info_buffer fits refl v.0 v.1 later)
      | inr there ↦ rw there later
    ]

-- All but the channels is as it was, and all is well.
abbrev pub KeepsLists : Foxdbg → Outcome Foxdbg → Type 0
KeepsLists s r =
    (s' : Foxdbg) × (r ≡ ok s')
    × ListsOk s'
    × (s'.channel_count ≡ s.channel_count)
    × (s'.rx_channel_count ≡ s.rx_channel_count)

Keeps-lists :
    (s : Foxdbg) {r : Outcome (List Channel)}
    → ListsOk s
    → Keeps s.channels r
    → KeepsLists s (map_ok (λ cs. record s { channels = cs }) r)
Keeps-lists s v (cs, e, o, num, l) = (
  record s { channels = cs },
  ap (map_ok (λ cs'. record s { channels = cs' })) e,
  record {
    channels_ok = record {
      counted = v.channels_ok.counted ∙ sym l;
      numbered = num 0 v.channels_ok.numbered;
      channels_ok = o;
    };
    rx_ok = record { counted = v.rx_ok.counted; numbered = v.rx_ok.numbered };
  },
  refl,
  refl,
)

pub write_channel-KeepsLists :
    (t : ℕ) (id : ℤ) (d : List ℕ) (s : Foxdbg) → ListsOk s → KeepsLists s (write_channel t id d s)
unfolding write_channel
write_channel-KeepsLists t id d s v =
    Keeps-lists s v (write_to-Keeps t id d s.channels v.channels_ok.channels_ok)

pub write_channel_info-KeepsLists :
    (t : ℕ) (id : ℤ) (d : List ℕ) (s : Foxdbg)
    → length d ≤ sizeof_image_info
    → ListsOk s
    → KeepsLists s (write_channel_info t id d s)
unfolding write_channel_info
write_channel_info-KeepsLists t id d s fits v =
    Keeps-lists s v (write_info_to-Keeps t id d s.channels fits v.channels_ok.channels_ok)

-- At most one channel more, and all is well.
pub record Grown (s s' : Foxdbg) : Type 0 where
  pub lists_ok : ListsOk s'
  pub count : s'.channel_count ≤ s.channel_count + 1
  pub rx_count : s'.rx_channel_count ≤ s.rx_channel_count + 1

-- What one call of `foxdbg_add_channel` with a rate that is not 0 leaves.
pub add_channel-Grown :
    (topic : String) (ty : ChannelType) (hz : ℤ) (s : Foxdbg)
    → hz ≢ pos 0
    → ListsOk s
    → s.channel_count + 1 < 2 ^ 64
    → (r : ℤ × Foxdbg) × (add_channel topic ty hz s ≡ ok r) × Grown s r.1
add_channel-Grown topic ty hz s ne v few =
    go (add_channel topic ty hz s) refl (add_channel-Added topic ty hz s)
  where
    go :
        (m : Outcome (ℤ × Foxdbg))
        → add_channel topic ty hz s ≡ m
        → Added topic ty hz s m
        → (r : ℤ × Foxdbg) × (m ≡ ok r) × Grown s r.1
    go blocked e h = absurd h
    go fault e h = absurd (ne h)
    go (ok (i, s')) e (inl (fail, same)) = (
      (i, s'),
      refl,
      record {
        lists_ok = record {
          channels_ok = add_channel-IsValid topic ty hz s v.channels_ok few e;
          rx_ok = record {
            counted = rw (same.same_rx, same.same_rx_count) v.rx_ok.counted;
            numbered = rw same.same_rx v.rx_ok.numbered;
          };
        };
        count = omega (arith, same.same_count);
        rx_count = omega (arith, same.same_rx_count);
      },
    )
    go (ok (i, s')) e (inr (c, is, new, more)) = (
      (i, s'),
      refl,
      record {
        lists_ok = record {
          channels_ok = add_channel-IsValid topic ty hz s v.channels_ok few e;
          rx_ok = record {
            counted = rw (more.same_rx, more.same_rx_count) v.rx_ok.counted;
            numbered = rw more.same_rx v.rx_ok.numbered;
          };
        };
        count = omega (arith, more.counted);
        rx_count = omega (arith, more.same_rx_count);
      },
    )

pub add_rx_channel-Grown :
    (topic : String) (ty : ChannelType) (s : Foxdbg)
    → ListsOk s
    → s.rx_channel_count + 1 < 2 ^ 64
    → Grown s (add_rx_channel topic ty s).1
add_rx_channel-Grown topic ty s v few =
    go (add_rx_channel topic ty s) (add_rx_channel-RxAdded topic ty s)
  where
    go : (r : ℤ × Foxdbg) → RxAdded topic ty s r → Grown s r.1
    go (i, s') (inl (fail, same)) = record {
      lists_ok = record {
        channels_ok = record {
          counted = rw (same.same_count, same.same_list) v.channels_ok.counted;
          numbered = rw same.same_list v.channels_ok.numbered;
          channels_ok = rw same.same_list v.channels_ok.channels_ok;
        };
        rx_ok = record {
          counted = rw (same.same_rx, same.same_rx_count) v.rx_ok.counted;
          numbered = rw same.same_rx v.rx_ok.numbered;
        };
      };
      count = omega (arith, same.same_count);
      rx_count = omega (arith, same.same_rx_count);
    }
    go (i, s') (inr (c, is, new, more)) = record {
      lists_ok = record {
        channels_ok = record {
          counted = rw (more.same_count, more.same_tx) v.channels_ok.counted;
          numbered = rw more.same_tx v.channels_ok.numbered;
          channels_ok = rw more.same_tx v.channels_ok.channels_ok;
        };
        rx_ok = record {
          counted =
              rw more.longer (
                omega (arith, more.counted, v.rx_ok.counted, length-append s.rx_channels (c ∷ [])));
          numbered = rw more.longer (
              Numbered-append 0 s.rx_channel_count s.rx_channels c v.rx_ok.numbered
                (omega (arith, v.rx_ok.counted)) new.id_is);
        };
      };
      count = omega (arith, more.same_count);
      rx_count = omega (arith, more.counted);
    }
