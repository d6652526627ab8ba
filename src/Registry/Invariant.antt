-- ===== src/Registry/Invariant.antt =====
-- What every state of the channel lists of lib/foxdbg.c satisfies, and what adding a channel does.
use foxdbg.Base.{
  ℕ, suc, ◌+◌, ◌%◌, ◌^◌, ◌≡◌, ◌<◌, ◌⊎◌, inl, inr, refl, List, [], ◌∷◌, ◌++◌, Option, none, some, ℤ,
  pos, minus_one, to_int, String, ◌==◌, length, length-append, All, All-append, arith, Bool-cases,
  ap,
}
use foxdbg.Outcome.{Outcome, ok, blocked, fault}
use foxdbg.Os.{Os, malloc}
use foxdbg.Buffer.{FoxdbgBuffer, alloc}
use foxdbg.Buffer.Alloc.{Allocated, alloc-Allocated}
use foxdbg.Buffer.Alone.{IsIdle}
use foxdbg.Buffer.Alone.Laws.{fresh-IsIdle}
use foxdbg.Channel.{ChannelType, Channel, sizeof_channel}
use foxdbg.Registry.{
  Foxdbg, payload_size, info_size, tx_time, link, request_info, add_node, add_info, add_data,
  add_sized, add_channel,
}

abbrev pub InfoOk : ℕ → Option FoxdbgBuffer → Type 0
InfoOk size none = size ≡ 0
InfoOk size (some b) = IsIdle b × (b.buffer_size ≡ size) × (0 < size)

-- The buffers of a channel are well formed and have the sizes of its type: an info buffer exactly if
-- the type has one.
pub record ChannelOk (c : Channel) : Type 0 where
  pub data_idle : IsIdle c.data_buffer
  pub sized : payload_size c.channel_type ≡ some c.data_buffer.buffer_size
  pub info : InfoOk (info_size c.channel_type) c.info_buffer

-- The channel at each position has the position for its id.
abbrev pub Numbered : ℕ → List Channel → Type 0
Numbered k [] = Unit
Numbered k (c ∷ rest) = (c.channel_id ≡ to_int k) × Numbered (suc k) rest

pub record IsValid (s : Foxdbg) : Type 0 where
  pub counted : s.channel_count ≡ length s.channels
  pub numbered : Numbered 0 s.channels
  pub channels_ok : All ChannelOk s.channels

pub link-eq-append : (cs : List Channel) (c : Channel) → link cs c ≡ cs ++ (c ∷ [])
unfolding link
link-eq-append [] c = refl
link-eq-append (x ∷ []) c = refl
link-eq-append (x ∷ y ∷ rest) c = ap (λ r. x ∷ r) (link-eq-append (y ∷ rest) c)

-- The channel that `foxdbg_add_channel` makes.
pub record IsNew (topic : String) (ty : ChannelType) (hz : ℤ) (count : ℕ) (c : Channel)
    : Type 0 where
  pub topic_is : c.topic_name ≡ topic
  pub type_is : c.channel_type ≡ ty
  pub id_is : c.channel_id ≡ to_int count
  pub time_is : tx_time hz ≡ some c.target_tx_time
  pub unsent : c.last_tx_time ≡ 0
  pub unsubscribed : c.subscription_id ≡ minus_one
  pub buffers_ok : ChannelOk c

-- The list and its counter are as before.
pub record Same (s s' : Foxdbg) : Type 0 where
  pub same_list : s'.channels ≡ s.channels
  pub same_count : s'.channel_count ≡ s.channel_count
  pub same_rx : s'.rx_channels ≡ s.rx_channels
  pub same_rx_count : s'.rx_channel_count ≡ s.rx_channel_count

pub record Appended (s s' : Foxdbg) (c : Channel) : Type 0 where
  pub longer : s'.channels ≡ s.channels ++ (c ∷ [])
  pub counted : s'.channel_count ≡ (s.channel_count + 1) % 2 ^ 64
  pub same_rx : s'.rx_channels ≡ s.rx_channels
  pub same_rx_count : s'.rx_channel_count ≡ s.rx_channel_count

abbrev pub Added : String → ChannelType → ℤ → Foxdbg → Outcome (ℤ × Foxdbg) → Type 0
Added topic ty hz s blocked = ⊥
Added topic ty hz s fault = hz ≡ pos 0
Added topic ty hz s (ok (r, s')) =
    ((r ≡ minus_one) × Same s s')
    ⊎ ((c : Channel) × (r ≡ c.channel_id) × IsNew topic ty hz s.channel_count c × Appended s s' c)

tx_time-none : (hz : ℤ) → tx_time hz ≡ none → hz ≡ pos 0
tx_time-none hz e = ground arith

pub alloc-IsIdle :
    (size : ℕ) (os os' : Os) (b : FoxdbgBuffer)
    → Allocated size os (some b, os')
    → IsIdle b × (b.buffer_size ≡ size)
alloc-IsIdle size os os' b h =
    let v = fresh-IsIdle size b.buffer_a b.buffer_b h.3 h.4 in
    (rw h.2 v, ap (λ (x : FoxdbgBuffer). x.buffer_size) h.2)

-- The outcome of asking for the info buffer, read at one of its two shapes.
abbrev Requested : ℕ → Option (Option FoxdbgBuffer) → Type 0
Requested size none = Unit
Requested size (some info) = InfoOk size info

abbrev from_alloc : Option FoxdbgBuffer → Option (Option FoxdbgBuffer)
from_alloc b = elim b [ none ↦ none | some i ↦ some (some i) ]

from_alloc-Requested :
    (size : ℕ) (os os' : Os) (b : Option FoxdbgBuffer)
    → Allocated size os (b, os')
    → Requested size (from_alloc b)
from_alloc-Requested size os os' none h = tt
from_alloc-Requested size os os' (some b) h =
    let i = alloc-IsIdle size os os' b h in (i.0, i.1, h.1)

request_info-Requested : (size : ℕ) (os : Os) → Requested size (request_info size os).0
unfolding request_info
request_info-Requested size os = elim (Bool-cases (size == 0)) [
  | inl e ↦ rw e (ground arith)
  | inr e ↦
      rw e (let r = alloc size os in from_alloc-Requested size os r.1 r.0 (alloc-Allocated size os))
]

module _ (topic : String) (ty : ChannelType) (hz : ℤ) (s : Foxdbg) where
  add_node-Added :
      (time : Option ℕ) (b : FoxdbgBuffer) (info : Option FoxdbgBuffer) (node : Option (List ℕ))
      (os : Os)
      → tx_time hz ≡ time
      → IsIdle b
      → payload_size ty ≡ some b.buffer_size
      → InfoOk (info_size ty) info
      → Added topic ty hz s (add_node topic ty time b info node os s)
  unfolding add_node
  add_node-Added time b info none os et idle size io = inl (refl, ground arith)
  add_node-Added none b info (some _) os et idle size io = tx_time-none hz et
  add_node-Added (some t) b info (some _) os et idle size io = inr (
    _,
    refl,
    record {
      topic_is = refl;
      type_is = refl;
      id_is = refl;
      time_is = et;
      unsent = refl;
      unsubscribed = refl;
      buffers_ok = record { data_idle = idle; sized = size; info = io };
    },
    record {
      longer = link-eq-append s.channels _;
      counted = refl;
      same_rx = refl;
      same_rx_count = refl;
    },
  )

  add_info-Added :
      (b : FoxdbgBuffer) (info : Option (Option FoxdbgBuffer)) (os : Os)
      → IsIdle b
      → payload_size ty ≡ some b.buffer_size
      → Requested (info_size ty) info
      → Added topic ty hz s (add_info topic ty (tx_time hz) b info os s)
  unfolding add_info
  add_info-Added b none os idle size h = inl (refl, ground arith)
  add_info-Added b (some info) os idle size h =
      let m = malloc sizeof_channel os in
      add_node-Added (tx_time hz) b info m.0 m.1 refl idle size h

  add_data-Added :
      (size : ℕ) (b : Option FoxdbgBuffer) (os : Os)
      → payload_size ty ≡ some size
      → Allocated size s.os (b, os)
      → Added topic ty hz s (add_data topic ty (tx_time hz) b os s)
  unfolding add_data
  add_data-Added size none os e h = inl (refl, ground arith)
  add_data-Added size (some b) os e h =
      let i = alloc-IsIdle size s.os os b h in
      let r = request_info (info_size ty) os in
      add_info-Added b r.0 r.1 i.0 (rw i.1 e) (request_info-Requested (info_size ty) os)

  add_sized-Added :
      (size : Option ℕ)
      → payload_size ty ≡ size
      → Added topic ty hz s (add_sized topic ty (tx_time hz) size s)
  unfolding add_sized
  add_sized-Added none e = inl (refl, ground arith)
  add_sized-Added (some size) e =
      let r = alloc size s.os in add_data-Added size r.0 r.1 e (alloc-Allocated size s.os)

  -- `foxdbg_add_channel` divides by zero only for a rate of 0. Otherwise it returns -1 and leaves both
  -- lists and counters as they were; or it returns the id of a new channel, which is the old counter
  -- as an `int`, and appends that channel, with the given topic, type and rate, unsubscribed and never
  -- sent, with buffers of the sizes of its type, to the list, and counts it.
  pub add_channel-Added : Added topic ty hz s (add_channel topic ty hz s)
  unfolding add_channel
  add_channel-Added = add_sized-Added (payload_size ty) refl

pub Numbered-append :
    (k n : ℕ) (cs : List Channel) (c : Channel)
    → Numbered k cs
    → n ≡ k + length cs
    → c.channel_id ≡ to_int n
    → Numbered k (cs ++ (c ∷ []))
Numbered-append k n [] c v e h = (let same : n ≡ k = omega arith in rw same at h, tt)
Numbered-append k n (x ∷ cs) c v e h = (v.0, Numbered-append (suc k) n cs c v.1 (omega arith) h)

-- Whatever `foxdbg_add_channel` returns on a valid list of fewer than 2 ^ 64 - 1 channels, the list
-- stays numbered from 0 in order, the counter is its length, and every channel has well-formed
-- buffers of the right sizes.
pub add_channel-IsValid :
    (topic : String) (ty : ChannelType) (hz : ℤ) (s : Foxdbg) {r : ℤ} {s' : Foxdbg}
    → IsValid s
    → s.channel_count + 1 < 2 ^ 64
    → add_channel topic ty hz s ≡ ok (r, s')
    → IsValid s'
add_channel-IsValid topic ty hz s {r} {s'} v few e = go (rw e at (add_channel-Added topic ty hz s))
  where
    go : Added topic ty hz s (ok (r, s')) → IsValid s'
    go (inl (fail, same)) = record {
      counted = rw (same.same_count, same.same_list) v.counted;
      numbered = rw same.same_list v.numbered;
      channels_ok = rw same.same_list v.channels_ok;
    }
    go (inr (c, e, new, more)) = record {
      counted =
          rw more.longer
            (omega (arith, more.counted, v.counted, length-append s.channels (c ∷ [])));
      numbered = rw more.longer (
          Numbered-append 0 s.channel_count s.channels c v.numbered (omega (arith, v.counted))
            new.id_is);
      channels_ok =
          rw more.longer
            (All-append ChannelOk (c ∷ []) (new.buffers_ok, tt) s.channels v.channels_ok);
    }
