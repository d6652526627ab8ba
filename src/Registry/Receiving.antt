-- ===== src/Registry/Receiving.antt =====
-- What `foxdbg_add_rx_channel` adds.
use foxdbg.Base.{
  ℕ, ◌+◌, ◌%◌, ◌^◌, ◌≡◌, ◌⊎◌, inl, inr, refl, List, [], ◌∷◌, ◌++◌, Option, none, some, ℤ, minus_one,
  to_int, String, arith,
}
use foxdbg.Os.{Os, malloc}
use foxdbg.Buffer.{FoxdbgBuffer, alloc}
use foxdbg.Buffer.Alloc.{Allocated, alloc-Allocated}
use foxdbg.Buffer.Alone.{IsIdle}
use foxdbg.Channel.{ChannelType, Channel, sizeof_channel}
use foxdbg.Registry.{Foxdbg, rx_payload_size, rx_node, rx_data, rx_sized, add_rx_channel}
use foxdbg.Registry.Invariant.{Same, link-eq-append, alloc-IsIdle}

-- The channel that `foxdbg_add_rx_channel` makes.
pub record IsNewRx (topic : String) (ty : ChannelType) (count : ℕ) (c : Channel) : Type 0 where
  pub topic_is : c.topic_name ≡ topic
  pub type_is : c.channel_type ≡ ty
  pub id_is : c.channel_id ≡ to_int count
  pub unsubscribed : c.subscription_id ≡ minus_one
  pub idle : IsIdle c.data_buffer
  pub sized : rx_payload_size ty ≡ some c.data_buffer.buffer_size
  pub no_info : c.info_buffer ≡ none

pub record RxAppended (s s' : Foxdbg) (c : Channel) : Type 0 where
  pub longer : s'.rx_channels ≡ s.rx_channels ++ (c ∷ [])
  pub counted : s'.rx_channel_count ≡ (s.rx_channel_count + 1) % 2 ^ 64
  pub same_tx : s'.channels ≡ s.channels
  pub same_count : s'.channel_count ≡ s.channel_count

abbrev pub RxAdded : String → ChannelType → Foxdbg → ℤ × Foxdbg → Type 0
RxAdded topic ty s (r, s') =
    ((r ≡ minus_one) × Same s s')
    ⊎ ((c : Channel) × (r ≡ c.channel_id)
        × IsNewRx topic ty s.rx_channel_count c
        × RxAppended s s' c)

module _ (topic : String) (ty : ChannelType) (s : Foxdbg) where
  rx_node-RxAdded :
      (b : FoxdbgBuffer) (node : Option (List ℕ)) (os : Os)
      → IsIdle b
      → rx_payload_size ty ≡ some b.buffer_size
      → RxAdded topic ty s (rx_node topic ty b node os s)
  unfolding rx_node
  rx_node-RxAdded b none os idle e = inl (refl, ground arith)
  rx_node-RxAdded b (some _) os idle e = inr (
    _,
    refl,
    record {
      topic_is = refl;
      type_is = refl;
      id_is = refl;
      unsubscribed = refl;
      idle = idle;
      sized = e;
      no_info = refl;
    },
    record {
      longer = link-eq-append s.rx_channels _;
      counted = refl;
      same_tx = refl;
      same_count = refl;
    },
  )

  rx_data-RxAdded :
      (size : ℕ) (b : Option FoxdbgBuffer) (os : Os)
      → rx_payload_size ty ≡ some size
      → Allocated size s.os (b, os)
      → RxAdded topic ty s (rx_data topic ty b os s)
  unfolding rx_data
  rx_data-RxAdded size none os e h = inl (refl, ground arith)
  rx_data-RxAdded size (some b) os e h =
      let i = alloc-IsIdle size s.os os b h in
      let m = malloc sizeof_channel os in rx_node-RxAdded b m.0 m.1 i.0 (rw i.1 e)

  rx_sized-RxAdded :
      (size : Option ℕ) → rx_payload_size ty ≡ size → RxAdded topic ty s (rx_sized topic ty size s)
  unfolding rx_sized
  rx_sized-RxAdded none e = inl (refl, ground arith)
  rx_sized-RxAdded (some size) e =
      let r = alloc size s.os in rx_data-RxAdded size r.0 r.1 e (alloc-Allocated size s.os)

  -- `foxdbg_add_rx_channel` returns -1 and leaves both lists and counters as they were; or it returns
  -- the id of a new channel, which is the old counter as an `int`, and appends that channel, with the
  -- given topic and type, unsubscribed, with a data buffer of the size of its type and no info buffer,
  -- to the list of receive channels, and counts it. The other list is as it was in either case.
  pub add_rx_channel-RxAdded : RxAdded topic ty s (add_rx_channel topic ty s)
  unfolding add_rx_channel
  add_rx_channel-RxAdded = rx_sized-RxAdded (rx_payload_size ty) refl
