-- ===== src/Protocol/Receive/Subscribe.antt =====
-- What the client's two messages do to the channel that they name.
use foxdbg.Base.{
  ℕ, zero, suc, ◌+◌, ◌^◌, ◌≡◌, ◌≤◌, ◌<◌, refl, ◌∙◌, ap, true, false, List, [], ◌∷◌, Option, some, ℤ,
  pos, minus_one, to_int-small, eq_int, eq_int_refl, ◌==◌, length, All, arith,
}
use foxdbg.Outcome.{ok, ◌>>=◌}
use foxdbg.Json.{Json}
use foxdbg.Channel.{Channel}
use foxdbg.Protocol.Receive.{
  JsonLib, int_field, subscribe_walk, unsubscribe_walk, subscribe_entry, unsubscribe_entry,
  until_return, dispatch, receive,
}
use foxdbg.Registry.Invariant.{Numbered}

-- The list with another subscription for the channel at a position.
abbrev pub set_subscription : ℕ → ℤ → List Channel → List Channel
set_subscription k id [] = []
set_subscription zero id (c ∷ cs) = record c { subscription_id = id } ∷ cs
set_subscription (suc k) id (c ∷ cs) = c ∷ set_subscription k id cs

-- No channel has the subscription.
abbrev pub Unused : ℤ → List Channel → Type 0
Unused id cs = All (λ c. eq_int c.subscription_id id ≡ false) cs

subscribe_walk-set :
    (i n k : ℕ) (id : ℤ) (cs : List Channel)
    → Numbered n cs
    → k < length cs
    → i ≡ n + k
    → n + length cs ≤ 2 ^ 31
    → subscribe_walk (pos i) id cs ≡ some (set_subscription k id cs)
unfolding subscribe_walk
subscribe_walk-set i n k id [] num lt e few = absurd (omega arith)
subscribe_walk-set i n zero id (c ∷ cs) num lt e few =
    let here : eq_int c.channel_id (pos i) ≡ true = ground (arith, to_int-small n, num.0) in
    rw here refl
subscribe_walk-set i n (suc k) id (c ∷ cs) num lt e few =
    let there : eq_int c.channel_id (pos i) ≡ false = ground (arith, to_int-small n, num.0) in
    rw (there, subscribe_walk-set i (suc n) k id cs num.1 (omega arith) (omega arith) (omega arith))
      refl

unsubscribe_walk-set :
    (k : ℕ) (id : ℤ) (cs : List Channel)
    → Unused id cs
    → k < length cs
    → unsubscribe_walk id (set_subscription k id cs) ≡ some (set_subscription k minus_one cs)
unfolding unsubscribe_walk
unsubscribe_walk-set k id [] free lt = absurd (omega arith)
unsubscribe_walk-set zero id (c ∷ cs) free lt = rw (eq_int_refl id) refl
unsubscribe_walk-set (suc k) id (c ∷ cs) free lt =
    rw (free.0, unsubscribe_walk-set k id cs free.1 (omega arith)) refl

module _ (lib : JsonLib) where
  -- A text message that the JSON library reads as an object with an `op`.
  pub record TextMessage (first : ℕ) (more : List ℕ) (json : Json) : Type 0 where
    pub not_binary : (first == 1) ≡ false
    pub parsed : lib.parse (first ∷ more) ≡ some json
    pub object : lib.is_object json ≡ true
    pub has_op : lib.contains json "op" ≡ true

  -- It asks for the subscription `id` of channel `channel`, in its first entry.
  pub record Subscribes (json : Json) (id channel : ℤ) : Type 0 where
    pub op_subscribe : lib.equals (lib.index json "op") "subscribe" ≡ true
    pub has_list : lib.contains json "subscriptions" ≡ true
    pub entry : Json
    pub others : List Json
    pub entries : lib.iterate (lib.index json "subscriptions") ≡ entry ∷ others
    pub has_id : int_field lib entry "id" ≡ some id
    pub has_channel : int_field lib entry "channelId" ≡ some channel

  -- It gives up the subscription `id`, in its first entry.
  pub record Unsubscribes (json : Json) (id : ℤ) : Type 0 where
    pub op_other : lib.equals (lib.index json "op") "subscribe" ≡ false
    pub op_unsubscribe : lib.equals (lib.index json "op") "unsubscribe" ≡ true
    pub has_list : lib.contains json "subscriptionIds" ≡ true
    pub entry : Json
    pub others : List Json
    pub entries : lib.iterate (lib.index json "subscriptionIds") ≡ entry ∷ others
    pub is_id : lib.get_int entry ≡ some id

  until_return-done :
      (body : Json → List Channel → Option (List Channel)) (entry : Json) (others : List Json)
      (cs : List Channel) {done : List Channel}
      → body entry cs ≡ some done
      → until_return lib body (entry ∷ others) cs ≡ done
  unfolding until_return
  until_return-done body entry others cs e = rw (e, until_return) refl

  module _ (cs : List Channel) (num : Numbered 0 cs) (few : length cs ≤ 2 ^ 31) (k : ℕ)
      (lt : k < length cs) (id : ℤ) where
    -- In a list of at most 2 ^ 31 channels that are numbered in order, a `subscribe` message whose
    -- first entry names a channel of the list gives that channel the subscription, and changes
    -- nothing else, whatever its other entries ask for.
    pub receive-subscribe :
        (first : ℕ) (more : List ℕ) (json : Json)
        → TextMessage first more json
        → Subscribes json id (pos k)
        → receive lib (first ∷ more) cs ≡ ok (set_subscription k id cs)
    unfolding receive dispatch until_return subscribe_entry
    receive-subscribe first more json t s =
        let walk = subscribe_walk-set k 0 k id cs num lt (omega arith) (omega arith) in
        rw (t.not_binary, t.parsed, t.object, t.has_op, s.op_subscribe, s.has_list, s.entries)
          (ap ok (
            until_return-done (subscribe_entry lib) s.entry s.others cs
              (rw (s.has_id, s.has_channel, subscribe_entry) walk)))

    -- If a `subscribe` message whose first entry names a channel, in a list of at most 2 ^ 31
    -- channels that are numbered in order, is followed by an `unsubscribe` message whose first
    -- entry names the same subscription, which no channel had before, then both return, that
    -- channel is unsubscribed and the others are as they were.
    pub unsubscribe-subscribe :
        (first first' : ℕ) (more more' : List ℕ) (json json' : Json)
        → TextMessage first more json
        → Subscribes json id (pos k)
        → TextMessage first' more' json'
        → Unsubscribes json' id
        → Unused id cs
        → (receive lib (first ∷ more) cs >>= receive lib (first' ∷ more'))
          ≡ ok (set_subscription k minus_one cs)
    unfolding receive dispatch until_return unsubscribe_entry
    unsubscribe-subscribe first first' more more' json json' t s t' u free =
        ap (λ r. r >>= receive lib (first' ∷ more')) (receive-subscribe first more json t s)
        ∙ rw
            (
              t'.not_binary, t'.parsed, t'.object, t'.has_op, u.op_other, u.op_unsubscribe,
              u.has_list, u.entries,
            )
            (ap ok (
              until_return-done (unsubscribe_entry lib) u.entry u.others (set_subscription k id cs)
                (rw (u.is_id, unsubscribe_entry) (unsubscribe_walk-set k id cs free lt))))
