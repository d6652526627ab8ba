-- ===== src/Protocol/Transmit/Round.antt =====
-- What one walk of `foxdbg_protocol_transmit_subscriptions` sends where channels have frames to tell.
use foxdbg.Base.{
  ℕ, ◌+◌, ◌*◌, ◌≡◌, ◌≤◌, ◌<◌, refl, sym, ◌∙◌, ap, Bool, true, false, List, [], ◌∷◌, ◌++◌, Option,
  none, some, length, is_nonneg, All, if◌then◌else◌, arith,
}
use mathlib.Core.List.{append_assoc}
use foxdbg.Outcome.{ok}
use foxdbg.Buffer.Alone.{contents}
use foxdbg.Channel.{Channel}
use foxdbg.Protocol.{Env, Server, Message, binary_message, header, tx_buffer_size}
use foxdbg.Protocol.Delivery.{EnvOk, ServerOk, ++-nil}
use foxdbg.Protocol.Senders.Frames.{takes, Readable, value_of, frame_message, typed-SentOne}
use foxdbg.Protocol.Transmit.{is_due, transmit_one, transmit_subscriptions}
use foxdbg.Protocol.Transmit.Laws.{transmit_cons}
use foxdbg.Protocol.Transmit.Turn.{transmit_one-returned}
use foxdbg.Protocol.Transmit.Quiet.{Quiet-one}
use foxdbg.Protocol.Transmit.Rate.{readings_of, transmit_one-readings}
use foxdbg.Registry.Invariant.{ChannelOk}

-- The channel, of a type that is no image, shows the frame, is subscribed, and is due at the readings of
-- the clock from `lo` to `hi`; and the frame's message leaves a byte of the transmit buffer free.
pub record Ready (env : Env) (lo hi : ℕ) (c : Channel) (d : List ℕ) : Type 0 where
  pub shows : contents c.data_buffer ≡ d
  pub full : c.data_buffer.front_buffer_size ≡ length d
  pub taken : takes c.channel_type (length d) ≡ true
  pub strings : Readable env c.channel_type d
  pub subscribed : is_nonneg c.subscription_id ≡ true
  pub due : (n : ℕ) → lo ≤ n → n ≤ hi → is_due (env.millis n) c ≡ true
  pub room :
      length (env.dump (value_of env c.topic_name c.channel_type d)) + env.lws_pre + 13
      < tx_buffer_size

-- Each channel is ready with a frame, or is not subscribed.
abbrev pub Planned : Env → ℕ → ℕ → List Channel → List (Option (List ℕ)) → Type 0
Planned env lo hi [] [] = Unit
Planned env lo hi (c ∷ cs) (none ∷ ds) =
    (is_nonneg c.subscription_id ≡ false) × Planned env lo hi cs ds
Planned env lo hi (c ∷ cs) (some d ∷ ds) = Ready env lo hi c d × Planned env lo hi cs ds
Planned env lo hi _ _ = ⊥

-- The messages tell the frames of the ready channels to the client, each once and in the order of the
-- channels.
abbrev pub Tell : Env → ℕ → List Channel → List (Option (List ℕ)) → List (ℕ × Message) → Type 0
Tell env cl [] [] ms = ms ≡ []
Tell env cl (c ∷ cs) (none ∷ ds) ms = Tell env cl cs ds ms
Tell env cl (c ∷ cs) (some d ∷ ds) [] = ⊥
Tell env cl (c ∷ cs) (some d ∷ ds) (m ∷ ms) =
    ((n : ℕ) × (m ≡ (
      cl,
      binary_message (
          header c.subscription_id (env.nanos n)
          ++ env.dump (value_of env c.topic_name c.channel_type d)),
    )))
    × Tell env cl cs ds ms
Tell env cl _ _ _ = ⊥

module _ (env : Env) (world : EnvOk env) (cl : ℕ) where
  -- One turn keeps the server in order and takes at most two readings.
  record Turned (p : Server) (r : Channel × Server) : Type 0 where
    fine : ServerOk r.1
    same_client : r.1.client ≡ p.client
    later : p.millis_calls ≤ r.1.millis_calls
    soon : r.1.millis_calls ≤ p.millis_calls + 2

  one_turn :
      (c : Channel) (p : Server) {r : Channel × Server}
      → ChannelOk c
      → ServerOk p
      → transmit_one env c p ≡ ok r
      → Turned p r
  unfolding readings_of
  one_turn c p {r} v w e =
      let (same, walk) = transmit_one-returned env world c p v w e in
      let m = transmit_one-readings env world c p v w e in
      record {
        fine = walk.fine;
        same_client = walk.same_client;
        later = omega (arith, m);
        soon = omega (arith, m, at_most_two (is_due (env.millis p.millis_calls) c));
      }
    where
      at_most_two : (b : Bool) → (if b then 2 else 1) ≤ 2
      at_most_two b = ground arith

  -- The turn of a channel that is ready.
  Ready-turn :
      (lo hi : ℕ) (c : Channel) (d : List ℕ) (p : Server)
      → Ready env lo hi c d
      → ChannelOk c
      → ServerOk p
      → p.client ≡ some cl
      → lo ≤ p.millis_calls
      → p.millis_calls ≤ hi
      → (r : Channel × Server) × (transmit_one env c p ≡ ok r)
        × (r.1.sent ≡ p.sent ++ (frame_message env cl c d p ∷ []))
  unfolding transmit_one
  Ready-turn lo hi c d p g v w told_to above below =
      let p1 : Server = record p { millis_calls = p.millis_calls + 1 } in
      let w1 : ServerOk p1 = record { raw = w.raw; encode = w.encode; info = w.info; tx = w.tx } in
      let (q, e, s) =
        typed-SentOne env cl c d p1 v.data_idle g.shows g.full w1 c.channel_type g.taken g.strings
          told_to g.room in
      (
        (
          record c { last_tx_time = env.millis q.millis_calls },
          record q { millis_calls = q.millis_calls + 1 },
        ),
        rw (g.subscribed, g.due p.millis_calls above below) (rw e refl),
        s.0,
      )

  walk_nil : (p : Server) → transmit_subscriptions env [] p ≡ ok ([], p)
  unfolding transmit_subscriptions
  walk_nil p = refl

  -- The walk of a list from within its readings.
  walk-Tell :
      (lo hi : ℕ) (cs : List Channel) (ds : List (Option (List ℕ))) (p : Server)
      → All ChannelOk cs
      → Planned env lo hi cs ds
      → ServerOk p
      → p.client ≡ some cl
      → lo ≤ p.millis_calls
      → p.millis_calls + 2 * length cs ≤ hi
      → (r : List Channel × Server) × (ms : List (ℕ × Message)) × (transmit_subscriptions env cs p
          ≡ ok r)
        × (r.1.sent ≡ p.sent ++ ms)
        × Tell env cl cs ds ms
  walk-Tell lo hi [] [] p v plan w told_to above below =
      (([], p), [], walk_nil p, sym (++-nil p.sent), refl)
  walk-Tell lo hi [] (_ ∷ ds) p v plan w told_to above below = absurd plan
  walk-Tell lo hi (c ∷ cs) [] p v plan w told_to above below = absurd plan
  walk-Tell lo hi (c ∷ cs) (none ∷ ds) p v plan w told_to above below =
      let (r, e, q) = Quiet-one env c p plan.0 in
      let t = one_turn c p v.0 w e in
      let (s, ms, e2, more, tell) =
        walk-Tell lo hi cs ds r.1 v.1 plan.1 t.fine (t.same_client ∙ told_to)
          (omega (arith, t.later)) (omega (arith, t.soon)) in
      (
        (r.0 ∷ s.0, s.1),
        ms,
        transmit_cons env c cs p r e e2,
        more ∙ ap (λ (x : Server). x.sent ++ ms) q.rest_same,
        tell,
      )
  walk-Tell lo hi (c ∷ cs) (some d ∷ ds) p v plan w told_to above below =
      let (r, e, sent) = Ready-turn lo hi c d p plan.0 v.0 w told_to above (omega arith) in
      let t = one_turn c p v.0 w e in
      let (s, ms, e2, more, tell) =
        walk-Tell lo hi cs ds r.1 v.1 plan.1 t.fine (t.same_client ∙ told_to)
          (omega (arith, t.later)) (omega (arith, t.soon)) in
      (
        (r.0 ∷ s.0, s.1),
        frame_message env cl c d p ∷ ms,
        transmit_cons env c cs p r e e2,
        more ∙ ap (λ xs. xs ++ ms) sent ∙ append_assoc p.sent (frame_message env cl c d p ∷ []) ms,
        ((p.nanos_calls, refl), tell),
      )

  -- In one round, with a client, every channel that is subscribed, whose type is no image and
  -- whose buffer shows a frame of the type, in a transform with two pointers to valid strings, is
  -- served: if each channel with well-formed buffers is either of that kind or not subscribed,
  -- the walk returns, and what it sends, all to the client, is one message for each channel of
  -- that kind, in the order of the list, with its subscription and a reading of the clock in
  -- front of the text that tells its frame, and nothing else. The subscribed channels have to be
  -- due at the readings of the clock that the walk can take, and each message has to leave a byte
  -- of the transmit buffer free. It is assumed that `LWS_PRE` and the header leave room in the
  -- transmit buffer, and a compressed image has fewer than 2 ^ 61 bytes.
  pub transmit-Tell :
      (cs : List Channel) (ds : List (Option (List ℕ))) (p : Server)
      → All ChannelOk cs
      → Planned env p.millis_calls (p.millis_calls + 2 * length cs) cs ds
      → ServerOk p
      → p.client ≡ some cl
      → (r : List Channel × Server) × (ms : List (ℕ × Message)) × (transmit_subscriptions env cs p
          ≡ ok r)
        × (r.1.sent ≡ p.sent ++ ms)
        × Tell env cl cs ds ms
  transmit-Tell cs ds p v plan w told_to =
      walk-Tell p.millis_calls (p.millis_calls + 2 * length cs) cs ds p v plan w told_to
        (omega arith) (omega arith)
