-- ===== src/Protocol/Transmit/Turn.antt =====
-- What one round of `foxdbg_protocol_transmit_subscriptions` sends and stamps.
use foxdbg.Base.{
  ℕ, ◌+◌, ◌≡◌, ◌≤◌, ◌⊎◌, refl, sym, ◌∙◌, ap, true, ◌&&◌, List, [], ◌∷◌, ◌++◌, Option, is_nonneg,
  length, if◌then◌else◌, All, All-map, arith, Bool-cases, inl, inr,
}
use mathlib.Core.Path.{subst}
use foxdbg.Outcome.{ok-injective, Outcome, ok, blocked, fault}
use foxdbg.Channel.{Channel}
use foxdbg.Protocol.{Env, Server, Message}
use foxdbg.Protocol.Delivery.{EnvOk, ServerOk, FrameTo, After, ++-nil}
use foxdbg.Protocol.Senders.Hazards.{Hazard}
use foxdbg.Protocol.Senders.Reads.{Delivers}
use foxdbg.Protocol.Senders.Laws.{send_channel-Delivers}
use foxdbg.Protocol.Transmit.{send_channel, tick_millis, is_due, transmit_one}
use foxdbg.Registry.Invariant.{ChannelOk}

-- At most `n` more messages, of all of which `P` holds, and the time has been read.
pub record Walk (P : ℕ × Message → Type 0) (n : ℕ) (p q : Server) : Type 0 where
  pub fine : ServerOk q
  pub same_client : q.client ≡ p.client
  pub more : List (ℕ × Message)
  pub sent_more : q.sent ≡ p.sent ++ more
  pub few : length more ≤ n
  pub each : All P more

-- A frame for a channel that is subscribed.
abbrev pub OneFrame : Option ℕ → Channel → ℕ × Message → Type 0
OneFrame client c m = (is_nonneg c.subscription_id ≡ true) × FrameTo client c.subscription_id m

abbrev pub FrameFor : Option ℕ → List Channel → ℕ × Message → Type 0
FrameFor client [] m = ⊥
FrameFor client (c ∷ cs) m = OneFrame client c m ⊎ FrameFor client cs m

abbrev pub stamped : Env → Server → Channel → Channel
stamped env p c =
    if is_due (env.millis p.millis_calls) c
    then record c { last_tx_time = env.millis (p.millis_calls + 1) }
    else c

-- The channel is subscribed and its time has come.
abbrev pub wants : Env → Server → Channel → ℕ
wants env p c = if is_nonneg c.subscription_id && is_due (env.millis p.millis_calls) c then 1 else 0

pub Delivers-ok :
    (F : Type 0) (c : Channel) (p : Server) (r : Outcome (Channel × Server))
    → Delivers F c p r
    → ((q : Server) × (r ≡ ok (c, q)) × After (FrameTo p.client c.subscription_id) 1 p q)
      ⊎ (F × (r ≡ fault))
Delivers-ok F c p (ok (c', q)) h = inl (q, ap (λ x. ok (x, q)) h.0, h.1)
Delivers-ok F c p blocked h = absurd h
Delivers-ok F c p fault h = inr (h, refl)

pub ticked : (p : Server) → ServerOk p → ServerOk (tick_millis p)
ticked p v = record { raw = v.raw; encode = v.encode; info = v.info; tx = v.tx }

idle-Walk :
    (P : ℕ × Message → Type 0) (p q : Server)
    → ServerOk q
    → q.client ≡ p.client
    → q.sent ≡ p.sent
    → Walk P 0 p q
idle-Walk P p q v e s = record {
  fine = v;
  same_client = e;
  more = [];
  sent_more = s ∙ sym (++-nil p.sent);
  few = omega arith;
  each = tt;
}

sent_one :
    (c : Channel) (p q : Server)
    → is_nonneg c.subscription_id ≡ true
    → After (FrameTo p.client c.subscription_id) 1 (tick_millis p) q
    → Walk (OneFrame p.client c) 1 p (tick_millis q)
sent_one c p q sub a = record {
  fine = ticked q a.fine;
  same_client = a.same_client;
  more = a.more;
  sent_more = a.sent_more;
  few = a.few;
  each = All-map (λ m f. (sub, f)) a.more a.each;
}

-- The walk stops at the channel: it is subscribed and due, and shows what its sender must not be called on.
pub record Stops (env : Env) (c : Channel) (p : Server) : Type 0 where
  pub subscribed : is_nonneg c.subscription_id ≡ true
  pub due : is_due (env.millis p.millis_calls) c ≡ true
  pub hazard : Hazard env c.channel_type c p.info_data_buffer

module _ (env : Env) (world : EnvOk env) where
  -- On a channel with well-formed buffers and with static buffers of their sizes, one round of the
  -- walk returns, or it ends in undefined behaviour on a channel that is subscribed and due; and then
  -- this is a transform whose frame has a pointer that leads to no valid string, or an image that
  -- shows pixels and whose info, laid over the start of the static info buffer, asks `tjCompress2`
  -- for more bytes than `raw_data_buffer` has. Where it returns, it sends a frame at most, none
  -- unless the channel is subscribed and more time than `target_tx_time` has passed, in `uint64_t`,
  -- since the last stamp; a sent frame is for that channel's subscription and goes to the client.
  -- The channel is as before, but that it is stamped with a new reading of the clock exactly where
  -- its time had come, subscribed or not. It is assumed that `LWS_PRE` and the header leave room in
  -- the transmit buffer, and a compressed image has fewer than 2 ^ 61 bytes.
  pub transmit_one-Walk :
      (c : Channel) (p : Server)
      → ChannelOk c
      → ServerOk p
      → ((q : Server) × (transmit_one env c p ≡ ok (stamped env p c, q))
          × Walk (OneFrame p.client c) (wants env p c) p q)
        ⊎ (Stops env c p × (transmit_one env c p ≡ fault))
  unfolding transmit_one
  transmit_one-Walk c p ok_c v = elim (Bool-cases (is_due (env.millis p.millis_calls) c)) [
    | inl due ↦ elim (Bool-cases (is_nonneg c.subscription_id)) [
      | inl sub ↦
          elim (Delivers-ok (Hazard env c.channel_type c p.info_data_buffer) c (tick_millis p)
            (send_channel env c.channel_type c (tick_millis p))
            (send_channel-Delivers env world c (tick_millis p) ok_c (ticked p v))) [
              | inl (q, e, a) ↦ inl (
                tick_millis q,
                rw (due, sub)
                    (rw e (
                      ap (λ t. ok (record c { last_tx_time = env.millis t }, tick_millis q))
                        a.same_millis)),
                rw (due, sub) (sent_one c p q sub a),
              )
              | inr (bad, e) ↦
                  inr (
                    record { subscribed = sub; due = due; hazard = bad },
                    rw (due, sub) (rw e refl),
                  )
            ]
      | inr not_sub ↦ inl (
        tick_millis (tick_millis p),
        rw (due, not_sub) refl,
        rw (due, not_sub)
            (idle-Walk (OneFrame p.client c) p (tick_millis (tick_millis p))
              (ticked (tick_millis p) (ticked p v)) refl refl),
      )
    ]
    | inr early ↦ elim (Bool-cases (is_nonneg c.subscription_id)) [
      | inl sub ↦ inl (
        tick_millis p,
        rw (early, sub) refl,
        rw (early, sub) (idle-Walk (OneFrame p.client c) p (tick_millis p) (ticked p v) refl refl),
      )
      | inr not_sub ↦ inl (
        tick_millis p,
        rw (early, not_sub) refl,
        rw (early, not_sub)
            (idle-Walk (OneFrame p.client c) p (tick_millis p) (ticked p v) refl refl),
      )
    ]
  ]

  -- A round that has returned.
  pub transmit_one-returned :
      (c : Channel) (p : Server) {r : Channel × Server}
      → ChannelOk c
      → ServerOk p
      → transmit_one env c p ≡ ok r
      → (r.0 ≡ stamped env p c) × Walk (OneFrame p.client c) (wants env p c) p r.1
  transmit_one-returned c p {r} ok_c v e = elim (transmit_one-Walk c p ok_c v) [
    | inl (q, eq, walk) ↦
        (let same = ok-injective (sym eq ∙ e) in
          (
            ap (λ (x : Channel × Server). x.0) (sym same),
            subst (λ (x : Channel × Server). Walk (OneFrame p.client c) (wants env p c) p x.1) same
                walk,
          ))
    | inr (stops, bad) ↦ absurd (let clash = sym e ∙ bad in cc)
  ]
