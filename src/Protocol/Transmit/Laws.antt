-- ===== src/Protocol/Transmit/Laws.antt =====
-- What one walk of `foxdbg_protocol_transmit_subscriptions` sends and stamps.
use foxdbg.Base.{
  sym, ℕ, ◌+◌, ◌≡◌, ◌≤◌, ◌⊎◌, refl, ◌∙◌, ap, List, [], ◌∷◌, ◌++◌, Option, is_nonneg, length,
  length-append, if◌then◌else◌, All, All-map, All-append, arith, Bool-cases, inl, inr,
}
use mathlib.Core.Path.{subst}
use mathlib.Core.List.{append_assoc}
use foxdbg.Outcome.{ok, fault}
use foxdbg.Channel.{Channel}
use foxdbg.Protocol.{Env, Server, Message}
use foxdbg.Protocol.Delivery.{++-nil, EnvOk, ServerOk}
use foxdbg.Protocol.Transmit.{is_due, transmit_one, transmit_subscriptions}
use foxdbg.Registry.Invariant.{ChannelOk}
use foxdbg.Protocol.Transmit.Turn.{
  Walk, OneFrame, FrameFor, stamped, wants, Stops, transmit_one-Walk,
}

-- The walk of a list is the turn of its first channel and the walk of the others.
pub transmit_cons :
    (env : Env) (c : Channel) (cs : List Channel) (p : Server) (r : Channel × Server)
    {s : List Channel × Server}
    → transmit_one env c p ≡ ok r
    → transmit_subscriptions env cs r.1 ≡ ok s
    → transmit_subscriptions env (c ∷ cs) p ≡ ok (r.0 ∷ s.0, s.1)
unfolding transmit_subscriptions
transmit_cons env c cs p r e e2 = rw (e, e2) refl

-- The channels differ in their stamps alone.
abbrev pub Stamped : List Channel → List Channel → Type 0
Stamped [] [] = Unit
Stamped (c ∷ cs) (c' ∷ cs') = (c' ≡ record c { last_tx_time = c'.last_tx_time }) × Stamped cs cs'
Stamped _ _ = ⊥

-- How many channels are subscribed.
abbrev pub subscriptions : List Channel → ℕ
subscriptions [] = 0
subscriptions (c ∷ cs) = (if is_nonneg c.subscription_id then 1 else 0) + subscriptions cs

stamped-same :
    (env : Env) (p : Server) (c : Channel)
    → stamped env p c ≡ record c { last_tx_time = (stamped env p c).last_tx_time }
stamped-same env p c = elim (Bool-cases (is_due (env.millis p.millis_calls) c)) [
  | inl e ↦ rw e refl
  | inr e ↦ rw e refl
]

stamped-ChannelOk :
    (env : Env) (p : Server) (c : Channel) → ChannelOk c → ChannelOk (stamped env p c)
stamped-ChannelOk env p c v = elim (Bool-cases (is_due (env.millis p.millis_calls) c)) [
  | inl e ↦ rw e (record { data_idle = v.data_idle; sized = v.sized; info = v.info })
  | inr e ↦ rw e v
]

wants-few :
    (env : Env) (p : Server) (c : Channel)
    → wants env p c ≤ (if is_nonneg c.subscription_id then 1 else 0)
wants-few env p c = ground arith

wants-one : (env : Env) (p : Server) (c : Channel) → wants env p c ≤ 1
wants-one env p c = ground arith

Walk-then :
    (c : Channel) (cs : List Channel) (n k most : ℕ) (p q r : Server)
    → n + k ≤ most
    → (a : Walk (OneFrame p.client c) n p q) (b : Walk (FrameFor q.client cs) k q r)
    → (walk : Walk (FrameFor p.client (c ∷ cs)) most p r) × (walk.more ≡ a.more ++ b.more)
Walk-then c cs n k most p q r h a b = (
  record {
    fine = b.fine;
    same_client = b.same_client ∙ a.same_client;
    more = a.more ++ b.more;
    sent_more = b.sent_more ∙ ap (λ x. x ++ b.more) a.sent_more ∙ append_assoc p.sent a.more b.more;
    few = omega (arith, a.few, b.few, length-append a.more b.more);
    each =
        All-append (FrameFor p.client (c ∷ cs)) b.more
          (All-map (λ m f. inr (subst (λ x. FrameFor x cs m) a.same_client f)) b.more b.each) a.more
          (All-map (λ m f. inl f) a.more a.each);
  },
  refl,
)

-- At most one message for each channel, in the order of the channels.
pub data OnePer (client : Option ℕ) : List Channel → List (ℕ × Message) → Type 0 where
  end : OnePer client [] []
  skip :
      {c : Channel} {cs : List Channel} {ms : List (ℕ × Message)}
      → OnePer client cs ms
      → OnePer client (c ∷ cs) ms
  send :
      {c : Channel} {cs : List Channel} {m : ℕ × Message} {ms : List (ℕ × Message)}
      → OneFrame client c m
      → OnePer client cs ms
      → OnePer client (c ∷ cs) (m ∷ ms)

OnePer-cons :
    (client : Option ℕ) (c : Channel) (cs : List Channel) (first ms : List (ℕ × Message))
    → length first ≤ 1
    → All (OneFrame client c) first
    → OnePer client cs ms
    → OnePer client (c ∷ cs) (first ++ ms)
OnePer-cons client c cs [] ms few all h = skip h
OnePer-cons client c cs (m ∷ []) ms few all h = send all.0 h
OnePer-cons client c cs (m ∷ m' ∷ more) ms few all h = absurd (omega arith)

-- The walk stops behind the channels `before`, at a channel that it must not send.
pub record Stopped (env : Env) (cs : List Channel) (p : Server) : Type 0 where
  pub before : List Channel
  pub at : Channel
  pub rest : List Channel
  pub parts : cs ≡ before ++ (at ∷ rest)
  pub turned : List Channel × Server
  pub reached : transmit_subscriptions env before p ≡ ok turned
  pub stops : Stops env at turned.1

Stopped-later :
    (env : Env) (c : Channel) (cs : List Channel) (p : Server) (r : Channel × Server)
    → transmit_one env c p ≡ ok r
    → Stopped env cs r.1
    → Stopped env (c ∷ cs) p
Stopped-later env c cs p r e s = record {
  before = c ∷ s.before;
  at = s.at;
  rest = s.rest;
  parts = ap (λ x. c ∷ x) s.parts;
  turned = (r.0 ∷ s.turned.0, s.turned.1);
  reached = transmit_cons env c s.before p r e s.reached;
  stops = s.stops;
}

-- What the walk leaves where it returns.
abbrev pub Walked : Env → List Channel → Server → Type 0
Walked env cs p =
    (cs' : List Channel) × (q : Server) × (transmit_subscriptions env cs p ≡ ok (cs', q))
    × Stamped cs cs'
    × All ChannelOk cs'
    × ((walk : Walk (FrameFor p.client cs) (subscriptions cs) p q) × OnePer p.client cs walk.more)

module _ (env : Env) (world : EnvOk env) where
  Walked-then :
      (c : Channel) (cs : List Channel) (p q : Server)
      → ChannelOk c
      → transmit_one env c p ≡ ok (stamped env p c, q)
      → Walk (OneFrame p.client c) (wants env p c) p q
      → Walked env cs q
      → Walked env (c ∷ cs) p
  Walked-then c cs p q ok_c e a (cs', r, e', s, h', (b, one)) =
      let (walk, all) =
        Walk-then c cs (wants env p c) (subscriptions cs) (subscriptions (c ∷ cs)) p q r
          (omega (arith, wants-few env p c)) a b in
      (
        stamped env p c ∷ cs',
        r,
        transmit_cons env c cs p (stamped env p c, q) e e',
        (stamped-same env p c, s),
        (stamped-ChannelOk env p c ok_c, h'),
        (
          walk,
          subst (OnePer p.client (c ∷ cs)) (sym all) (
              OnePer-cons p.client c cs a.more b.more (omega (arith, a.few, wants-one env p c))
                a.each (subst (λ x. OnePer x cs b.more) a.same_client one)),
        ),
      )

  -- The walk of channels with well-formed buffers, with static buffers of their sizes, returns, or it
  -- ends in undefined behaviour at the turn of a channel that is subscribed and due; and then, in the
  -- state behind the channels before it, this is a transform whose frame has a pointer that leads to
  -- no valid string, or an image that shows pixels and whose info, laid over the start of the static
  -- info buffer, asks `tjCompress2` for more bytes than `raw_data_buffer` has. Where the walk returns,
  -- it changes nothing of a channel but its stamp; it sends at most one frame for each channel, in
  -- the order of the channels, only frames for subscribed channels, and all to the client, so none
  -- where there is no client; and everything is well formed again. It is assumed that `LWS_PRE` and
  -- the header leave room in the transmit buffer, and a compressed image has fewer than 2 ^ 61 bytes.
  pub transmit-Walk :
      (cs : List Channel) (p : Server)
      → All ChannelOk cs
      → ServerOk p
      → Walked env cs p ⊎ (Stopped env cs p × (transmit_subscriptions env cs p ≡ fault))
  unfolding transmit_subscriptions
  transmit-Walk [] p h v =
      let nothing : Walk (FrameFor p.client []) 0 p p = record {
        fine = v;
        same_client = refl;
        more = [];
        sent_more = sym (++-nil p.sent);
        few = omega arith;
        each = tt;
      } in
      inl ([], p, refl, tt, tt, (nothing, end))
  transmit-Walk (c ∷ cs) p h v = elim (transmit_one-Walk env world c p h.0 v) [
    | inl (q, e, a) ↦ elim (transmit-Walk cs q h.1 a.fine) [
      | inl walked ↦ inl (Walked-then c cs p q h.0 e a walked)
      | inr (s, bad) ↦ inr (Stopped-later env c cs p (stamped env p c, q) e s, rw (e, bad) refl)
    ]
    | inr (stops, bad) ↦ inr (
      record {
        before = [];
        at = c;
        rest = cs;
        parts = refl;
        turned = ([], p);
        reached = refl;
        stops = stops;
      },
      rw bad refl,
    )
  ]
