-- ===== src/Protocol/Transmit/Rate.antt =====
-- How often `foxdbg_protocol_transmit_subscriptions` sends the frames of one channel.
use foxdbg.Base.{
  ℕ, zero, suc, ◌+◌, ◌-◌, ◌*◌, ◌^◌, ◌≡◌, ◌≤◌, ◌<◌, refl, sym, ◌∙◌, ap, Bool, true, false, ◌&&◌,
  length, length-append, is_nonneg, if◌then◌else◌, arith, Bool-cases, inl, inr,
}
use mathlib.Core.Path.{subst}
use foxdbg.Outcome.{ok-injective, ok}
use foxdbg.Channel.{Channel}
use foxdbg.Protocol.{Env, Server}
use foxdbg.Protocol.Delivery.{EnvOk, ServerOk}
use foxdbg.Protocol.Senders.Hazards.{Hazard}
use foxdbg.Protocol.Senders.Laws.{send_channel-Delivers}
use foxdbg.Protocol.Transmit.{send_channel, tick_millis, is_due, transmit_one}
use foxdbg.Protocol.Transmit.Turn.{stamped, wants, Delivers-ok, ticked, transmit_one-returned}
use foxdbg.Registry.Invariant.{ChannelOk}

-- What becomes of a channel, from `readings` readings of the clock on: rounds of the walk, between which
-- other channels have their turn, clients come and go, and frames are written. It says where the channel
-- is now, how often the clock has been read, and how many frames of the channel were sent.
pub data Served (env : Env) (first : Channel) (readings : ℕ) : Channel → ℕ → ℕ → Type 0 where
  begin : Served env first readings first readings 0
  round :
      {c c' : Channel} {n f : ℕ} {p q : Server}
      → Served env first readings c n f
      → ChannelOk c
      → ServerOk p
      → n ≤ p.millis_calls
      → transmit_one env c p ≡ ok (c', q)
      → Served env first readings c' q.millis_calls (f + (length q.sent - length p.sent))
  changed :
      {c c' : Channel} {n f : ℕ}
      → Served env first readings c n f
      → c'.last_tx_time ≡ c.last_tx_time
      → c'.target_tx_time ≡ c.target_tx_time
      → Served env first readings c' n f

-- The clock does not go back, and is a `uint64_t`.
pub record ClockOk (env : Env) : Type 0 where
  pub forward : (i j : ℕ) → i ≤ j → env.millis i ≤ env.millis j
  pub small : (i : ℕ) → env.millis i < 2 ^ 64

-- The readings that a round takes.
unfoldable pub readings_of : Bool → ℕ
readings_of due = if due then 2 else 1

pub transmit_one-readings :
    (env : Env)
    → EnvOk env
    → (c : Channel) (p : Server) {r : Channel × Server} → ChannelOk c
    → ServerOk p
    → transmit_one env c p ≡ ok r
    → r.1.millis_calls ≡ p.millis_calls + readings_of (is_due (env.millis p.millis_calls) c)
unfolding transmit_one readings_of
transmit_one-readings env world c p {r} v w e =
    elim (Bool-cases (is_due (env.millis p.millis_calls) c)) [
      | inl due ↦ elim (Bool-cases (is_nonneg c.subscription_id)) [
        | inl sub ↦
            elim (Delivers-ok (Hazard env c.channel_type c p.info_data_buffer) c (tick_millis p)
              (send_channel env c.channel_type c (tick_millis p))
              (send_channel-Delivers env world c (tick_millis p) v (ticked p w))) [
                | inl (q, eq, a) ↦
                    (let is = calls (rw (due, sub, eq) at e) in
                      rw due (omega (arith, is, a.same_millis)))
                | inr (bad, eq) ↦ absurd (let clash = rw (due, sub, eq) at e in cc)
              ]
        | inr not_sub ↦ (let is = calls (rw (due, not_sub) at e) in rw due (omega (arith, is)))
      ]
      | inr early ↦ elim (Bool-cases (is_nonneg c.subscription_id)) [
        | inl sub ↦ (let is = calls (rw (early, sub) at e) in rw early (omega (arith, is)))
        | inr not_sub ↦ (let is = calls (rw (early, not_sub) at e) in rw early (omega (arith, is)))
      ]
    ]
  where
    calls : {x : Channel × Server} → ok x ≡ ok r → r.1.millis_calls ≡ x.1.millis_calls
    calls h = ap (λ (y : Channel × Server). y.1.millis_calls) (sym (ok-injective h))

-- In `uint64_t`, with the stamp not ahead of the clock, a channel that is due was stamped more than its
-- period ago.
due_after :
    (now : ℕ) (c : Channel)
    → c.last_tx_time ≤ now
    → now < 2 ^ 64
    → is_due now c ≡ true
    → c.last_tx_time + c.target_tx_time + 1 ≤ now
due_after now c h small due = ground arith

-- All that is kept of the channel.
record Kept (env : Env) (first c : Channel) (n f : ℕ) : Type 0 where
  same_target : c.target_tx_time ≡ first.target_tx_time
  behind : c.last_tx_time ≤ env.millis n
  paid : f * (first.target_tx_time + 1) + first.last_tx_time ≤ c.last_tx_time

-- One frame at most, paid by the time that has passed.
pay :
    (f k m old last now : ℕ) → k ≤ 1 → f * m + old ≤ last → last + m ≤ now → (f + k) * m + old ≤ now
pay f zero m old last now h paid more = omega arith
pay f (suc zero) m old last now h paid more = omega arith
pay f (suc (suc k)) m old last now h paid more = absurd (omega arith)

owe_nothing : (f k m old last : ℕ) → k ≤ 0 → f * m + old ≤ last → (f + k) * m + old ≤ last
owe_nothing f zero m old last h paid = omega arith
owe_nothing f (suc k) m old last h paid = absurd (omega arith)

module _ (env : Env) (world : EnvOk env) (clock : ClockOk env) (first : Channel) where
  early_round :
      (c : Channel) (n f k : ℕ) (p q : Server)
      → Kept env first c n f
      → n ≤ p.millis_calls
      → is_due (env.millis p.millis_calls) c ≡ false
      → q.millis_calls ≡ p.millis_calls + readings_of (is_due (env.millis p.millis_calls) c)
      → k ≤ wants env p c
      → Kept env first c q.millis_calls (f + k)
  unfolding readings_of
  early_round c n f k p q v le early m few =
      let none_sent : k ≤ 0 = omega (arith, few, no_wants (is_nonneg c.subscription_id)) in
      record {
        same_target = v.same_target;
        behind =
            omega (
              arith,
              v.behind,
              clock.forward n q.millis_calls (omega (arith, le, (rw early at m))),
            );
        paid =
            owe_nothing f k (first.target_tx_time + 1) first.last_tx_time c.last_tx_time none_sent
              v.paid;
      }
    where
      no_wants : (b : Bool) → (if b && is_due (env.millis p.millis_calls) c then 1 else 0) ≤ 0
      no_wants b = rw early (ground arith)

  due_round :
      (c : Channel) (n f k : ℕ) (p q : Server)
      → Kept env first c n f
      → n ≤ p.millis_calls
      → is_due (env.millis p.millis_calls) c ≡ true
      → q.millis_calls ≡ p.millis_calls + readings_of (is_due (env.millis p.millis_calls) c)
      → k ≤ 1
      → Kept env first
          (record c { last_tx_time = env.millis (p.millis_calls + 1) })
          q.millis_calls
          (f + k)
  unfolding readings_of
  due_round c n f k p q v le due m few =
      let i = p.millis_calls in
      let past : c.last_tx_time ≤ env.millis i = omega (arith, v.behind, clock.forward n i le) in
      let after = due_after (env.millis i) c past (clock.small i) due in
      let later = clock.forward i (i + 1) (omega arith) in
      let two : q.millis_calls ≡ i + 2 = rw due at m in
      record {
        same_target = v.same_target;
        behind = clock.forward (i + 1) q.millis_calls (omega (arith, two));
        paid =
            pay f k (first.target_tx_time + 1) first.last_tx_time c.last_tx_time
              (env.millis (i + 1)) few v.paid (omega (arith, after, later, v.same_target));
      }

  round-Kept :
      (c c' : Channel) (n f : ℕ) (p q : Server)
      → Kept env first c n f
      → ChannelOk c
      → ServerOk p
      → n ≤ p.millis_calls
      → transmit_one env c p ≡ ok (c', q)
      → Kept env first c' q.millis_calls (f + (length q.sent - length p.sent))
  round-Kept c c' n f p q v good w le e =
      let (same, walk) = transmit_one-returned env world c p good w e in
      let m = transmit_one-readings env world c p good w e in
      let longer = ap length walk.sent_more ∙ length-append p.sent walk.more in
      let few : length q.sent - length p.sent ≤ wants env p c = omega (arith, longer, walk.few) in
      let is : stamped env p c ≡ c' = sym same in
      elim (Bool-cases (is_due (env.millis p.millis_calls) c)) [
        | inl due ↦
            subst (λ x. Kept env first x q.millis_calls (f + (length q.sent - length p.sent)))
              (rw due at is)
              (due_round c n f (length q.sent - length p.sent) p q v le due m (
                omega (
                  arith,
                  few,
                  at_most_one (is_nonneg c.subscription_id && is_due (env.millis p.millis_calls) c),
                )))
        | inr early ↦
            subst (λ x. Kept env first x q.millis_calls (f + (length q.sent - length p.sent)))
              (rw early at is)
              (early_round c n f (length q.sent - length p.sent) p q v le early m few)
      ]
    where
      at_most_one : (b : Bool) → (if b then 1 else 0) ≤ 1
      at_most_one b = ground arith

  Served-Kept :
      {readings : ℕ} {c : Channel} {n f : ℕ}
      → first.last_tx_time ≤ env.millis readings
      → Served env first readings c n f
      → Kept env first c n f
  Served-Kept old begin = record { same_target = refl; behind = old; paid = omega arith }
  Served-Kept old (round {c} {c'} {n} {f} {p} {q} s good w le e) =
      round-Kept c c' n f p q (Served-Kept old s) good w le e
  Served-Kept old (changed s same target) =
      let v = Served-Kept old s in
      record {
        same_target = target ∙ v.same_target;
        behind = omega (arith, same, v.behind);
        paid = omega (arith, same, v.paid);
      }

  -- Over any number of rounds of the walk, each with well-formed buffers of the channel and static
  -- buffers of their sizes, between which clients come and go and frames are written, the frames of
  -- one channel that are sent, times one more than its `target_tx_time`, are at most the
  -- milliseconds since its first stamp, however often a round is made. It is assumed that the clock
  -- does not go back and is below 2 ^ 64, the stamp was not ahead of it, `LWS_PRE` and the header
  -- leave room in the transmit buffer, and a compressed image has fewer than 2 ^ 61 bytes.
  pub Served-rate :
      {readings : ℕ} {c : Channel} {n f : ℕ}
      → first.last_tx_time ≤ env.millis readings
      → Served env first readings c n f
      → f * (first.target_tx_time + 1) + first.last_tx_time ≤ env.millis n
  Served-rate old s = let v = Served-Kept old s in omega (arith, v.paid, v.behind)
