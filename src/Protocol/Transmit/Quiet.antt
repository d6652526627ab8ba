-- ===== src/Protocol/Transmit/Quiet.antt =====
-- Rounds of `foxdbg_protocol_transmit_subscriptions` of channels that are not subscribed.
use foxdbg.Base.{
  ℕ, ◌+◌, ◌≡◌, ◌≤◌, inl, inr, refl, ◌∙◌, ap, false, List, [], ◌∷◌, is_nonneg, All, arith,
  Bool-cases,
}
use foxdbg.Outcome.{ok}
use foxdbg.Channel.{Channel}
use foxdbg.Protocol.{Env, Server}
use foxdbg.Protocol.Transmit.{is_due, transmit_one, transmit_subscriptions}

abbrev pub Silent : Channel → Type 0
Silent c = is_nonneg c.subscription_id ≡ false

-- Only the clock was read, at most so often.
pub record Quiet (readings : ℕ) (p q : Server) : Type 0 where
  pub rest_same : q ≡ record p { millis_calls = q.millis_calls }
  pub later : p.millis_calls ≤ q.millis_calls
  pub soon : q.millis_calls ≤ p.millis_calls + readings

pub Quiet-trans : (m n : ℕ) (p q r : Server) → Quiet m p q → Quiet n q r → Quiet (m + n) p r
Quiet-trans m n p q r a b = record {
  rest_same =
      (let at_end : Server → Server = λ x. record x { millis_calls = r.millis_calls } in
        b.rest_same ∙ ap at_end a.rest_same);
  later = omega (arith, a.later, b.later);
  soon = omega (arith, a.soon, b.soon);
}

module _ (env : Env) where
  pub Quiet-one :
      (c : Channel) (p : Server)
      → Silent c
      → (r : Channel × Server) × (transmit_one env c p ≡ ok r) × Quiet 2 p r.1
  unfolding transmit_one
  Quiet-one c p e = elim (Bool-cases (is_due (env.millis p.millis_calls) c)) [
    | inl due ↦
        (let q : Server = record p { millis_calls = p.millis_calls + 1 + 1 } in
          (
            (record c { last_tx_time = env.millis (p.millis_calls + 1) }, q),
            rw (due, e) refl,
            record { rest_same = refl; later = omega arith; soon = omega arith },
          ))
    | inr early ↦ (
      (c, record p { millis_calls = p.millis_calls + 1 }),
      rw (early, e) refl,
      record { rest_same = refl; later = omega arith; soon = omega arith },
    )
  ]

  pub Quiet-walk :
      (cs : List Channel) (p : Server)
      → All Silent cs
      → (r : List Channel × Server) × (transmit_subscriptions env cs p ≡ ok r) × (r.1.sent ≡ p.sent)
  unfolding transmit_subscriptions
  Quiet-walk [] p h = (_, refl, refl)
  Quiet-walk (c ∷ cs) p h =
      let (r, e, q) = Quiet-one c p h.0 in
      let (s, e2, same) = Quiet-walk cs r.1 h.1 in
      ((r.0 ∷ s.0, s.1), rw (e, e2) refl, same ∙ ap (λ (x : Server). x.sent) q.rest_same)
