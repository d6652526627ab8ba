-- ===== src/App/Alone.antt =====
-- A round of `foxdbg_protocol_transmit_subscriptions` where one channel is subscribed, and the messages
-- and writes that concern that channel.
use foxdbg.Base.{
  ℕ, suc, ◌+◌, ◌*◌, ◌^◌, ◌≡◌, ◌<◌, refl, ◌∙◌, ap, true, false, List, [], ◌∷◌, ◌++◌, ℤ, pos,
  to_int-small, eq_int, length, All, arith,
}
use foxdbg.Outcome.{ok}
use foxdbg.Buffer.{FoxdbgBuffer}
use foxdbg.Buffer.Alone.{write_buffer}
use foxdbg.Channel.{Channel}
use foxdbg.Protocol.{Env, Server, Message}
use foxdbg.Protocol.Transmit.Laws.{transmit_cons}
use foxdbg.Protocol.Transmit.{transmit_one, transmit_subscriptions}
use foxdbg.Protocol.Transmit.Quiet.{Silent, Quiet, Quiet-trans, Quiet-one, Quiet-walk}
use foxdbg.Protocol.Receive.Subscribe.{set_subscription}
use foxdbg.Registry.{write_to}
use foxdbg.Registry.Invariant.{Numbered}

module _ (env : Env) where
  -- The channel sends the message wherever its turn comes.
  abbrev Sends : Channel → (Server → ℕ × Message) → ℕ → Server → Type 0
  Sends c m readings p =
      (p' : Server)
      → Quiet readings p p'
      → (r : Channel × Server) × (transmit_one env c p' ≡ ok r)
        × (r.1.sent ≡ p'.sent ++ (m p' ∷ []))

  pub one_walk :
      (pre : List Channel) (c : Channel) (post : List Channel) (m : Server → ℕ × Message)
      (p : Server)
      → All Silent pre
      → All Silent post
      → Sends c m (2 * length pre) p
      → (p' : Server) × (r : List Channel × Server) × Quiet (2 * length pre) p p'
        × (transmit_subscriptions env (pre ++ (c ∷ post)) p ≡ ok r)
        × (r.1.sent ≡ p.sent ++ (m p' ∷ []))
  unfolding transmit_subscriptions
  one_walk [] c post m p h h' f =
      let q : Quiet 0 p p = record { rest_same = refl; later = omega arith; soon = omega arith } in
      let (r, e, s) = f p q in
      let (r2, e2, same) = Quiet-walk env post r.1 h' in
      (p, _, q, transmit_cons env c post p r e e2, same ∙ s)
  one_walk (x ∷ pre) c post m p h h' f =
      let (r, e, q) = Quiet-one env x p h.0 in
      let wider : (k : Server) → Quiet (2 * length pre) r.1 k → Quiet (2 * suc (length pre)) p k =
        λ k y.
          (let z = Quiet-trans 2 (2 * length pre) p r.1 k q y in
            record { rest_same = z.rest_same; later = z.later; soon = omega (arith, z.soon) }) in
      let (p', r2, q2, e2, s) = one_walk pre c post m r.1 h.1 h' (λ k y. f k (wider k y)) in
      (
        p',
        _,
        wider p' q2,
        transmit_cons env x (pre ++ (c ∷ post)) p r e e2,
        s ∙ ap (λ (y : Server). y.sent ++ (m p' ∷ [])) q.rest_same,
      )

pub set_subscription-at :
    (pre : List Channel) (c : Channel) (post : List Channel) (id : ℤ)
    → set_subscription (length pre) id (pre ++ (c ∷ post))
      ≡ pre ++ (record c { subscription_id = id } ∷ post)
set_subscription-at [] c post id = refl
set_subscription-at (x ∷ pre) c post id = ap (λ cs. x ∷ cs) (set_subscription-at pre c post id)

pub write_to-at :
    (t i n : ℕ) (d : List ℕ) (pre : List Channel) (c : Channel) (post : List Channel)
    {b : FoxdbgBuffer}
    → Numbered n (pre ++ (c ∷ post))
    → i ≡ n + length pre
    → i < 2 ^ 31
    → write_buffer t d c.data_buffer ≡ ok b
    → write_to t (pos i) d (pre ++ (c ∷ post)) ≡ ok (pre ++ (record c { data_buffer = b } ∷ post))
unfolding write_to
write_to-at t i n d [] c post num e few w =
    let here : eq_int c.channel_id (pos i) ≡ true = ground (arith, to_int-small n, num.0) in
    rw (here, w) refl
write_to-at t i n d (x ∷ pre) c post num e few w =
    let there : eq_int x.channel_id (pos i) ≡ false = ground (arith, to_int-small n, num.0) in
    rw (there, write_to-at t i (suc n) d pre c post num.1 (omega arith) few w) refl
