-- ===== src/App/Clean.antt =====
-- Sequences of calls and callbacks where `pthread_mutex_init` does not fail.
use foxdbg.Base.{
  ℕ, suc, ◌+◌, ◌*◌, ◌≡◌, ◌<◌, ◌⊎◌, refl, sym, ap, List, [], ◌∷◌, length, arith, Bool-cases, inl,
  inr, leb, leb→le,
}
use mathlib.Core.Path.{subst}
use foxdbg.Outcome.{Outcome, ok, blocked, fault, map_ok, ok-injective, ◌>>=◌}
use foxdbg.Os.{Os}
use foxdbg.Os.Granted.{granted, Clean, Clean-then, Clean-most}
use foxdbg.Registry.{
  Foxdbg, add_channel, write_channel, write_channel_info, write_to, write_info_to,
}
use foxdbg.Registry.Clean.{add_channel-Clean, add_rx_channel-Clean}
use foxdbg.Protocol.{Env}
use foxdbg.Protocol.Receive.{JsonLib}
use foxdbg.Thread.{websocket_callback}
use foxdbg.App.{
  App, seen_by_server, left_by_server, Action, add, add_rx, write, write_info, callback, stop, act,
  perform,
}

-- What holds of all values of `f` holds of what `map_ok f` returns.
map_ok-all :
    {A B : Type 0} (P : B → Type 0) (f : A → B) (m : Outcome A) {b : B}
    → ((a : A) → m ≡ ok a → P (f a))
    → map_ok f m ≡ ok b
    → P b
map_ok-all P f (ok a) h e = subst P (ok-injective e) (h a refl)
map_ok-all P f blocked h e = absurd (cc)
map_ok-all P f fault h e = absurd (cc)

Clean-same : (n : ℕ) (os : Os) {os' : Os} → os' ≡ os → Clean n os os'
Clean-same n os {os'} e = subst (λ x. Clean n os x) (sym e) (λ h. (refl, omega arith))

module _ (env : Env) (lib : JsonLib) where
  act-Clean :
      (x : Action) (a : App) {a' : App}
      → act env lib x a ≡ ok a'
      → Clean 6 a.registry.os a'.registry.os
  unfolding act write_channel write_channel_info
  act-Clean (add topic ty hz) a e =
      map_ok-all (λ (b : App). Clean 6 a.registry.os b.registry.os)
        (λ r. record a { registry = r.1 }) (add_channel topic ty hz a.registry)
        (λ r q. add_channel-Clean topic ty a.registry hz q) e
  act-Clean (add_rx topic ty) a e =
      subst (λ (b : App). Clean 6 a.registry.os b.registry.os) (ok-injective e)
        (add_rx_channel-Clean topic ty a.registry)
  act-Clean (write t id d) a e =
      map_ok-all (λ (b : App). Clean 6 a.registry.os b.registry.os) (λ r. record a { registry = r })
        (write_channel t id d a.registry)
        (λ r q. Clean-same 6 a.registry.os (
          map_ok-all (λ (s : Foxdbg). s.os ≡ a.registry.os)
            (λ cs. record a.registry { channels = cs }) (write_to t id d a.registry.channels)
            (λ cs h. refl) q))
        e
  act-Clean (write_info t id d) a e =
      map_ok-all (λ (b : App). Clean 6 a.registry.os b.registry.os) (λ r. record a { registry = r })
        (write_channel_info t id d a.registry)
        (λ r q. Clean-same 6 a.registry.os (
          map_ok-all (λ (s : Foxdbg). s.os ≡ a.registry.os)
            (λ cs. record a.registry { channels = cs }) (write_info_to t id d a.registry.channels)
            (λ cs h. refl) q))
        e
  act-Clean (callback ev) a e =
      map_ok-all (λ (b : App). Clean 6 a.registry.os b.registry.os) (λ r. left_by_server a r.1)
        (websocket_callback env lib ev (seen_by_server a)) (λ r q. Clean-same 6 a.registry.os refl)
        e
  act-Clean stop a e =
      subst (λ (b : App). Clean 6 a.registry.os b.registry.os) (ok-injective e)
        (Clean-same 6 a.registry.os refl)

  perform-Clean :
      (xs : List Action) (a : App) {a' : App}
      → perform env lib xs a ≡ ok a'
      → Clean (6 * length xs) a.registry.os a'.registry.os
  unfolding perform
  perform-Clean [] a e =
      Clean-same 0 a.registry.os (ap (λ (b : App). b.registry.os) (sym (ok-injective e)))
  perform-Clean (x ∷ xs) a {a'} e = first (λ a1 h. perform-Clean xs a1 h) (act env lib x a) refl e
    where
      first :
          ((a1 : App)
            → perform env lib xs a1 ≡ ok a'
            → Clean (6 * length xs) a1.registry.os a'.registry.os)
          → (m : Outcome App) → act env lib x a ≡ m
          → (m >>= perform env lib xs) ≡ ok a'
          → Clean (6 * suc (length xs)) a.registry.os a'.registry.os
      first later (ok a1) q h =
          Clean-most (6 + 6 * length xs) (6 * suc (length xs)) a.registry.os a'.registry.os
            (omega arith)
            (Clean-then 6 (6 * length xs) a.registry.os a1.registry.os a'.registry.os
              (act-Clean x a q) (later a1 h))
      first later blocked q h = absurd (cc)
      first later fault q h = absurd (cc)

  -- No mutex has been destroyed that is not initialised, or the system refuses one of the next `n`
  -- initialisations.
  abbrev pub NoStray : ℕ → App → App → Type 0
  NoStray n a a' = (a'.registry.os.stray ≡ a.registry.os.stray) ⊎ (granted a.registry.os < n)

  pub perform-NoStray :
      (xs : List Action) (a : App) {a' : App}
      → perform env lib xs a ≡ ok a'
      → NoStray (6 * length xs) a a'
  perform-NoStray xs a e = elim (Bool-cases (leb (6 * length xs) (granted a.registry.os))) [
    | inl enough ↦
        inl (perform-Clean xs a e (leb→le (6 * length xs) (granted a.registry.os) enough)).0
    | inr few ↦ inr (ground (arith, few))
  ]
