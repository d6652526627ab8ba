-- ===== src/Thread/Shutdown/Laws.antt =====
-- What a shutdown has done when it returns, when it goes on, and how long it lasts.
use foxdbg.Base.{ℕ, ◌+◌, ◌≡◌, ◌≢◌, ◌≤◌, ◌<◌, ◌⊎◌, inl, inr, refl, Bool, true, false, arith}
use foxdbg.Thread.Shutdown.{
  MainAt, working, cancelled, joining, back, ServerAt, starting, testing, servicing, leaving, ended,
  Lifecycle, launched, Move, create, cancel, store, join, serve, leave, wake, finish, Turn, moves,
  event, Turns, here, then,
}

-- The flag is down behind the store, and only there.
abbrev Flag : MainAt → Bool → Type 0
Flag working r = r ≡ true
Flag cancelled r = r ≡ true
Flag joining r = r ≡ false
Flag back r = r ≡ false

-- The server thread has left the loop only where the flag is down, and the join has waited for its end.
abbrev Left : ServerAt → Bool → Type 0
Left leaving r = r ≡ false
Left ended r = r ≡ false
Left _ r = Unit

abbrev Waited : MainAt → ServerAt → Type 0
Waited back a = a ≡ ended
Waited _ a = Unit

record InOrder (s : Lifecycle) : Type 0 where
  flag : Flag s.main_at s.running
  left : Left s.server_at s.running
  waited : Waited s.main_at s.server_at

not_back : (m : MainAt) (a a' : ServerAt) → Waited m a → a ≢ ended → Waited m a'
not_back back a a' w ne = absurd (ne w)
not_back working a a' w ne = tt
not_back cancelled a a' w ne = tt
not_back joining a a' w ne = tt

Left-down : (a : ServerAt) → Left a false
Left-down leaving = refl
Left-down ended = refl
Left-down starting = tt
Left-down testing = tt
Left-down servicing = tt

step-InOrder : {s t : Lifecycle} → InOrder s → Turn s t → InOrder t
step-InOrder {s} v (moves (create e)) = record {
  flag = v.flag;
  left = tt;
  waited = not_back s.main_at s.server_at testing v.waited (λ z. absurd (cc));
}
step-InOrder {s} v (moves (cancel e n)) = record {
  flag = rw e at v.flag;
  left = v.left;
  waited = tt;
}
step-InOrder {s} v (moves (store e)) = record {
  flag = refl;
  left = Left-down s.server_at;
  waited = tt;
}
step-InOrder {s} v (moves (join e f)) = record { flag = rw e at v.flag; left = v.left; waited = f }
step-InOrder {s} v (moves (serve e f)) = record {
  flag = v.flag;
  left = tt;
  waited = not_back s.main_at s.server_at servicing v.waited (λ z. absurd (cc));
}
step-InOrder {s} v (moves (leave e f)) = record {
  flag = v.flag;
  left = f;
  waited = not_back s.main_at s.server_at leaving v.waited (λ z. absurd (cc));
}
step-InOrder {s} v (moves (wake e f)) = record {
  flag = v.flag;
  left = tt;
  waited = not_back s.main_at s.server_at testing v.waited (λ z. absurd (cc));
}
step-InOrder {s} v (moves (finish e)) = record {
  flag = v.flag;
  left = rw e at v.left;
  waited = not_back s.main_at s.server_at ended v.waited (λ z. absurd (cc));
}
step-InOrder {s} v (event e) = record {
  flag = v.flag;
  left = tt;
  waited = not_back s.main_at s.server_at testing v.waited (λ z. absurd (cc));
}

Turns-InOrder : {k : ℕ} {s : Lifecycle} → Turns launched k s → InOrder s
Turns-InOrder here = record { flag = refl; left = tt; waited = tt }
Turns-InOrder (then r t) = step-InOrder (Turns-InOrder r) t

-- The thread that shuts down is in the join, and the server sleeps in `lws_service` although the flag is
-- down, with the cancellation used up.
pub record Asleep (s : Lifecycle) : Type 0 where
  pub waits : s.main_at ≡ joining
  pub sleeps : s.server_at ≡ servicing
  pub flag_down : s.running ≡ false
  pub used_up : s.signalled ≡ false

abbrev CanMove : Lifecycle → Type 0
CanMove s = (t : Lifecycle) × Move s t

-- What a state allows, by where the two threads are.
go_on :
    (m : MainAt) (a : ServerAt) (r g : Bool)
    → Flag m r
    → let s : Lifecycle = record { main_at = m; server_at = a; running = r; signalled = g } in
      (m ≡ back) ⊎ CanMove s ⊎ Asleep s
go_on back a r g h = inl refl
go_on working starting r g h = inr (inl (_, create refl))
go_on working testing r g h = inr (inl (_, serve refl h))
go_on working servicing r g h = inr (inl (_, cancel refl (λ e. absurd (cc))))
go_on working leaving r g h = inr (inl (_, finish refl))
go_on working ended r g h = inr (inl (_, cancel refl (λ e. absurd (cc))))
go_on cancelled a r g h = inr (inl (_, store refl))
go_on joining starting r g h = inr (inl (_, create refl))
go_on joining testing r g h = inr (inl (_, leave refl h))
go_on joining servicing r true h = inr (inl (_, wake refl refl))
go_on joining servicing r false h =
    inr (inr (record { waits = refl; sleeps = refl; flag_down = h; used_up = refl }))
go_on joining leaving r g h = inr (inl (_, finish refl))
go_on joining ended r g h = inr (inl (_, join refl refl))

-- The steps that are left of a shutdown behind its store.
rank : MainAt → ServerAt → ℕ
rank back a = 0
rank _ starting = 4
rank _ servicing = 4
rank _ testing = 3
rank _ leaving = 2
rank _ ended = 1

rank_small : (m : MainAt) (a : ServerAt) → rank m a ≤ 4
unfolding rank
rank_small m a = ground arith

rank_moved :
    (m : MainAt) (a a' : ServerAt) (r : Bool)
    → Flag m r
    → r ≡ false
    → Waited m a
    → a ≢ ended
    → rank joining a' < rank joining a
    → rank m a' < rank m a
rank_moved working a a' r f down w ne h = absurd (cc)
rank_moved cancelled a a' r f down w ne h = absurd (cc)
rank_moved joining a a' r f down w ne h = h
rank_moved back a a' r f down w ne h = absurd (ne w)

-- The server's step takes it nearer to its end.
server_step :
    (s : Lifecycle) (a a' : ServerAt)
    → InOrder s
    → s.running ≡ false
    → s.server_at ≡ a
    → a ≢ ended
    → rank joining a' < rank joining a
    → rank s.main_at a' < rank s.main_at s.server_at
server_step s a a' v down e ne h =
    rw e (rank_moved s.main_at a a' s.running v.flag down (rw e at v.waited) ne h)

rank_step :
    {s t : Lifecycle}
    → InOrder s
    → s.running ≡ false
    → Turn s t
    → (t.running ≡ false) × (rank t.main_at t.server_at < rank s.main_at s.server_at)
unfolding rank
rank_step {s} v down (moves (create e)) =
    (down, server_step s starting testing v down e (λ z. absurd (cc)) (omega arith))
rank_step {s} v down (moves (cancel e n)) = absurd (let f = rw e at v.flag in cc)
rank_step {s} v down (moves (store e)) = absurd (let f = rw e at v.flag in cc)
rank_step {s} v down (moves (join e f)) = (down, rw (e, f) (omega arith))
rank_step {s} v down (moves (serve e f)) = absurd (cc)
rank_step {s} v down (moves (leave e f)) =
    (down, server_step s testing leaving v down e (λ z. absurd (cc)) (omega arith))
rank_step {s} v down (moves (wake e f)) =
    (down, server_step s servicing testing v down e (λ z. absurd (cc)) (omega arith))
rank_step {s} v down (moves (finish e)) =
    (down, server_step s leaving ended v down e (λ z. absurd (cc)) (omega arith))
rank_step {s} v down (event e) =
    (down, server_step s servicing testing v down e (λ z. absurd (cc)) (omega arith))

rank_run :
    {s : Lifecycle} {n : ℕ} {t : Lifecycle}
    → InOrder s
    → s.running ≡ false
    → Turns s n t
    → InOrder t
      × (t.running ≡ false)
      × (n + rank t.main_at t.server_at ≤ rank s.main_at s.server_at)
rank_run v down here = (v, down, omega arith)
rank_run v down (then r t) =
    let (v1, d1, h1) = rank_run v down r in
    let (d2, h2) = rank_step v1 d1 t in (step-InOrder v1 t, d2, omega (arith, h1, h2))

-- In every reachable state the shutdown has returned, the server thread has ended, behind the shutdown of
-- the protocol, and `running` is down; or one of the two threads can make a step; or the join waits for
-- a server that sleeps in `lws_service`, with the flag down and the cancellation of the service used up,
-- until something happens on a connection. It is assumed that the context could be created, and that
-- the shutdown is called once it exists.
pub shutdown_goes_on :
    {k : ℕ} {s : Lifecycle}
    → Turns launched k s
    → ((s.main_at ≡ back) × (s.server_at ≡ ended) × (s.running ≡ false))
      ⊎ ((t : Lifecycle) × Move s t)
      ⊎ Asleep s
shutdown_goes_on {k} {s} r =
    let v = Turns-InOrder r in
    elim (go_on s.main_at s.server_at s.running s.signalled v.flag) [
      | inl e ↦ inl (e, rw e at v.waited, rw e at v.flag)
      | inr more ↦ inr more
    ]

-- From a reachable state with the flag down on, the two threads make at most four more steps, the
-- return of the service for an event included; and in every state on the way the shutdown has
-- returned, or one of them can make a step, or the join waits for a server that sleeps in
-- `lws_service` with the cancellation used up. It is assumed that the context could be created, and
-- that the shutdown is called once it exists.
pub shutdown_ends :
    {k n : ℕ} {s t : Lifecycle}
    → Turns launched k s
    → s.running ≡ false
    → Turns s n t
    → (n ≤ 4) × ((t.main_at ≡ back) ⊎ ((u : Lifecycle) × Move t u) ⊎ Asleep t)
shutdown_ends {k} {n} {s} {t} r down w =
    let (v, d, h) = rank_run (Turns-InOrder r) down w in
    (
      omega (arith, h, rank_small s.main_at s.server_at),
      go_on t.main_at t.server_at t.running t.signalled v.flag,
    )
