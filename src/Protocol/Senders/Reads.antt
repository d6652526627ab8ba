-- ===== src/Protocol/Senders/Reads.antt =====
-- The common start of the senders of lib/foxdbg_protocol.cpp: the read of the channel and its copy.
use foxdbg.Base.{
  ℕ, ◌≡◌, ◌≤◌, refl, sym, Bool, true, List, some, ℤ, length, length-take, memcpy-in_range, arith,
  Bool-cases, inl, inr,
}
use mathlib.Core.Path.{subst}
use foxdbg.Outcome.{Outcome, ok, blocked, fault, map_ok, ◌>>=◌}
use foxdbg.Buffer.{FoxdbgBuffer, half_bytes}
use foxdbg.Buffer.Alone.{IsIdle, contents, read_buffer_lem}
use foxdbg.Channel.{Channel}
use foxdbg.Protocol.{Server, Message, raw_data_size}
use foxdbg.Protocol.Delivery.{ServerOk, FrameTo, After, Sends, quiet, after_quiet}
use foxdbg.Protocol.Senders.{server_thread, copy_raw, continue, send_with}

-- The sender returns, leaves the channel as it was and sends at most one frame to its subscription; or
-- it ends in undefined behaviour, and `F` holds.
abbrev pub Delivers : Type 0 → Channel → Server → Outcome (Channel × Server) → Type 0
Delivers F c p (ok (c', q)) = (c' ≡ c) × After (FrameTo p.client c.subscription_id) 1 p q
Delivers F c p blocked = ⊥
Delivers F c p fault = F

pub map_ok-Delivers :
    (F : Type 0) (c : Channel) (p : Server) (r : Outcome Server)
    → Sends F (FrameTo p.client c.subscription_id) 1 p r
    → Delivers F c p (map_ok (λ q. (c, q)) r)
map_ok-Delivers F c p (ok q) h = (refl, h)
map_ok-Delivers F c p blocked h = h
map_ok-Delivers F c p fault h = h

pub Delivers-fault :
    (F G : Type 0) (c : Channel) (p : Server) (r : Outcome (Channel × Server))
    → (F → G)
    → Delivers F c p r
    → Delivers G c p r
Delivers-fault F G c p (ok x) f h = h
Delivers-fault F G c p blocked f h = h
Delivers-fault F G c p fault f h = f h

pub Delivers-quiet :
    (F : Type 0) (c : Channel) (p p' : Server) (r : Outcome (Channel × Server))
    → p'.client ≡ p.client
    → p'.millis_calls ≡ p.millis_calls
    → p'.sent ≡ p.sent
    → Delivers F c p' r
    → Delivers F c p r
Delivers-quiet F c p p' (ok (c', q)) e m s h = (
  h.0,
  after_quiet F (FrameTo p.client c.subscription_id) 1 p p' (ok q) e m s
      (subst (λ x. After (FrameTo x c.subscription_id) 1 p' q) e h.1),
)
Delivers-quiet F c p p' blocked e m s h = h
Delivers-quiet F c p p' fault e m s h = h

pub length-contents : (b : FoxdbgBuffer) → IsIdle b → length (contents b) ≤ b.front_buffer_size
length-contents b v = omega (arith, length-take b.front_buffer_size (half_bytes b b.front_buffer))

pub copy_raw-ok :
    (d : List ℕ) (p : Server)
    → ServerOk p
    → length d ≤ raw_data_size
    → (raw : List ℕ) × (copy_raw d p ≡ ok (record p { raw_data_buffer = raw }))
      × (length raw ≡ raw_data_size)
unfolding copy_raw
copy_raw-ok d p v h =
    let (out, e, l) = memcpy-in_range p.raw_data_buffer 0 d (omega (arith, v.raw)) in
    (out, rw (e, copy_raw) refl, omega (arith, l, v.raw))

-- What a sender makes of the bytes is fine in every state of the static buffers, or `F` holds of them.
abbrev pub RestOk : (List ℕ → Type 0) → ℤ → (List ℕ → Server → Outcome Server) → Type 0
RestOk F id rest =
    (d : List ℕ) (p : Server) → ServerOk p → Sends (F d) (FrameTo p.client id) 1 p (rest d p)

pub Sends-fault :
    (F G : Type 0) (P : ℕ × Message → Type 0) (n : ℕ) (p : Server) (r : Outcome Server)
    → (F → G)
    → Sends F P n p r
    → Sends G P n p r
Sends-fault F G P n p (ok q) f h = h
Sends-fault F G P n p blocked f h = h
Sends-fault F G P n p fault f h = f h

continue-Sends :
    (F : List ℕ → Type 0) (id : ℤ) (rest : List ℕ → Server → Outcome Server) (d : List ℕ)
    (p : Server)
    → RestOk F id rest
    → ServerOk p
    → length d ≤ raw_data_size
    → Sends (F d) (FrameTo p.client id) 1 p (continue rest p (some d))
unfolding continue
continue-Sends F id rest d p h v fits =
    let (raw, e, l) = copy_raw-ok d p v fits in
    let q : Server = record p { raw_data_buffer = raw } in
    let vq : ServerOk q = record { raw = l; encode = v.encode; info = v.info; tx = v.tx } in
    subst (λ r. Sends (F d) (FrameTo p.client id) 1 p (r >>= rest d)) (sym e)
      (after_quiet (F d) (FrameTo p.client id) 1 p q (rest d q) refl refl refl (h d q vq))

pub send_with-Delivers :
    (F : List ℕ → Type 0) (G : Type 0) (accept : ℕ → Bool) (rest : List ℕ → Server → Outcome Server)
    (c : Channel) (p : Server)
    → ((n : ℕ) → accept n ≡ true → n ≤ raw_data_size)
    → (accept c.data_buffer.front_buffer_size ≡ true → F (contents c.data_buffer) → G)
    → RestOk F c.subscription_id rest
    → IsIdle c.data_buffer
    → ServerOk p
    → Delivers G c p (send_with accept rest c p)
unfolding send_with continue
send_with-Delivers F G accept rest c p small g h idle v =
    rw (read_buffer_lem server_thread c.data_buffer idle accept)
      (elim (Bool-cases (accept c.data_buffer.front_buffer_size)) [
        | inl yes_it ↦ rw yes_it (
            let d = contents c.data_buffer in
            let few : length d ≤ raw_data_size = omega (
              arith,
              small c.data_buffer.front_buffer_size yes_it,
              length-contents c.data_buffer idle,
            ) in
            map_ok-Delivers G c p (continue rest p (some d)) (
              Sends-fault (F d) G (FrameTo p.client c.subscription_id) 1 p
                (continue rest p (some d)) (g yes_it)
                (continue-Sends F c.subscription_id rest d p h v few)))
        | inr not_it ↦
            rw not_it (refl, quiet (FrameTo p.client c.subscription_id) 1 p p v refl refl refl)
      ])
