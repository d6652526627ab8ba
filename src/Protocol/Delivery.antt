-- ===== src/Protocol/Delivery.antt =====
-- What the sending of one message can do to the server's side, in every case: lib/foxdbg_protocol.cpp.
use foxdbg.Base.{
  ℕ, ◌+◌, ◌^◌, ◌≡◌, ◌≤◌, ◌<◌, refl, sym, ◌∙◌, ap, List, [], ◌∷◌, ◌++◌, Option, none, some, ℤ,
  length, leb, ltb, leb→le, All, memcpy-in_range, arith, Bool-cases, Option-cases, inl, inr,
}
use mathlib.Core.Path.{subst}
use foxdbg.Outcome.{Outcome, ok, blocked, fault, ◌>>=◌}
use foxdbg.Protocol.{
  Env, Server, Message, binary_message, raw_data_size, encode_buffer_size, info_data_size,
  tx_buffer_size, put_tx, header, send_binary, send_buffer, send_large, send_small,
}
use foxdbg.Protocol.Frame.{put_tx-ok, Sent, send_large-Sent, send_small-Sent}

-- What is relied on: `LWS_PRE` and the header leave room in the transmit buffer, and a compressed image
-- is an object in memory.
pub record EnvOk (env : Env) : Type 0 where
  pub room : env.lws_pre + 13 ≤ tx_buffer_size
  pub image_small :
      (pixels : List ℕ) (w h : ℤ) (f : ℕ) {image : List ℕ}
      → env.compress pixels w h f ≡ some image
      → length image < 2 ^ 61

-- The static buffers have their sizes.
pub record ServerOk (p : Server) : Type 0 where
  pub raw : length p.raw_data_buffer ≡ raw_data_size
  pub encode : length p.encode_buffer ≡ encode_buffer_size
  pub info : length p.info_data_buffer ≡ info_data_size
  pub tx : length p.tx_buffer ≡ tx_buffer_size

-- A binary message to the client for the subscription.
pub record FrameTo (client : Option ℕ) (id : ℤ) (m : ℕ × Message) : Type 0 where
  pub time : ℕ
  pub payload : List ℕ
  pub to_client : client ≡ some m.0
  pub is_frame : m.1 ≡ binary_message (header id time ++ payload)

-- At most `n` more messages have been sent, all of which `P` holds of.
pub record After (P : ℕ × Message → Type 0) (n : ℕ) (p q : Server) : Type 0 where
  pub fine : ServerOk q
  pub same_client : q.client ≡ p.client
  pub same_millis : q.millis_calls ≡ p.millis_calls
  pub more : List (ℕ × Message)
  pub sent_more : q.sent ≡ p.sent ++ more
  pub few : length more ≤ n
  pub each : All P more

-- The call returns, and that is so of what it leaves; or it ends in undefined behaviour, and `F` holds.
abbrev pub Sends : Type 0 → (ℕ × Message → Type 0) → ℕ → Server → Outcome Server → Type 0
Sends F P n p (ok q) = After P n p q
Sends F P n p blocked = ⊥
Sends F P n p fault = F

pub ++-nil {ℓ} : {A : Type ℓ} (xs : List A) → xs ++ [] ≡ xs
++-nil [] = refl
++-nil (x ∷ xs) = ap (λ r. x ∷ r) (++-nil xs)

-- Nothing is sent where only the static buffers and the readings of the clock change.
pub quiet :
    (P : ℕ × Message → Type 0) (n : ℕ) (p q : Server)
    → ServerOk q
    → q.client ≡ p.client
    → q.millis_calls ≡ p.millis_calls
    → q.sent ≡ p.sent
    → After P n p q
quiet P n p q v e m s = record {
  fine = v;
  same_client = e;
  same_millis = m;
  more = [];
  sent_more = s ∙ sym (++-nil p.sent);
  few = omega arith;
  each = tt;
}

-- Steps before that send nothing can be left out.
pub after_quiet :
    (F : Type 0) (P : ℕ × Message → Type 0) (n : ℕ) (p p' : Server) (r : Outcome Server)
    → p'.client ≡ p.client
    → p'.millis_calls ≡ p.millis_calls
    → p'.sent ≡ p.sent
    → Sends F P n p' r
    → Sends F P n p r
after_quiet F P n p p' (ok q) e m s a = record {
  fine = a.fine;
  same_client = a.same_client ∙ e;
  same_millis = a.same_millis ∙ m;
  more = a.more;
  sent_more = a.sent_more ∙ ap (λ x. x ++ a.more) s;
  few = a.few;
  each = a.each;
}
after_quiet F P n p p' blocked e m s a = a
after_quiet F P n p p' fault e m s a = a

send_buffer-none :
    (env : Env) (size : ℕ) (id : ℤ) (p : Server)
    → p.client ≡ none
    → send_buffer env size id p ≡ ok p
unfolding send_buffer send_binary
send_buffer-none env size id p e = rw e refl

module _ (F : Type 0) (env : Env) (id : ℤ) (bytes : List ℕ) (p : Server) (v : ServerOk p) where
  Sent-After :
      (c : ℕ) (q : Server)
      → p.client ≡ some c
      → Sent env c id bytes p q
      → After (FrameTo p.client id) 1 p q
  Sent-After c q e s = record {
    fine = rw s.rest_same (record { raw = v.raw; encode = v.encode; info = v.info; tx = s.ready });
    same_client = rw s.rest_same refl;
    same_millis = rw s.rest_same refl;
    more = (c, binary_message (header id (env.nanos p.nanos_calls) ++ bytes)) ∷ [];
    sent_more = s.message;
    few = omega arith;
    each = (
      record { time = env.nanos p.nanos_calls; payload = bytes; to_client = e; is_frame = refl },
      tt,
    );
  }

  -- Without a client the payload is copied, and that is all.
  unsent :
      p.client ≡ none
      → length bytes + env.lws_pre + 13 ≤ tx_buffer_size
      → Sends F
          (FrameTo p.client id)
          1
          p
          (put_tx (env.lws_pre + 13) bytes p >>= send_buffer env (length bytes + 13) id)
  unsent e fits =
      let (mid, e1, l1) =
        memcpy-in_range p.tx_buffer (env.lws_pre + 13) bytes (omega (arith, v.tx)) in
      let q : Server = record p { tx_buffer = mid } in
      let done =
        ap (λ r. r >>= send_buffer env (length bytes + 13) id)
          (put_tx-ok (env.lws_pre + 13) bytes p e1)
        ∙ send_buffer-none env (length bytes + 13) id q e in
      rw done (
        quiet (FrameTo p.client id) 1 p q
          (record { raw = v.raw; encode = v.encode; info = v.info; tx = omega (arith, l1, v.tx) })
          refl refl refl)

  -- Whether there is a client or not, and whether the payload fits or not, the end of a sender returns;
  -- it sends one message at most, and that is a frame for the subscription to the client.
  pub send_large-Sends : Sends F (FrameTo p.client id) 1 p (send_large env bytes id p)
  unfolding send_large
  send_large-Sends = elim (Bool-cases (leb (length bytes + env.lws_pre + 13) tx_buffer_size)) [
    | inl fits ↦ elim (Option-cases p.client) [
      | inl e ↦ rw fits (unsent e (leb→le (length bytes + env.lws_pre + 13) tx_buffer_size fits))
      | inr (c, e) ↦
          (let (q, eq, s) =
              send_large-Sent env id bytes p v.tx c e
                (leb→le (length bytes + env.lws_pre + 13) tx_buffer_size fits) in
            subst (λ r. Sends F (FrameTo p.client id) 1 p r) (sym eq) (Sent-After c q e s))
    ]
    | inr large ↦ rw large (quiet (FrameTo p.client id) 1 p p v refl refl refl)
  ]

  pub send_small-Sends : Sends F (FrameTo p.client id) 1 p (send_small env bytes id p)
  unfolding send_small
  send_small-Sends = elim (Bool-cases (ltb (length bytes + env.lws_pre + 13) tx_buffer_size)) [
    | inl fits ↦ elim (Option-cases p.client) [
      | inl e ↦ rw fits (unsent e (ground arith))
      | inr (c, e) ↦
          (let (q, eq, s) = send_small-Sent env id bytes p v.tx c e (ground arith) in
            subst (λ r. Sends F (FrameTo p.client id) 1 p r) (sym eq) (Sent-After c q e s))
    ]
    | inr large ↦ rw large (quiet (FrameTo p.client id) 1 p p v refl refl refl)
  ]
