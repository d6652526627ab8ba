-- ===== src/Protocol/Session/Laws.antt =====
-- What a new client is told, and what is left when a client goes.
use foxdbg.Base.{
  ℕ, ◌+◌, ◌-◌, ◌%◌, ◌^◌, ◌≡◌, refl, sym, ◌∙◌, ap, List, [], ◌∷◌, ◌++◌, Option, none, some, length,
  ltb, if◌then◌else◌, map, memcpy-in_range, memcpy-read, take, drop, arith, Bool-cases, inl, inr,
}
use mathlib.Core.List.{append_assoc}
use foxdbg.Outcome.{ok, map_ok}
use foxdbg.Json.{Json}
use foxdbg.Channel.{Channel}
use foxdbg.Protocol.{Env, Server, Message, text_message, tx_buffer_size, log, send_text, send_json}
use foxdbg.Protocol.Frame.{put_tx-ok}
use foxdbg.Protocol.Delivery.{EnvOk, ServerOk, ++-nil}
use foxdbg.Protocol.Session.{disconnect, unsubscribed, server_info, advertise, drop_client, connect}

-- The text message to the client, or none where the transmit buffer has no room for it.
abbrev pub told : Env → ℕ → List ℕ → List (ℕ × Message)
told env c bytes =
    if ltb (tx_buffer_size - env.lws_pre) (length bytes) then [] else (c, text_message bytes) ∷ []

-- What `send_json` leaves behind a message, which was sent if it fits.
pub record Told (sent : List (ℕ × Message)) (p q : Server) : Type 0 where
  pub fine : ServerOk q
  pub rest_same : q ≡ record p { tx_buffer = q.tx_buffer; sent = p.sent ++ sent }

module _ (env : Env) (world : EnvOk env) where
  send_text-Told :
      (bytes : List ℕ) (c : ℕ) (p : Server)
      → ServerOk p
      → (q : Server) × (send_text env bytes (some c) p ≡ ok q) × Told (told env c bytes) p q
  unfolding send_text
  send_text-Told bytes c p v =
      let room : (tx_buffer_size + 2 ^ 64 - env.lws_pre) % 2 ^ 64 ≡ tx_buffer_size - env.lws_pre =
        omega (arith, world.room) in
      elim (Bool-cases (ltb (tx_buffer_size - env.lws_pre) (length bytes))) [
        | inl large ↦ (
          p,
          rw (room, large) refl,
          rw large (record {
            fine = v;
            rest_same = ap (λ s. record p { sent = s }) (sym (++-nil p.sent));
          }),
        )
        | inr fits ↦
            (let (out, eq, l) =
                memcpy-in_range p.tx_buffer env.lws_pre bytes (ground (arith, v.tx, world.room)) in
              let q : Server = record p { tx_buffer = out } in
              (
                record q { sent = p.sent ++ ((c, text_message bytes) ∷ []) },
                rw (room, fits)
                    (ap
                        (map_ok (λ r.
                          log c (text_message (take (length bytes) (drop env.lws_pre r.tx_buffer)))
                            r))
                        (put_tx-ok env.lws_pre bytes p eq)
                      ∙ ap (λ t. ok (record q { sent = p.sent ++ ((c, text_message t) ∷ []) }))
                          (memcpy-read p.tx_buffer env.lws_pre bytes eq)),
                rw fits (record {
                  fine = record { raw = v.raw; encode = v.encode; info = v.info; tx = l ∙ v.tx };
                  rest_same = refl;
                }),
              ))
      ]

  send_json-Told :
      (j : Json) (c : ℕ) (p : Server)
      → p.client ≡ some c
      → ServerOk p
      → (q : Server) × (send_json env j p ≡ ok q) × Told (told env c (env.dump j)) p q
  unfolding send_json
  send_json-Told j c p e v =
      let (q, eq, t) = send_text-Told (env.dump j) c p v in
      (q, ap (λ x. send_text env (env.dump j) x p) e ∙ eq, t)

-- The channels of a new client: if there was one before it, its subscriptions are gone.
abbrev pub taken_over : Option ℕ → List Channel → List Channel
taken_over none cs = cs
taken_over (some old) cs = map unsubscribed cs

drop_client-taken_over :
    (old : Option ℕ) (cs : List Channel) (p : Server) (client : ℕ)
    → let r = drop_client old cs p in
      (r.0 ≡ taken_over old cs)
      × (record r.1 { client = some client } ≡ record p { client = some client })
unfolding drop_client disconnect
drop_client-taken_over none cs p client = (refl, refl)
drop_client-taken_over (some old) cs p client = (refl, refl)

module _ (env : Env) (world : EnvOk env) where
  -- With static buffers of their sizes, `foxdbg_protocol_connect` returns; the new connection is
  -- the client from then on, and is told who the server is and then which channels there are, each
  -- in a text message that is left out only where the transmit buffer has no room for it. If there
  -- was a client, all channels are unsubscribed first and it is told nothing more; if not, the
  -- channels are as they were. It is assumed that `LWS_PRE` and the header leave room in the
  -- transmit buffer, and a compressed image has fewer than 2 ^ 61 bytes.
  pub connect-Told :
      (client : ℕ) (cs : List Channel) (p : Server)
      → ServerOk p
      → let cs1 = taken_over p.client cs in
        (q : Server) × (connect env client cs p ≡ ok (cs1, q))
        × ServerOk q
        × (q.client ≡ some client)
        × (q.millis_calls ≡ p.millis_calls)
        × (q.sent
            ≡ p.sent
              ++ (told env client (env.dump server_info)
                  ++ told env client (env.dump (advertise env cs1))))
  unfolding connect
  connect-Told client cs p v =
      let d = drop_client-taken_over p.client cs p client in
      let p1 : Server = record p { client = some client } in
      let cs1 = taken_over p.client cs in
      let (p2, e2, t2) =
        send_json-Told env world server_info client p1 refl
          (record { raw = v.raw; encode = v.encode; info = v.info; tx = v.tx }) in
      let c2 : p2.client ≡ some client = ap (λ (x : Server). x.client) t2.rest_same in
      let (p3, e3, t3) = send_json-Told env world (advertise env cs1) client p2 c2 t2.fine in
      (
        p3,
        rw (d.1, d.0, e2, e3) refl,
        t3.fine,
        ap (λ (x : Server). x.client) t3.rest_same ∙ c2,
        ap (λ (x : Server). x.millis_calls) t3.rest_same
            ∙ ap (λ (x : Server). x.millis_calls) t2.rest_same,
        ap (λ (x : Server). x.sent) t3.rest_same
            ∙ ap (λ s. s ++ told env client (env.dump (advertise env cs1)))
                (ap (λ (x : Server). x.sent) t2.rest_same)
            ∙ append_assoc p.sent (told env client (env.dump server_info))
                (told env client (env.dump (advertise env cs1))),
      )
