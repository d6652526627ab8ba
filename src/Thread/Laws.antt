-- ===== src/Thread/Laws.antt =====
-- The callback of the server thread, lib/foxdbg_thread.cpp: what every event leaves.
use foxdbg.Base.{
  ℕ, ◌≡◌, refl, sym, ◌∙◌, ap, Bool, true, false, List, [], ◌∷◌, none, ℤ, pos, minus_one, map, All,
  arith, Bool-cases, inl, inr, if◌then◌else◌,
}
use foxdbg.Outcome.{Outcome, ok, fault, map_ok}
use foxdbg.Channel.{Channel}
use foxdbg.Protocol.{Env, Server}
use foxdbg.Protocol.Delivery.{EnvOk, ServerOk}
use foxdbg.Protocol.Session.{disconnect, unsubscribed}
use foxdbg.Protocol.Session.Laws.{taken_over, connect-Told}
use foxdbg.Protocol.Receive.{JsonLib}
use foxdbg.Protocol.Receive.Laws.{receive-AtMostOne}
use foxdbg.Protocol.Transmit.{transmit_subscriptions}
use foxdbg.Protocol.Transmit.Laws.{subscriptions, Stopped, transmit-Walk}
use foxdbg.Protocol.Transmit.Quiet.{Silent, Quiet-walk}
use foxdbg.Thread.{
  Event, established, received, closed, writeable, other, World, handle, websocket_callback,
}
use foxdbg.Thread.Kept.{
  WorldOk, Kept, Kept-refl, AtMostOne-Kept, unsubscribed-Kept, taken_over-Kept, Stamped-Kept,
  Kept-WorldOk,
}

subscriptions-unsubscribed : (cs : List Channel) → subscriptions (map unsubscribed cs) ≡ 0
subscriptions-unsubscribed [] = refl
subscriptions-unsubscribed (c ∷ cs) = omega (arith, subscriptions-unsubscribed cs)

Silent-unsubscribed : (cs : List Channel) → All Silent (map unsubscribed cs)
Silent-unsubscribed [] = tt
Silent-unsubscribed (c ∷ cs) = (refl, Silent-unsubscribed cs)

-- After `foxdbg_protocol_disconnect`, a walk returns and sends nothing, however much time has passed,
-- whatever the channels hold and whatever the state of the server.
pub transmit-disconnect :
    (env : Env) (client : ℕ) (cs : List Channel) (p : Server)
    → let d = disconnect client cs p in
      (cs' : List Channel) × (q : Server) × (transmit_subscriptions env d.0 d.1 ≡ ok (cs', q))
      × (q.sent ≡ p.sent)
unfolding disconnect
transmit-disconnect env client cs p =
    let (r, e, same) =
      Quiet-walk env (map unsubscribed cs) (record p { client = none }) (Silent-unsubscribed cs) in
    (r.0, r.1, e, same)

module _ (env : Env) (world : EnvOk env) (lib : JsonLib) where
  -- What an event can leave: a well-formed state; the exception of the parser; or, where the walk of a
  -- running server comes to a channel that it must not send, undefined behaviour.
  pub data Handled (e : Event) (w : World) (run : Outcome (ℤ × World)) : Type 0 where
    done :
        (w' : World)
        → run ≡ ok (if w.running then pos 0 else minus_one, w')
        → WorldOk w'
        → Kept w.channels w'.channels
        → Handled e w run
    thrown :
        (bytes : List ℕ)
        → e ≡ received bytes
        → lib.parse bytes ≡ none
        → run ≡ fault
        → Handled e w run
    stopped :
        (wsi : ℕ)
        → e ≡ writeable wsi
        → w.running ≡ true
        → Stopped env w.channels w.server
        → run ≡ fault
        → Handled e w run

  -- The same of the handler of the event.
  data Ran (e : Event) (w : World) : Type 0 where
    returned :
        (w' : World)
        → handle env lib e w ≡ ok w'
        → ServerOk w'.server
        → Kept w.channels w'.channels
        → Ran e w
    threw :
        (bytes : List ℕ)
        → e ≡ received bytes
        → lib.parse bytes ≡ none
        → handle env lib e w ≡ fault
        → Ran e w
    broke :
        (wsi : ℕ)
        → e ≡ writeable wsi
        → Stopped env w.channels w.server
        → handle env lib e w ≡ fault
        → Ran e w

  handle-Ran : (e : Event) (w : World) → WorldOk w → Ran e w
  unfolding handle disconnect
  handle-Ran (established wsi) w v =
      let (q, e, fine, c, m, s) = connect-Told env world wsi w.channels w.server v.server_ok in
      returned
        (record w {
          channels = taken_over w.server.client w.channels;
          server = q;
          wanted = wsi ∷ w.wanted;
        })
        (ap (map_ok (λ r. record w { channels = r.0; server = r.1; wanted = wsi ∷ w.wanted })) e)
        fine (taken_over-Kept w.server.client w.channels)
  handle-Ran (received bytes) w v = elim (receive-AtMostOne lib bytes w.channels) [
    | inl (cs', e, m) ↦
        returned (record w { channels = cs' }) (ap (map_ok (λ cs. record w { channels = cs })) e)
          v.server_ok (AtMostOne-Kept m)
    | inr (e, bad) ↦ threw bytes refl bad (ap (map_ok (λ cs. record w { channels = cs })) e)
  ]
  handle-Ran (closed wsi) w v =
      returned
        (record w {
          channels = map unsubscribed w.channels;
          server = record w.server { client = none };
        })
        refl
        (record {
          raw = v.server_ok.raw;
          encode = v.server_ok.encode;
          info = v.server_ok.info;
          tx = v.server_ok.tx;
        })
        (unsubscribed-Kept w.channels)
  handle-Ran (writeable wsi) w v =
      let f : List Channel × Server → World =
        λ r. record w { channels = r.0; server = r.1; wanted = wsi ∷ w.wanted } in
      elim (transmit-Walk env world w.channels w.server v.channels_ok v.server_ok) [
        | inl (cs', q, e, s, h, (a, one)) ↦
            returned (f (cs', q)) (ap (map_ok f) e) a.fine (Stamped-Kept w.channels cs' s)
        | inr (stop, e) ↦ broke wsi refl stop (ap (map_ok f) e)
      ]
  handle-Ran other w v = returned w refl v.server_ok (Kept-refl w.channels)

  pub callback-up :
      (e : Event) (w : World)
      → w.running ≡ true
      → websocket_callback env lib e w ≡ map_ok (λ v. (pos 0, v)) (handle env lib e w)
  unfolding websocket_callback
  callback-up e w up =
      ap
        (λ (x : Bool). elim x [
          | false ↦ ok (minus_one, w)
          | true ↦ map_ok (λ v. (pos 0, v)) (handle env lib e w)
        ])
        up

  callback-down :
      (e : Event) (w : World)
      → w.running ≡ false
      → websocket_callback env lib e w ≡ ok (minus_one, w)
  unfolding websocket_callback
  callback-down e w down =
      ap
        (λ (x : Bool). elim x [
          | false ↦ ok (minus_one, w)
          | true ↦ map_ok (λ v. (pos 0, v)) (handle env lib e w)
        ])
        down

  -- For every event and every well-formed state, one of three things happens. The callback returns and
  -- leaves a well-formed state with the same channels but for subscriptions and stamps, and its value
  -- is 0 if the server is running and -1 if not. Or the event is a message that the JSON parser throws
  -- on, and the exception leaves the callback. Or a connection of a running server is writeable, and
  -- the walk comes to a subscribed and due channel that it must not send: a transform whose frame has
  -- a pointer that leads to no valid string, or an image that shows pixels and whose info, laid over
  -- the start of the static info buffer, asks `tjCompress2` for more bytes than `raw_data_buffer` has.
  -- It is assumed that `LWS_PRE` and the header leave room in the transmit buffer, and a compressed
  -- image has fewer than 2 ^ 61 bytes.
  pub websocket_callback-Handled :
      (e : Event) (w : World) → WorldOk w → Handled e w (websocket_callback env lib e w)
  websocket_callback-Handled e w v = elim (Bool-cases w.running) [
    | inl up ↦
        (let through : (r : Outcome World)
              → handle env lib e w ≡ r
              → websocket_callback env lib e w ≡ map_ok (λ v. (pos 0, v)) r =
            λ r eq. callback-up e w up ∙ ap (map_ok (λ v. (pos 0, v))) eq in
          elim (handle-Ran e w v) [
            | returned w' eq fine k ↦
                done w'
                  (through (ok w') eq ∙ ap (λ b. ok (if b then pos 0 else minus_one, w')) (sym up))
                  (Kept-WorldOk w w' v k fine) k
            | threw bytes is bad eq ↦ thrown bytes is bad (through fault eq)
            | broke wsi is stop eq ↦ stopped wsi is up stop (through fault eq)
          ])
    | inr down ↦
        done w
          (callback-down e w down ∙ ap (λ b. ok (if b then pos 0 else minus_one, w)) (sym down)) v
          (Kept-refl w.channels)
  ]

  connected :
      (a : ℕ) (w : World)
      → ServerOk w.server
      → w.running ≡ true
      → (q : Server) × (websocket_callback env lib (established a) w
          ≡ ok (
            pos 0,
            record w {
              channels = taken_over w.server.client w.channels;
              server = q;
              wanted = a ∷ w.wanted;
            },
          ))
        × ServerOk q
  unfolding handle
  connected a w v up =
      let (q, e, fine, c, m, s) = connect-Told env world a w.channels w.server v in
      (
        q,
        callback-up (established a) w up
            ∙ ap
                (λ x.
                  map_ok (λ v. (pos 0, v))
                    (map_ok (λ r. record w { channels = r.0; server = r.1; wanted = a ∷ w.wanted })
                      x))
                e,
        fine,
      )

  -- A connection that closes ends the session of the client, whichever connection it is: in a
  -- well-formed state of a running server, if `b` connects after `a`, and then `a` closes, the
  -- three callbacks return 0 each, and there is no client any more and nothing is subscribed. It is
  -- assumed that `LWS_PRE` and the header leave room in the transmit buffer, and a compressed image
  -- has fewer than 2 ^ 61 bytes.
  pub stale_close :
      (a b : ℕ) (w : World)
      → WorldOk w
      → w.running ≡ true
      → (w1 w2 w3 : World) × (websocket_callback env lib (established a) w ≡ ok (pos 0, w1))
        × (websocket_callback env lib (established b) w1 ≡ ok (pos 0, w2))
        × (websocket_callback env lib (closed a) w2 ≡ ok (pos 0, w3))
        × (w3.server.client ≡ none)
        × (subscriptions w3.channels ≡ 0)
  unfolding handle disconnect
  stale_close a b w v up =
      let (q1, e1, s1) = connected a w v.server_ok up in
      let w1 : World = record w {
        channels = taken_over w.server.client w.channels;
        server = q1;
        wanted = a ∷ w.wanted;
      } in
      let (q2, e2, s2) = connected b w1 s1 up in
      let w2 : World = record w1 {
        channels = taken_over q1.client w1.channels;
        server = q2;
        wanted = b ∷ w1.wanted;
      } in
      (
        w1,
        w2,
        record w2 { channels = map unsubscribed w2.channels; server = record q2 { client = none } },
        e1,
        e2,
        callback-up (closed a) w2 up,
        refl,
        subscriptions-unsubscribed w2.channels,
      )
