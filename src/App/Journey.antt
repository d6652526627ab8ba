-- ===== src/App/Journey.antt =====
-- The way of a frame through the whole library, from a client that connects to the message it gets.
use foxdbg.Base.{
  ℕ, suc, ◌+◌, ◌*◌, ◌^◌, ◌≡◌, ◌≤◌, ◌<◌, refl, sym, ◌∙◌, ap, true, List, [], ◌∷◌, ◌++◌, none, some,
  ℤ, pos, is_nonneg, length, length-append, All, arith,
}
use mathlib.Core.Path.{subst}
use foxdbg.Outcome.{ok-injective, Outcome, ok, map_ok, ◌>>=◌}
use foxdbg.Buffer.{FoxdbgBuffer}
use foxdbg.Buffer.Alone.{write_buffer}
use foxdbg.Buffer.Alone.Laws.{write_buffer-Written}
use foxdbg.Channel.{Channel}
use foxdbg.Json.{Json}
use foxdbg.Protocol.{Env, Server, binary_message, header, tx_buffer_size}
use foxdbg.Protocol.Delivery.{EnvOk, ServerOk}
use foxdbg.Protocol.Senders.Frames.{takes, Readable, value_of, frame_message, transmit-write}
use foxdbg.Protocol.Session.{connect, server_info, advertise}
use foxdbg.Protocol.Session.Laws.{told, taken_over, connect-Told}
use foxdbg.Protocol.Receive.{JsonLib, receive}
use foxdbg.Protocol.Receive.Subscribe.{TextMessage, Subscribes, receive-subscribe}
use foxdbg.Protocol.Transmit.{is_due, transmit_one, transmit_subscriptions}
use foxdbg.Registry.{write_to, write_channel}
use foxdbg.Registry.Invariant.{ChannelOk, Numbered}
use foxdbg.Thread.{Event, established, received, writeable, World, handle}
use foxdbg.Thread.Laws.{callback-up}
use foxdbg.App.{App, seen_by_server, left_by_server, Action, write, callback, act, perform}
use foxdbg.App.Laws.{AppOk}
use foxdbg.Protocol.Transmit.Quiet.{Silent, Quiet}
use foxdbg.App.Alone.{one_walk, set_subscription-at, write_to-at}

-- The application with other channels, another state of the protocol and other requests to be told.
abbrev with_state : App → List Channel → Server → List ℕ → App
with_state a cs p wanted = record a {
  registry = record a.registry { channels = cs };
  server = p;
  wanted = wanted;
}

All-middle :
    (P : Channel → Type 0) (pre : List Channel) (c : Channel) (post : List Channel)
    → All P (pre ++ (c ∷ post))
    → P c
All-middle P [] c post h = h.0
All-middle P (x ∷ pre) c post h = All-middle P pre c post h.1

Numbered-set :
    (n : ℕ) (pre : List Channel) (c : Channel) (post : List Channel) (id : ℤ)
    → Numbered n (pre ++ (c ∷ post))
    → Numbered n (pre ++ (record c { subscription_id = id } ∷ post))
Numbered-set n [] c post id h = h
Numbered-set n (x ∷ pre) c post id h = (h.0, Numbered-set (suc n) pre c post id h.1)

module _ (env : Env) (lib : JsonLib) where
  perform_step :
      (x : Action) (xs : List Action) (a a' : App) {r : Outcome App}
      → act env lib x a ≡ ok a'
      → perform env lib xs a' ≡ r
      → perform env lib (x ∷ xs) a ≡ r
  unfolding perform
  perform_step x xs a a' e f = ap (λ m. m >>= perform env lib xs) e ∙ f

  perform_end : (a : App) → perform env lib [] a ≡ ok a
  unfolding perform
  perform_end a = refl

  -- A callback of a running server is its handler.
  callback_step :
      (e : Event) (a : App) (cs : List Channel) (p : Server) (wanted : List ℕ)
      → EnvOk env
      → a.running ≡ true
      → handle env lib e (seen_by_server a)
        ≡ ok (record { channels = cs; server = p; running = a.running; wanted = wanted })
      → act env lib (callback e) a ≡ ok (with_state a cs p wanted)
  unfolding act
  callback_step e a cs p wanted world up h =
      ap (map_ok (λ r. left_by_server a r.1))
        (callback-up env world lib e (seen_by_server a) up ∙ ap (map_ok (λ v. (pos 0, v))) h)

  handle_established :
      (wsi : ℕ) (w : World) {r : List Channel × Server}
      → connect env wsi w.channels w.server ≡ ok r
      → handle env lib (established wsi) w
        ≡ ok (record { channels = r.0; server = r.1; running = w.running; wanted = wsi ∷ w.wanted })
  unfolding handle
  handle_established wsi w e =
      ap (map_ok (λ r. record w { channels = r.0; server = r.1; wanted = wsi ∷ w.wanted })) e

  handle_received :
      (bytes : List ℕ) (w : World) {cs : List Channel}
      → receive lib bytes w.channels ≡ ok cs
      → handle env lib (received bytes) w
        ≡ ok (record { channels = cs; server = w.server; running = w.running; wanted = w.wanted })
  unfolding handle
  handle_received bytes w e = ap (map_ok (λ cs. record w { channels = cs })) e

  handle_writeable :
      (wsi : ℕ) (w : World) {r : List Channel × Server}
      → transmit_subscriptions env w.channels w.server ≡ ok r
      → handle env lib (writeable wsi) w
        ≡ ok (record { channels = r.0; server = r.1; running = w.running; wanted = wsi ∷ w.wanted })
  unfolding handle
  handle_writeable wsi w e =
      ap (map_ok (λ r. record w { channels = r.0; server = r.1; wanted = wsi ∷ w.wanted })) e

  write_step :
      (t : ℕ) (id : ℤ) (d : List ℕ) (a : App) {cs : List Channel}
      → write_to t id d a.registry.channels ≡ ok cs
      → act env lib (write t id d) a ≡ ok (with_state a cs a.server a.wanted)
  unfolding act write_channel
  write_step t id d a e =
      ap (map_ok (λ r. record a { registry = r }))
        (ap (map_ok (λ cs. record a.registry { channels = cs })) e)

-- The channel was due at each of the readings that a walk to it can take.
abbrev DueFrom : Env → ℕ → ℕ → Channel → Type 0
DueFrom env first readings c =
    (n : ℕ) → first ≤ n → n ≤ first + readings → is_due (env.millis n) c ≡ true

-- The turn of the channel behind the write, wherever the clock stands.
turn :
    (env : Env) (cl : ℕ) (c : Channel) (b : FoxdbgBuffer) (t : ℕ) (d : List ℕ)
    → ChannelOk c
    → length d ≤ c.data_buffer.buffer_size
    → takes c.channel_type (length d) ≡ true
    → Readable env c.channel_type d
    → is_nonneg c.subscription_id ≡ true
    → length (env.dump (value_of env c.topic_name c.channel_type d)) + env.lws_pre + 13
      < tx_buffer_size
    → write_buffer t d c.data_buffer ≡ ok b
    → (p : Server) → ServerOk p
    → p.client ≡ some cl
    → (readings : ℕ) → DueFrom env p.millis_calls readings c
    → (p' : Server) → Quiet readings p p'
    → (r : Channel × Server) × (transmit_one env (record c { data_buffer = b }) p' ≡ ok r)
      × (r.1.sent ≡ p'.sent ++ (frame_message env cl c d p' ∷ []))
turn env cl c b t d good fits takes_it strings sub room eb p fine told_to readings due p' q =
    let fine' : ServerOk p' =
      subst ServerOk (sym q.rest_same)
        (record { raw = fine.raw; encode = fine.encode; info = fine.info; tx = fine.tx }) in
    let told_to' : p'.client ≡ some cl = ap (λ (x : Server). x.client) q.rest_same ∙ told_to in
    let (b', c', q', eb', et, s) =
      transmit-write env cl c d p' good fine' t fits takes_it strings told_to' sub
        (due p'.millis_calls q.later q.soon) room in
    (
      (c', q'),
      subst (λ x. transmit_one env (record c { data_buffer = x }) p' ≡ ok (c', q'))
          (ok-injective (sym eb' ∙ eb)) et,
      s,
    )

module _ (env : Env) (world : EnvOk env) (lib : JsonLib) (a : App) (v : AppOk a)
    (pre : List Channel) (c : Channel) (post : List Channel)
    (are : a.registry.channels ≡ pre ++ (c ∷ post)) where
  -- In an initialised library that is in order, with the server running, no client, at most 2 ^
  -- 31 channels and no channel but perhaps one, `c`, subscribed, let a client connect and ask in
  -- the first entry of a text message for `c` as `id`, which is not negative; let any thread then
  -- write to `c` a frame of a size that its type, not an image, admits, and that fits its buffer,
  -- in a transform with two pointers that lead to valid strings; and let a connection then be
  -- writeable. All four return. What is sent is who the server is and which channels there are,
  -- each of the two only where its text fits behind `LWS_PRE` in the transmit buffer and dropped
  -- otherwise, and then the frame, once, to that client: the header with `id` and a reading of
  -- the clock in front of the text that tells the frame. The channel has to be due at the
  -- readings of the clock of a walk to it, and the message has to leave a byte of the transmit
  -- buffer free. It is assumed that `LWS_PRE` and the header leave room in the transmit buffer,
  -- and a compressed image has fewer than 2 ^ 61 bytes.
  pub perform-sent :
      a.running ≡ true
      → a.server.client ≡ none
      → All Silent pre
      → All Silent post
      → (cl wsi t first : ℕ) (more : List ℕ) (json : Json) (id : ℤ) (d : List ℕ)
      → length (pre ++ (c ∷ post)) ≤ 2 ^ 31
      → TextMessage lib first more json
      → Subscribes lib json id (pos (length pre))
      → is_nonneg id ≡ true
      → length d ≤ c.data_buffer.buffer_size
      → takes c.channel_type (length d) ≡ true
      → Readable env c.channel_type d
      → DueFrom env a.server.millis_calls (2 * length pre) c
      → length (env.dump (value_of env c.topic_name c.channel_type d)) + env.lws_pre + 13
        < tx_buffer_size
      → (a' : App) × (n : ℕ) × (perform env lib
            (callback (established cl)
              ∷ callback (received (first ∷ more))
              ∷ write t (pos (length pre)) d
              ∷ callback (writeable wsi)
              ∷ [])
            a
          ≡ ok a')
        × (a'.server.sent
            ≡ (a.server.sent
                ++ (told env cl (env.dump server_info)
                    ++ told env cl (env.dump (advertise env a.registry.channels))))
              ++ ((
                cl,
                binary_message (
                    header id (env.nanos n)
                    ++ env.dump (value_of env c.topic_name c.channel_type d)),
              )
                  ∷ []))
  perform-sent up nobody before behind cl wsi t first more json id d few txt asks sub fits takes_it
        strings due room =
      let cs = a.registry.channels in
      let k = length pre in
      let (p1, e1, fine1, cl1, m1, s1) = connect-Told env world cl cs a.server v.server_ok in
      let e1' : connect env cl cs a.server ≡ ok (cs, p1) =
        e1 ∙ ap (λ o. ok (taken_over o cs, p1)) nobody in
      let a1 = with_state a cs p1 (cl ∷ a.wanted) in
      let step1 =
        callback_step env lib (established cl) a cs p1 (cl ∷ a.wanted) world up
          (handle_established env lib cl (seen_by_server a) e1') in
      let c2 : Channel = record c { subscription_id = id } in
      let cs2 = pre ++ (c2 ∷ post) in
      let num : Numbered 0 (pre ++ (c ∷ post)) =
        subst (λ l. Numbered 0 l) are v.lists_ok.channels_ok.numbered in
      let lt : k < length (pre ++ (c ∷ post)) = omega (arith, length-append pre (c ∷ post)) in
      let e2 : receive lib (first ∷ more) cs ≡ ok cs2 =
        ap (receive lib (first ∷ more)) are
        ∙ receive-subscribe lib (pre ++ (c ∷ post)) num few k lt id first more json txt asks
        ∙ ap ok (set_subscription-at pre c post id) in
      let a2 = with_state a cs2 p1 (cl ∷ a.wanted) in
      let step2 =
        callback_step env lib (received (first ∷ more)) a1 cs2 p1 (cl ∷ a.wanted) world up
          (handle_received env lib (first ∷ more) (seen_by_server a1) e2) in
      let old : ChannelOk c =
        All-middle ChannelOk pre c post
          (subst (All ChannelOk) are v.lists_ok.channels_ok.channels_ok) in
      let good : ChannelOk c2 = record {
        data_idle = old.data_idle;
        sized = old.sized;
        info = old.info;
      } in
      let (b, eb, w) = write_buffer-Written t c.data_buffer old.data_idle d fits in
      let c3 : Channel = record c2 { data_buffer = b } in
      let cs3 = pre ++ (c3 ∷ post) in
      let a3 = with_state a cs3 p1 (cl ∷ a.wanted) in
      let step3 = write_step env lib t (pos k) d a2 (
        write_to-at t k 0 d pre c2 post (Numbered-set 0 pre c post id num) (omega arith)
          (omega (arith, few, lt)) eb) in
      let sends =
        turn env cl c2 b t d good fits takes_it strings sub room eb p1 fine1 cl1 (2 * k)
          (λ n x y. due n (omega (arith, m1, x)) (omega (arith, m1, y))) in
      let (p', r, q, e4, s4) =
        one_walk env pre c3 post (frame_message env cl c2 d) p1 before behind sends in
      let step4 =
        callback_step env lib (writeable wsi) a3 r.0 r.1 (wsi ∷ cl ∷ a.wanted) world up
          (handle_writeable env lib wsi (seen_by_server a3) e4) in
      (
        with_state a r.0 r.1 (wsi ∷ cl ∷ a.wanted),
        p'.nanos_calls,
        perform_step env lib (callback (established cl)) _ a a1 step1 (
            perform_step env lib (callback (received (first ∷ more))) _ a1 a2 step2 (
              perform_step env lib (write t (pos k) d) _ a2 a3 step3 (
                perform_step env lib (callback (writeable wsi)) [] a3 _ step4
                  (perform_end env lib _)))),
        s4
            ∙ ap (λ s. s ++ (frame_message env cl c2 d p' ∷ []))
                (s1
                  ∙ ap
                      (λ o.
                        a.server.sent
                        ++ (told env cl (env.dump server_info)
                            ++ told env cl (env.dump (advertise env (taken_over o cs)))))
                      nobody),
      )
