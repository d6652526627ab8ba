-- ===== src/Protocol/Senders/ImageFrames.antt =====
-- From the writes of pixels and of their info to the message that the client gets: `send_image` of
-- lib/foxdbg_protocol.cpp on what was published.
use foxdbg.Base.{
  ℕ, ◌+◌, ◌*◌, ◌^◌, ◌≡◌, ◌≤◌, ◌<◌, refl, sym, ◌∙◌, ap, true, false, List, [], ◌∷◌, ◌++◌, Option,
  some, ℤ, is_nonneg, length, take, drop, take-append, ltb, if◌then◌else◌, arith, Bool-cases, inl,
  inr,
}
use mathlib.Core.List.{append_assoc}
use foxdbg.Outcome.{ok-injective, Outcome, ok, map_ok, ◌>>=◌}
use foxdbg.Buffer.{FoxdbgBuffer}
use foxdbg.Buffer.Alone.{IsIdle, write_buffer, write_info_buffer}
use foxdbg.Buffer.Alone.Laws.{write_buffer-Written}
use foxdbg.Channel.{Channel, image}
use foxdbg.Protocol.{
  Env, Server, binary_message, header, send_large, raw_data_size, encode_buffer_size,
  info_data_size, tx_buffer_size,
}
use foxdbg.Protocol.Delivery.{EnvOk, ServerOk}
use foxdbg.Protocol.Frame.{send_large-Sent}
use foxdbg.Protocol.Layout.{ImageInfo, image_info_at}
use foxdbg.Protocol.Image.{image_text, encode_image_byte_array}
use foxdbg.Protocol.Image.Bounds.{encode-in_bounds, encode-keeps}
use foxdbg.Protocol.Senders.{
  accept_some, accept_info, send_compressed, compress_and_send, pixel_format, pixel_bytes,
  tj_compress,
}
use foxdbg.Protocol.Transmit.{send_channel, is_due, transmit_one}
use foxdbg.Registry.Infos.{write_info-eq-write}
use foxdbg.Protocol.Senders.Loads.{overwritten, length-overwritten, loaded, send_image-loaded}

-- The payload: the text of the encoder, or nothing where it gave up.
abbrev pub image_payload : ℤ → ℤ → ℤ → List ℕ → List ℕ
image_payload w h ch jpeg =
    if ltb encode_buffer_size (110 + 4 * length jpeg) then [] else image_text w h ch jpeg

-- The bytes that the encoder wrote are the payload.
encoded :
    (buffer jpeg : List ℕ) (w h ch : ℤ)
    → length buffer ≡ encode_buffer_size
    → length jpeg < 2 ^ 61
    → (r : ℕ × List ℕ) × (encode_image_byte_array buffer w h ch jpeg ≡ ok r)
      × (take r.0 r.1 ≡ image_payload w h ch jpeg)
      × (length r.1 ≡ encode_buffer_size)
encoded buffer jpeg w h ch full small =
    let text = image_text w h ch jpeg in
    let whole = encode-in_bounds buffer jpeg w h ch small in
    let (n, out, e, l) = encode-keeps buffer jpeg w h ch small in
    elim (Bool-cases (ltb encode_buffer_size (110 + 4 * length jpeg))) [
      | inl large ↦
          (let test : ltb (length buffer) (110 + 4 * length jpeg) ≡ true =
              ap (λ k. ltb k (110 + 4 * length jpeg)) full ∙ large in
            ((0, buffer), rw test at whole, rw large refl, full))
      | inr fits ↦
          (let test : ltb (length buffer) (110 + 4 * length jpeg) ≡ false =
              ap (λ k. ltb k (110 + 4 * length jpeg)) full ∙ fits in
            let rest = drop (length (text ++ (0 ∷ []))) buffer in
            let done = rw test at whole in
            let same = ok-injective (sym e ∙ done) in
            (
              (length text, (text ++ (0 ∷ [])) ++ rest),
              done,
              rw fits (
                  ap (take (length text)) (append_assoc text (0 ∷ []) rest)
                  ∙ take-append text ((0 ∷ []) ++ rest)),
              ap (λ (r : ℕ × List ℕ). length r.1) (sym same) ∙ l ∙ full,
            ))
    ]

module _ (env : Env) (world : EnvOk env) (cl : ℕ) (id : ℤ) (p : Server) (v : ServerOk p)
    (told_to : p.client ≡ some cl) where
  -- One frame with the payload, and no reading of the clock in milliseconds.
  FrameSent : List ℕ → Server → Type 0
  FrameSent payload q =
      (q.sent
        ≡ p.sent ++ ((cl, binary_message (header id (env.nanos p.nanos_calls) ++ payload)) ∷ []))
      × (q.millis_calls ≡ p.millis_calls)

  compressed-FrameSent :
      (jpeg : List ℕ)
      → length jpeg < 2 ^ 61
      → let info = image_info_at p.info_data_buffer 0 in
        length (image_payload info.width info.height info.channels jpeg) + env.lws_pre + 13
          ≤ tx_buffer_size
        → (q : Server) × (send_compressed env id p (some jpeg) ≡ ok q)
          × FrameSent (image_payload info.width info.height info.channels jpeg) q
  unfolding send_compressed FrameSent
  compressed-FrameSent jpeg small room =
      let info = image_info_at p.info_data_buffer 0 in
      let (r, e, is, l) =
        encoded p.encode_buffer jpeg info.width info.height info.channels v.encode small in
      let p1 : Server = record p { encode_buffer = r.1 } in
      let (q, eq, s) =
        send_large-Sent env id (image_payload info.width info.height info.channels jpeg) p1 v.tx cl
          told_to room in
      (
        q,
        ap (λ x. x >>= λ y. send_large env (take y.0 y.1) id (record p { encode_buffer = y.1 })) e
            ∙ ap (λ x. send_large env x id p1) is
            ∙ eq,
        (s.message, ap (λ (x : Server). x.millis_calls) s.rest_same),
      )

tj_compress-small :
    (env : Env)
    → EnvOk env
    → (pixels : List ℕ) (info : ImageInfo) {jpeg : List ℕ}
    → tj_compress env pixels info ≡ ok (some jpeg)
    → length jpeg < 2 ^ 61
unfolding tj_compress
tj_compress-small env world pixels info e =
    elim (Bool-cases (ltb raw_data_size (pixel_bytes info))) [
      | inl over ↦ absurd (let bad = rw over at e in cc)
      | inr fits ↦
          world.image_small pixels info.width info.height (pixel_format info.channels)
            (ok-injective (rw fits at e))
    ]

-- What `tjCompress2` makes of the loaded pixels, and the payload of the frame.
abbrev pub compressed : Env → List ℕ → List ℕ → Server → Outcome (Option (List ℕ))
compressed env d i p =
    tj_compress env (overwritten d p.raw_data_buffer)
      (image_info_at (overwritten i p.info_data_buffer) 0)

abbrev pub frame_payload : List ℕ → Server → List ℕ → List ℕ
frame_payload i p jpeg =
    let info = image_info_at (overwritten i p.info_data_buffer) 0 in
    image_payload info.width info.height info.channels jpeg

module _ (env : Env) (world : EnvOk env) (cl : ℕ) (c : Channel) (d i jpeg : List ℕ) (p : Server)
    (v : ServerOk p) where
  compress-FrameSent :
      p.client ≡ some cl
      → length d ≤ raw_data_size
      → length i ≤ info_data_size
      → compressed env d i p ≡ ok (some jpeg)
      → length (frame_payload i p jpeg) + env.lws_pre + 13 ≤ tx_buffer_size
      → (q : Server) × (compress_and_send env c.subscription_id (loaded d i p) ≡ ok q)
        × (q.sent
            ≡ p.sent
              ++ ((
                cl,
                binary_message
                    (header c.subscription_id (env.nanos p.nanos_calls) ++ frame_payload i p jpeg),
              )
                  ∷ []))
        × (q.millis_calls ≡ p.millis_calls)
  unfolding compress_and_send FrameSent
  compress-FrameSent told_to hd hi e room =
      let info = image_info_at (overwritten i p.info_data_buffer) 0 in
      let fine : ServerOk (loaded d i p) = record {
        raw = length-overwritten d p.raw_data_buffer (omega (arith, v.raw)) ∙ v.raw;
        encode = v.encode;
        info = length-overwritten i p.info_data_buffer (omega (arith, v.info)) ∙ v.info;
        tx = v.tx;
      } in
      let small =
        tj_compress-small env world (overwritten d p.raw_data_buffer)
          (image_info_at (overwritten i p.info_data_buffer) 0) e in
      let (q, eq, s) =
        compressed-FrameSent env world cl c.subscription_id (loaded d i p) fine told_to jpeg small
          room in
      (q, ap (λ r. r >>= send_compressed env c.subscription_id (loaded d i p)) e ∙ eq, s.0, s.1)

module _ (env : Env) (world : EnvOk env) (cl : ℕ) (c : Channel) (d i jpeg : List ℕ) (p : Server)
    (v : ServerOk p) where
  -- Pixels and an info that are written to an image channel reach the client in the channel's
  -- next turn: if the channel's two buffers are well formed, the static buffers have their sizes,
  -- the pixels are at least one byte and fit the channel's and the static buffer, the info fits
  -- the channel's info buffer and the static one, there is a client, the channel is subscribed
  -- and due, `tjCompress2`, on an info that asks for no more bytes than `raw_data_buffer` has,
  -- succeeds, and the message fits the transmit buffer, then both writes and the turn return, and
  -- the turn sends exactly one message, to that client: the channel's subscription and the time
  -- in front of the text of the compressed image, with the width, height and channels that the
  -- start of the static info buffer then holds; or in front of nothing, where four bytes for each
  -- compressed byte and 110 more are more than the encoder's buffer. It is assumed that `LWS_PRE`
  -- and the header leave room in the transmit buffer, and a compressed image has fewer than 2 ^
  -- 61 bytes.
  pub transmit_image-write :
      (t u : ℕ) (ib : FoxdbgBuffer)
      → c.channel_type ≡ image
      → IsIdle c.data_buffer
      → c.info_buffer ≡ some ib
      → IsIdle ib
      → 0 < length d
      → length d ≤ c.data_buffer.buffer_size
      → length d ≤ raw_data_size
      → length i ≤ ib.buffer_size
      → length i ≤ info_data_size
      → p.client ≡ some cl
      → is_nonneg c.subscription_id ≡ true
      → is_due (env.millis p.millis_calls) c ≡ true
      → compressed env d i p ≡ ok (some jpeg)
      → length (frame_payload i p jpeg) + env.lws_pre + 13 ≤ tx_buffer_size
      → (b b' : FoxdbgBuffer) × (c' : Channel) × (q : Server) × (write_buffer t d c.data_buffer
          ≡ ok b)
        × (write_info_buffer u i ib ≡ ok b')
        × (transmit_one env (record c { data_buffer = b; info_buffer = some b' }) p ≡ ok (c', q))
        × (q.sent
            ≡ p.sent
              ++ ((
                cl,
                binary_message
                    (header c.subscription_id (env.nanos p.nanos_calls) ++ frame_payload i p jpeg),
              )
                  ∷ []))
  unfolding transmit_one send_channel
  transmit_image-write t u ib is idle has idle_i some_pixels fits hd fits_i hi told_to sub due e
        room =
      let (b, eb, w) = write_buffer-Written t c.data_buffer idle d fits in
      let (b', eb', w') = write_buffer-Written u ib idle_i i fits_i in
      let c1 : Channel = record c { data_buffer = b; info_buffer = some b' } in
      let p1 : Server = record p { millis_calls = p.millis_calls + 1 } in
      let fine : ServerOk p1 = record {
        raw = v.raw;
        encode = v.encode;
        info = v.info;
        tx = v.tx;
      } in
      let (q, eq, s, m) =
        compress-FrameSent env world cl c1 d i jpeg p1 fine told_to hd hi e room in
      let accepted : accept_some b.front_buffer_size ≡ true = ground (arith, w.size) in
      let accepted_i : accept_info b'.front_buffer_size ≡ true = ground (arith, w'.size) in
      let sent =
        send_image-loaded env c1 d i p1 b' w.idle w.shows accepted (omega (arith, v.raw)) refl
          w'.idle w'.shows accepted_i (omega (arith, v.info)) in
      let turn : send_channel env c.channel_type c1 p1 ≡ ok (c1, q) =
        ap (λ ty. send_channel env ty c1 p1) is ∙ sent ∙ ap (map_ok (λ r. (c1, r))) eq in
      (
        b,
        b',
        record c1 { last_tx_time = env.millis q.millis_calls },
        record q { millis_calls = q.millis_calls + 1 },
        eb,
        write_info-eq-write u i ib fits_i ∙ eb',
        rw (sub, due) (rw turn refl),
        s,
      )
