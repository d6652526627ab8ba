-- ===== src/Protocol/Senders/Images.antt =====
-- `send_image` of lib/foxdbg_protocol.cpp on a channel with well-formed buffers.
use foxdbg.Base.{
  ℕ, ◌^◌, ◌≡◌, ◌≤◌, ◌<◌, refl, sym, ◌∙◌, List, Option, none, some, ℤ, length, take, if◌then◌else◌,
  memcpy, memcpy-in_range, Bool, true, false, ltb, ltb→lt, arith, Bool-cases, inl, inr,
}
use mathlib.Core.Path.{subst}
use foxdbg.Outcome.{ok, ◌>>=◌}
use foxdbg.Buffer.{FoxdbgBuffer}
use foxdbg.Buffer.Alone.{IsIdle, contents, read_buffer_lem}
use foxdbg.Channel.{Channel}
use foxdbg.Protocol.{Env, Server, send_large, raw_data_size, info_data_size}
use foxdbg.Protocol.Delivery.{EnvOk, ServerOk, FrameTo, Sends, quiet, after_quiet, send_large-Sends}
use foxdbg.Protocol.Senders.{
  server_thread, accept_some, copy_info, accept_info, send_compressed, compress_and_send,
  continue_info, read_info, image_pixels, send_image, pixel_format, pixel_bytes, tj_compress,
}
use foxdbg.Protocol.Layout.{image_info_at}
use foxdbg.Protocol.Image.Bounds.{encode-keeps}
use foxdbg.Protocol.Senders.Hazards.{Overlong}
use foxdbg.Protocol.Senders.Reads.{
  Delivers, map_ok-Delivers, Delivers-quiet, Sends-fault, Delivers-fault, length-contents,
  copy_raw-ok,
}

module _ (env : Env) (world : EnvOk env) where
  compressed-Sends :
      (F : Type 0) (id : ℤ) (p : Server) (jpeg : Option (List ℕ))
      → ((d : List ℕ) → jpeg ≡ some d → length d < 2 ^ 61)
      → ServerOk p
      → Sends F (FrameTo p.client id) 1 p (send_compressed env id p jpeg)
  unfolding send_compressed
  compressed-Sends F id p none small v = quiet (FrameTo p.client id) 1 p p v refl refl refl
  compressed-Sends F id p (some jpeg) small v =
      let info = image_info_at p.info_data_buffer 0 in
      let (n, out, e, l) =
        encode-keeps p.encode_buffer jpeg info.width info.height info.channels (small jpeg refl) in
      let q : Server = record p { encode_buffer = out } in
      let vq : ServerOk q = record {
        raw = v.raw;
        encode = l ∙ v.encode;
        info = v.info;
        tx = v.tx;
      } in
      subst
        (λ r.
          Sends F (FrameTo p.client id) 1 p
            (r >>= λ s. send_large env (take s.0 s.1) id (record p { encode_buffer = s.1 })))
        (sym e)
        (after_quiet F (FrameTo p.client id) 1 p q (send_large env (take n out) id q) refl refl refl
          (send_large-Sends F env id (take n out) q vq))

  compress-Sends :
      (id : ℤ) (p : Server)
      → ServerOk p
      → Sends
          (raw_data_size < pixel_bytes (image_info_at p.info_data_buffer 0))
          (FrameTo p.client id)
          1
          p
          (compress_and_send env id p)
  unfolding compress_and_send tj_compress
  compress-Sends id p v =
      let info = image_info_at p.info_data_buffer 0 in
      elim (Bool-cases (ltb raw_data_size (pixel_bytes info))) [
        | inl over ↦ rw over (ltb→lt raw_data_size (pixel_bytes info) over)
        | inr fits ↦ rw fits (
            compressed-Sends (raw_data_size < pixel_bytes info) id p
              (env.compress p.raw_data_buffer info.width info.height (pixel_format info.channels))
              (λ d e.
                world.image_small p.raw_data_buffer info.width info.height
                  (pixel_format info.channels) e)
              v)
      ]

  -- The info that the static buffer has behind the copy, if any.
  abbrev Loaded : Server → Option (List ℕ) → Type 0
  Loaded p none = ⊥
  Loaded p (some d) =
      (info : List ℕ) × (memcpy p.info_data_buffer 0 d ≡ some info)
      × (raw_data_size < pixel_bytes (image_info_at info 0))

  info-Sends :
      (id : ℤ) (p : Server) (d : Option (List ℕ))
      → ((bytes : List ℕ) → d ≡ some bytes → length bytes ≤ info_data_size)
      → ServerOk p
      → Sends (Loaded p d) (FrameTo p.client id) 1 p (continue_info env id p d)
  unfolding continue_info copy_info
  info-Sends id p none small v = quiet (FrameTo p.client id) 1 p p v refl refl refl
  info-Sends id p (some d) small v =
      let (out, e, l) =
        memcpy-in_range p.info_data_buffer 0 d (omega (arith, v.info, small d refl)) in
      let q : Server = record p { info_data_buffer = out } in
      let vq : ServerOk q = record {
        raw = v.raw;
        encode = v.encode;
        info = omega (arith, l, v.info);
        tx = v.tx;
      } in
      let same : copy_info d p ≡ ok q = rw (e, copy_info) refl in
      let Here : Type 0 = raw_data_size < pixel_bytes (image_info_at out 0) in
      subst
        (λ r. Sends (Loaded p (some d)) (FrameTo p.client id) 1 p (r >>= compress_and_send env id))
        (sym same)
        (Sends-fault Here (Loaded p (some d)) (FrameTo p.client id) 1 p (compress_and_send env id q)
          (λ over. (out, e, over))
          (after_quiet Here (FrameTo p.client id) 1 p q (compress_and_send env id q) refl refl refl
            (compress-Sends id q vq)))

  read_info-Loaded :
      (p : Server) (b : FoxdbgBuffer) (yes_it : Bool)
      → Loaded p (if yes_it then some (contents b) else none)
      → Overlong p.info_data_buffer (some b)
  read_info-Loaded p b true h = h
  read_info-Loaded p b false h = absurd h

  -- What is left of `send_image` behind the copy of the pixels.
  read_info-Delivers :
      (c : Channel) (p : Server) (b : FoxdbgBuffer)
      → c.info_buffer ≡ some b
      → IsIdle b
      → ServerOk p
      → Delivers (Overlong p.info_data_buffer (some b)) c p (read_info env c p (some b))
  unfolding read_info
  read_info-Delivers c p b e idle v =
      rw (read_buffer_lem server_thread b idle accept_info, ← e)
        (let d = if accept_info b.front_buffer_size then some (contents b) else none in
          map_ok-Delivers (Overlong p.info_data_buffer (some b)) c p
            (continue_info env c.subscription_id p d)
            (Sends-fault (Loaded p d) (Overlong p.info_data_buffer (some b))
              (FrameTo p.client c.subscription_id) 1 p (continue_info env c.subscription_id p d)
              (read_info-Loaded p b (accept_info b.front_buffer_size))
              (info-Sends c.subscription_id p d (λ bytes q. ground (arith, length-contents b idle))
                v)))

  pub send_image-Delivers :
      (c : Channel) (p : Server) (b : FoxdbgBuffer)
      → IsIdle c.data_buffer
      → c.info_buffer ≡ some b
      → IsIdle b
      → ServerOk p
      → Delivers
          ((0 < c.data_buffer.front_buffer_size) × Overlong p.info_data_buffer c.info_buffer)
          c
          p
          (send_image env c p)
  unfolding send_image image_pixels
  send_image-Delivers c p b idle e idle_info v =
      rw (read_buffer_lem server_thread c.data_buffer idle accept_some)
        (elim (Bool-cases (accept_some c.data_buffer.front_buffer_size)) [
          | inl yes_it ↦ rw yes_it (
              let d = contents c.data_buffer in
              let (raw, eq, l) =
                copy_raw-ok d p v (ground (arith, length-contents c.data_buffer idle)) in
              let q : Server = record p { raw_data_buffer = raw } in
              let vq : ServerOk q = record {
                raw = l;
                encode = v.encode;
                info = v.info;
                tx = v.tx;
              } in
              let some_pixels : 0 < c.data_buffer.front_buffer_size = ground arith in
              let F : Option FoxdbgBuffer → Type 0 =
                λ x. (0 < c.data_buffer.front_buffer_size) × Overlong p.info_data_buffer x in
              subst
                (λ r. Delivers (F c.info_buffer) c p (r >>= λ s. read_info env c s c.info_buffer))
                (sym eq)
                (subst (λ x. Delivers (F x) c p (read_info env c q x)) (sym e)
                  (Delivers-fault (Overlong p.info_data_buffer (some b)) (F (some b)) c p
                    (read_info env c q (some b)) (λ over. (some_pixels, over))
                    (Delivers-quiet (Overlong p.info_data_buffer (some b)) c p q
                      (read_info env c q (some b)) refl refl refl
                      (read_info-Delivers c q b e idle_info vq)))))
          | inr not_it ↦
              rw not_it (refl, quiet (FrameTo p.client c.subscription_id) 1 p p v refl refl refl)
        ])
