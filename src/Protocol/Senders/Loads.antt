-- ===== src/Protocol/Senders/Loads.antt =====
-- The reads and copies at the start of `send_image` of lib/foxdbg_protocol.cpp: what they put into the static
-- buffers.
use foxdbg.Base.{
  ℕ, ◌≡◌, ◌≤◌, refl, sym, ◌∙◌, ap, true, List, ◌++◌, some, length, length-append, length-drop, drop,
  memcpy-zero, arith,
}
use foxdbg.Outcome.{ok, map_ok, ◌>>=◌}
use foxdbg.Buffer.{FoxdbgBuffer}
use foxdbg.Buffer.Alone.{IsIdle, contents, read_buffer_lem}
use foxdbg.Channel.{Channel}
use foxdbg.Protocol.{Env, Server}
use foxdbg.Protocol.Senders.{
  server_thread, accept_some, accept_info, copy_raw, copy_info, compress_and_send, continue_info,
  read_info, image_pixels, send_image,
}

-- What a buffer holds behind a copy to its start.
abbrev pub overwritten : List ℕ → List ℕ → List ℕ
overwritten d old = d ++ drop (length d) old

pub length-overwritten :
    (d old : List ℕ) → length d ≤ length old → length (overwritten d old) ≡ length old
length-overwritten d old h =
    omega (arith, length-append d (drop (length d) old), length-drop (length d) old)

copy_raw_lem :
    (d : List ℕ) (p : Server)
    → length d ≤ length p.raw_data_buffer
    → copy_raw d p ≡ ok (record p { raw_data_buffer = overwritten d p.raw_data_buffer })
unfolding copy_raw
copy_raw_lem d p h = rw (memcpy-zero p.raw_data_buffer d h, copy_raw) refl

copy_info_lem :
    (d : List ℕ) (p : Server)
    → length d ≤ length p.info_data_buffer
    → copy_info d p ≡ ok (record p { info_data_buffer = overwritten d p.info_data_buffer })
unfolding copy_info
copy_info_lem d p h = rw (memcpy-zero p.info_data_buffer d h, copy_info) refl

-- The static buffers behind the two copies.
abbrev pub loaded : List ℕ → List ℕ → Server → Server
loaded d i p = record p {
  raw_data_buffer = overwritten d p.raw_data_buffer;
  info_data_buffer = overwritten i p.info_data_buffer;
}

module _ (env : Env) (c : Channel) (d i : List ℕ) (p : Server) where
  -- The steps up to the compression.
  continue_info-loaded :
      (q : Server)
      → length i ≤ length q.info_data_buffer
      → continue_info env c.subscription_id q (some i)
        ≡ compress_and_send env c.subscription_id
            (record q { info_data_buffer = overwritten i q.info_data_buffer })
  unfolding continue_info
  continue_info-loaded q h =
      ap (λ x. x >>= compress_and_send env c.subscription_id) (copy_info_lem i q h)

  read_info-loaded :
      (q : Server) (ib : FoxdbgBuffer)
      → c.info_buffer ≡ some ib
      → IsIdle ib
      → contents ib ≡ i
      → accept_info ib.front_buffer_size ≡ true
      → length i ≤ length q.info_data_buffer
      → read_info env c q (some ib)
        ≡ map_ok
            (λ r. (c, r))
            (compress_and_send env c.subscription_id
              (record q { info_data_buffer = overwritten i q.info_data_buffer }))
  unfolding read_info
  read_info-loaded q ib has idle shows accepted h =
      rw (read_buffer_lem server_thread ib idle accept_info) (
        rw accepted (
          ap
            (λ x.
              map_ok (λ r. (record c { info_buffer = some ib }, r))
                (continue_info env c.subscription_id q (some x)))
            shows
          ∙ ap (map_ok (λ r. (record c { info_buffer = some ib }, r))) (continue_info-loaded q h)
          ∙ ap
              (λ x.
                map_ok (λ r. (record c { info_buffer = x }, r))
                  (compress_and_send env c.subscription_id
                    (record q { info_data_buffer = overwritten i q.info_data_buffer })))
              (sym has)))

  pub send_image-loaded :
      (ib : FoxdbgBuffer)
      → IsIdle c.data_buffer
      → contents c.data_buffer ≡ d
      → accept_some c.data_buffer.front_buffer_size ≡ true
      → length d ≤ length p.raw_data_buffer
      → c.info_buffer ≡ some ib
      → IsIdle ib
      → contents ib ≡ i
      → accept_info ib.front_buffer_size ≡ true
      → length i ≤ length p.info_data_buffer
      → send_image env c p
        ≡ map_ok (λ r. (c, r)) (compress_and_send env c.subscription_id (loaded d i p))
  unfolding send_image image_pixels
  send_image-loaded ib idle shows accepted hd has idle_i shows_i accepted_i hi =
      let q : Server = record p { raw_data_buffer = overwritten d p.raw_data_buffer } in
      rw (read_buffer_lem server_thread c.data_buffer idle accept_some) (
        rw accepted (
          ap (λ x. image_pixels env c p (some x)) shows
          ∙ ap (λ x. x >>= λ y. read_info env c y c.info_buffer) (copy_raw_lem d p hd)
          ∙ ap (read_info env c q) has
          ∙ read_info-loaded q ib has idle_i shows_i accepted_i hi))
