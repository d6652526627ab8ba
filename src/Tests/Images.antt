-- ===== src/Tests/Images.antt =====
-- An image channel of one pixel, whose client is 9.
use foxdbg.Base.{ℕ, ◌+◌, ◌≡◌, ◌≤◌, ◌++◌, refl, List, [], ◌∷◌, some, pos, length, arith}
use foxdbg.Outcome.{ok}
use foxdbg.Buffer.{FoxdbgBuffer, fresh_buffer}
use foxdbg.Buffer.Alone.{write_buffer, write_info_buffer}
use foxdbg.Buffer.Alone.Laws.{fresh-IsIdle}
use foxdbg.Channel.{Channel, image}
use foxdbg.Protocol.{Server, header, binary_message, tx_buffer_size}
use foxdbg.Protocol.Image.Bounds.{length-image_text}
use foxdbg.Protocol.Layout.{image_info_at, int32}
use foxdbg.Protocol.Senders.{tj_compress}
use foxdbg.Protocol.Transmit.{transmit_one}
use foxdbg.Protocol.Senders.Loads.{overwritten}
use foxdbg.Protocol.Senders.ImageFrames.{compressed, frame_payload, transmit_image-write}
use foxdbg.Tests.Sessions.{env, env-EnvOk, server, server-ServerOk}

abbrev blank_info : List ℕ
blank_info = 0 ∷ 0 ∷ 0 ∷ 0 ∷ 0 ∷ 0 ∷ 0 ∷ 0 ∷ 0 ∷ 0 ∷ 0 ∷ 0 ∷ []

-- Width and height 1, three channels.
abbrev one_pixel : List ℕ
one_pixel = 1 ∷ 0 ∷ 0 ∷ 0 ∷ 1 ∷ 0 ∷ 0 ∷ 0 ∷ 3 ∷ 0 ∷ 0 ∷ 0 ∷ []

abbrev red : List ℕ
red = 255 ∷ 0 ∷ 0 ∷ []

abbrev info_buf : FoxdbgBuffer
info_buf = fresh_buffer 12 blank_info blank_info

abbrev camera : Channel
camera = record {
  topic_name = "/camera";
  target_tx_time = 100;
  last_tx_time = 0;
  channel_id = pos 0;
  subscription_id = pos 5;
  channel_type = image;
  data_buffer = fresh_buffer 3 (0 ∷ 0 ∷ 0 ∷ []) (0 ∷ 0 ∷ 0 ∷ []);
  info_buffer = some info_buf;
}

abbrev jpeg : List ℕ
jpeg = 255 ∷ 216 ∷ []

small_payload : length (frame_payload one_pixel server jpeg) + 16 + 13 ≤ tx_buffer_size
small_payload =
    let info = image_info_at (overwritten one_pixel server.info_data_buffer) 0 in
    omega (arith, length-image_text info.width info.height info.channels jpeg)

-- One pixel of three bytes fits the static buffer.
compressed_pixel : compressed env red one_pixel server ≡ ok (some jpeg)
unfolding tj_compress int32
compressed_pixel = refl

transmit_image-write_example :
    (b b' : FoxdbgBuffer) × (c' : Channel) × (q : Server) × (write_buffer 1 red camera.data_buffer
      ≡ ok b)
    × (write_info_buffer 1 one_pixel info_buf ≡ ok b')
    × (transmit_one env (record camera { data_buffer = b; info_buffer = some b' }) server
        ≡ ok (c', q))
    × (q.sent ≡ (9, binary_message (header (pos 5) 0 ++ frame_payload one_pixel server jpeg)) ∷ [])
transmit_image-write_example =
    transmit_image-write env env-EnvOk 9 camera red one_pixel jpeg server server-ServerOk 1 1
      info_buf refl (fresh-IsIdle 3 (0 ∷ 0 ∷ 0 ∷ []) (0 ∷ 0 ∷ 0 ∷ []) refl refl) refl
      (fresh-IsIdle 12 blank_info blank_info refl refl) (omega arith) (omega arith) (omega arith)
      (omega arith) (omega arith) refl refl refl compressed_pixel small_payload
