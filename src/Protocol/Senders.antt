-- ===== src/Protocol/Senders.antt =====
-- `send_image` to `send_bool` of lib/foxdbg_protocol.cpp: read a channel's buffer, and send what it
-- holds as one message.
pub mod Reads
pub mod Hazards
pub mod Faults
pub mod Images
pub mod Laws
pub mod Frames
pub mod Loads
pub mod ImageFrames
use foxdbg.Base.{
  ℕ, ◌%◌, Bool, ◌&&◌, List, Option, none, some, ℤ, pos, negsuc, eq_int, ◌*◌, leb, ltb, ◌==◌, take,
  memcpy, if◌then◌else◌,
}
use foxdbg.Outcome.{Outcome, ok, fault, map_ok, ◌>>=◌}
use foxdbg.Buffer.{FoxdbgBuffer}
use foxdbg.Buffer.Alone.{read_buffer}
use foxdbg.Channel.{
  Channel, sizeof_vector4, sizeof_cube, sizeof_line, sizeof_pose, sizeof_transform, sizeof_location,
  sizeof_float, sizeof_int, sizeof_bool,
}
use foxdbg.Protocol.{Env, Server, raw_data_size, info_data_size, send_large, send_small}
use foxdbg.Protocol.Layout.{ImageInfo, image_info_at, pose_at, transform_at, location_at}
use foxdbg.Protocol.Messages.{
  pointcloud_json, cubes_json, lines_json, pose_json, transform_json, location_json, float_value,
  int_value, bool_value,
}
use foxdbg.Json.{Json}
use foxdbg.Protocol.Image.{encode_image_byte_array}
use foxdbg.Base.{length}

-- The thread that runs the senders.
abbrev pub server_thread : ℕ
server_thread = 1

-- The tests of the size: not empty, a whole number of structs, exactly one struct.
abbrev pub accept_some : ℕ → Bool
accept_some n = leb n raw_data_size && ltb 0 n

abbrev pub accept_many : ℕ → ℕ → Bool
accept_many size n = leb n raw_data_size && (ltb 0 n && n % size == 0)

abbrev pub accept_one : ℕ → ℕ → Bool
accept_one size n = leb n raw_data_size && n == size

abbrev pub accept_info : ℕ → Bool
accept_info n = leb n info_data_size

-- `memcpy (raw_data_buffer, data, data_size)`
pub copy_raw : List ℕ → Server → Outcome Server
copy_raw d p = elim (memcpy p.raw_data_buffer 0 d) [
  | none ↦ fault
  | some raw ↦ ok (record p { raw_data_buffer = raw })
]

copy_info : List ℕ → Server → Outcome Server
copy_info d p = elim (memcpy p.info_data_buffer 0 d) [
  | none ↦ fault
  | some info ↦ ok (record p { info_data_buffer = info })
]

-- What a sender does with the bytes that it has copied, if any.
continue : (List ℕ → Server → Outcome Server) → Server → Option (List ℕ) → Outcome Server
unfolding copy_raw
continue rest p none = ok p
continue rest p (some d) = copy_raw d p >>= rest d

-- The common start of the senders. The read leaves the buffer as `read_buffer` says.
pub send_with :
    (ℕ → Bool) → (List ℕ → Server → Outcome Server) → Channel → Server → Outcome (Channel × Server)
unfolding continue
send_with accept rest c p = read_buffer server_thread accept c.data_buffer >>= λ r.
    map_ok (λ q. (record c { data_buffer = r.1 }, q)) (continue rest p r.0)

unfoldable pub send_pointcloud : Env → Channel → Server → Outcome (Channel × Server)
unfolding send_with
send_pointcloud env c =
    send_with (accept_many sizeof_vector4)
      (λ d. send_large env (env.dump (pointcloud_json d)) c.subscription_id) c

unfoldable pub send_cubes : Env → Channel → Server → Outcome (Channel × Server)
unfolding send_with
send_cubes env c =
    send_with (accept_many sizeof_cube)
      (λ d. send_large env (env.dump (cubes_json env c.topic_name d (length d))) c.subscription_id)
      c

unfoldable pub send_lines : Env → Channel → Server → Outcome (Channel × Server)
unfolding send_with
send_lines env c =
    send_with (accept_many sizeof_line)
      (λ d. send_large env (env.dump (lines_json env c.topic_name d (length d))) c.subscription_id)
      c

unfoldable pub send_pose : Env → Channel → Server → Outcome (Channel × Server)
unfolding send_with
send_pose env c =
    send_with (accept_one sizeof_pose)
      (λ d. send_large env (env.dump (pose_json env c.topic_name (pose_at d 0))) c.subscription_id)
      c

-- The strings of a transform are behind pointers of the payload; a pointer that leads to none is
-- followed all the same.
unfoldable pub send_value : Env → ℤ → Option Json → Server → Outcome Server
send_value env id none p = fault
send_value env id (some value) p = send_small env (env.dump value) id p

unfoldable pub send_transform : Env → Channel → Server → Outcome (Channel × Server)
unfolding send_with send_value
send_transform env c =
    send_with (accept_one sizeof_transform)
      (λ d. send_value env c.subscription_id (transform_json env (transform_at d 0))) c

unfoldable pub send_location : Env → Channel → Server → Outcome (Channel × Server)
unfolding send_with
send_location env c =
    send_with (accept_one sizeof_location)
      (λ d. send_small env (env.dump (location_json (location_at d 0))) c.subscription_id) c

unfoldable pub send_float : Env → Channel → Server → Outcome (Channel × Server)
unfolding send_with
send_float env c =
    send_with (accept_one sizeof_float)
      (λ d. send_small env (env.dump (float_value env d)) c.subscription_id) c

unfoldable pub send_integer : Env → Channel → Server → Outcome (Channel × Server)
unfolding send_with
send_integer env c =
    send_with (accept_one sizeof_int)
      (λ d. send_small env (env.dump (int_value d)) c.subscription_id) c

unfoldable pub send_bool : Env → Channel → Server → Outcome (Channel × Server)
unfolding send_with
send_bool env c =
    send_with (accept_one sizeof_bool)
      (λ d. send_small env (env.dump (bool_value d)) c.subscription_id) c

-- `TJPF_RGB`, `TJPF_GRAY` and `TJPF_RGBA`
abbrev pub pixel_format : ℤ → ℕ
pixel_format channels =
    if eq_int channels (pos 1)
    then 6
    else if eq_int channels (pos 3)
    then 0
    else if eq_int channels (pos 4)
    then 7
    else 0

-- The bytes of the pixels that the info describes, which `tjCompress2` asks of the buffer of its caller.
-- It refuses a width or a height that is not positive and then reads nothing.
abbrev dimension : ℤ → ℕ
dimension (pos n) = n
dimension (negsuc n) = 0

abbrev pixel_size : ℤ → ℕ
pixel_size channels =
    if eq_int channels (pos 1) then 1 else if eq_int channels (pos 4) then 4 else 3

abbrev pub pixel_bytes : ImageInfo → ℕ
pixel_bytes info = dimension info.width * dimension info.height * pixel_size info.channels

-- The call of `tjCompress2` on `raw_data_buffer`: undefined where the info describes more bytes than that
-- has, whatever was written.
unfoldable pub tj_compress : Env → List ℕ → ImageInfo → Outcome (Option (List ℕ))
tj_compress env pixels info =
    if ltb raw_data_size (pixel_bytes info)
    then fault
    else ok (env.compress pixels info.width info.height (pixel_format info.channels))

-- From the compressed image on: encode it, and send what the encoder has written.
send_compressed : Env → ℤ → Server → Option (List ℕ) → Outcome Server
send_compressed env id p none = ok p
send_compressed env id p (some image) =
    let info = image_info_at p.info_data_buffer 0 in
    encode_image_byte_array p.encode_buffer info.width info.height info.channels image >>= λ r.
    send_large env (take r.0 r.1) id (record p { encode_buffer = r.1 })

-- From the copies of the pixels and of the info on: `tjCompress2`.
pub compress_and_send : Env → ℤ → Server → Outcome Server
unfolding send_compressed tj_compress
compress_and_send env id p =
    tj_compress env p.raw_data_buffer (image_info_at p.info_data_buffer 0)
    >>= send_compressed env id p

continue_info : Env → ℤ → Server → Option (List ℕ) → Outcome Server
unfolding copy_info compress_and_send
continue_info env id p none = ok p
continue_info env id p (some d) = copy_info d p >>= compress_and_send env id

-- A channel with no info buffer would hand `NULL` to `foxdbg_buffer_begin_read`.
read_info : Env → Channel → Server → Option FoxdbgBuffer → Outcome (Channel × Server)
unfolding continue_info
read_info env c p none = fault
read_info env c p (some info) = read_buffer server_thread accept_info info >>= λ r.
    map_ok (λ q. (record c { info_buffer = some r.1 }, q))
      (continue_info env c.subscription_id p r.0)

image_pixels : Env → Channel → Server → Option (List ℕ) → Outcome (Channel × Server)
unfolding copy_raw read_info
image_pixels env c p none = ok (c, p)
image_pixels env c p (some d) = copy_raw d p >>= λ q. read_info env c q c.info_buffer

unfoldable pub send_image : Env → Channel → Server → Outcome (Channel × Server)
unfolding image_pixels
send_image env c p = read_buffer server_thread accept_some c.data_buffer >>= λ r.
    image_pixels env (record c { data_buffer = r.1 }) p r.0
