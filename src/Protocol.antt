-- ===== src/Protocol.antt =====
-- lib/foxdbg_protocol.cpp: the state of the server's side of the Foxglove protocol, and how a message
-- reaches the client. The children hold the messages, the senders and the handlers.
pub mod Frame
pub mod Delivery
pub mod Image
pub mod Layout
pub mod Messages
pub mod Senders
pub mod Transmit
pub mod Clock
pub mod Session
pub mod Receive
use foxdbg.Base.{
  ℕ, ◌+◌, ◌-◌, ◌*◌, ◌/◌, ◌%◌, ◌^◌, Bool, true, false, List, [], ◌∷◌, ◌++◌, Option, none, some, ℤ,
  int_shr, low_byte, take, drop, length, leb, ltb, if◌then◌else◌, memcpy, String,
}
use foxdbg.Outcome.{Outcome, ok, fault, map_ok, ◌>>=◌}
use foxdbg.Json.{Json}

-- What the file takes from outside: `LWS_PRE` and the clocks, whose successive readings are indexed by
-- the call; `json::dump`, as bytes and as a string to put into another value; the float operations of the target on bit patterns, with the conversion to
-- `double`; the C string that a pointer leads to, or `none` where it leads to no C string, as `NULL`
-- does, or to one that is no UTF-8, which `dump` throws on; and `tjCompress2`, on pixels that it reads in
-- range, from the width, the height and whether the format is grey, RGB or RGBA to the compressed bytes,
-- or `none` for an error.
pub record Env : Type 0 where
  pub lws_pre : ℕ
  pub millis : ℕ → ℕ
  pub nanos : ℕ → ℕ
  pub dump : Json → List ℕ
  pub dump_text : Json → String
  pub add_f : ℕ → ℕ → ℕ
  pub sub_f : ℕ → ℕ → ℕ
  pub mul_f : ℕ → ℕ → ℕ
  pub cos_f : ℕ → ℕ
  pub sin_f : ℕ → ℕ
  pub widen : ℕ → ℕ
  pub c_string : ℕ → Option String
  pub compress : List ℕ → ℤ → ℤ → ℕ → Option (List ℕ)

-- One call of `lws_write`.
pub data Message : Type 0 where
  text_message : List ℕ → Message
  binary_message : List ℕ → Message

-- The static variables, and what has gone out: each message with the client it was written to. A
-- client is a pointer of libwebsockets.
pub record Server : Type 0 where
  pub raw_data_buffer : List ℕ
  pub encode_buffer : List ℕ
  pub info_data_buffer : List ℕ
  pub tx_buffer : List ℕ
  pub client : Option ℕ
  pub millis_calls : ℕ
  pub nanos_calls : ℕ
  pub sent : List (ℕ × Message)

abbrev pub raw_data_size : ℕ
raw_data_size = 10 * 1024 * 1024

abbrev pub encode_buffer_size : ℕ
encode_buffer_size = 10 * 1024 * 1024

abbrev pub info_data_size : ℕ
info_data_size = 1024 * 1024

abbrev pub tx_buffer_size : ℕ
tx_buffer_size = 1024 * 1024

-- A copy into `tx_buffer`.
unfoldable pub put_tx : ℕ → List ℕ → Server → Outcome Server
put_tx at bytes p = elim (memcpy p.tx_buffer at bytes) [
  | none ↦ fault
  | some tx ↦ ok (record p { tx_buffer = tx })
]

-- `lws_write (client, tx_buffer + LWS_PRE, size, …)`
abbrev written : Env → ℕ → Server → List ℕ
written env size p = take size (drop env.lws_pre p.tx_buffer)

abbrev log : ℕ → Message → Server → Server
log c m p = record p { sent = p.sent ++ ((c, m) ∷ []) }

-- `send_json`; the size of the buffer less `LWS_PRE` is a `size_t`.
send_text : Env → List ℕ → Option ℕ → Server → Outcome Server
send_text env bytes none p = ok p
send_text env bytes (some c) p =
    if ltb ((tx_buffer_size + 2 ^ 64 - env.lws_pre) % 2 ^ 64) (length bytes)
    then ok p
    else map_ok (λ q. log c (text_message (written env (length bytes) q)) q)
        (put_tx env.lws_pre bytes p)

unfoldable pub send_json : Env → Json → Server → Outcome Server
unfolding send_text
send_json env j p = send_text env (env.dump j) p.client p

-- The 13 bytes in front of the payload: the opcode, the subscription and the time.
unfoldable pub header : ℤ → ℕ → List ℕ
header subscription_id nsec =
    0x01
    ∷ low_byte subscription_id
    ∷ low_byte (int_shr subscription_id 8)
    ∷ low_byte (int_shr subscription_id 16)
    ∷ low_byte (int_shr subscription_id 24)
    ∷ nsec % 256
    ∷ nsec / 2 ^ 8 % 256
    ∷ nsec / 2 ^ 16 % 256
    ∷ nsec / 2 ^ 24 % 256
    ∷ nsec / 2 ^ 32 % 256
    ∷ nsec / 2 ^ 40 % 256
    ∷ nsec / 2 ^ 48 % 256
    ∷ nsec / 2 ^ 56 % 256
    ∷ []

abbrev tick_nanos : Server → Server
tick_nanos p = record p { nanos_calls = p.nanos_calls + 1 }

-- `send_buffer (tx_buffer + LWS_PRE, tx_buffer_size, data_size, subscription_id)`
send_binary : Env → ℕ → ℤ → Option ℕ → Server → Outcome Server
send_binary env data_size subscription_id none p = ok p
send_binary env data_size subscription_id (some c) p =
    if ltb tx_buffer_size (data_size + env.lws_pre)
    then ok p
    else map_ok (λ q. log c (binary_message (written env data_size q)) (tick_nanos q))
        (put_tx env.lws_pre (header subscription_id (env.nanos p.nanos_calls)) p)

unfoldable pub send_buffer : Env → ℕ → ℤ → Server → Outcome Server
unfolding send_binary
send_buffer env data_size subscription_id p = send_binary env data_size subscription_id p.client p

-- The end of the senders: the payload goes behind the place of the header, if the test of its size
-- passes, and is sent. `send_image`, `send_pointcloud`, `send_cubes`, `send_lines` and `send_pose`
-- admit a message that fills the buffer, the others do not.
unfoldable pub send_large : Env → List ℕ → ℤ → Server → Outcome Server
send_large env bytes subscription_id p =
    if leb (length bytes + env.lws_pre + 13) tx_buffer_size
    then put_tx (env.lws_pre + 13) bytes p >>= send_buffer env (length bytes + 13) subscription_id
    else ok p

unfoldable pub send_small : Env → List ℕ → ℤ → Server → Outcome Server
send_small env bytes subscription_id p =
    if ltb (length bytes + env.lws_pre + 13) tx_buffer_size
    then put_tx (env.lws_pre + 13) bytes p >>= send_buffer env (length bytes + 13) subscription_id
    else ok p
