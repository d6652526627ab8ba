-- ===== src/Protocol/Frame.antt =====
-- The binary frame that reaches the client: what `send_buffer` writes, and how it is read back.
use foxdbg.Base.{
  ℕ, ◌+◌, ◌*◌, ◌^◌, ◌≡◌, ◌≤◌, ◌<◌, refl, true, List, [], ◌∷◌, ◌++◌, Option, none, some, ℤ, pos,
  negsuc, to_int, IsInt, int_shr, low_byte, take, drop, length, leb, ltb, ◌==◌, if◌then◌else◌,
  memcpy, arith, memcpy-in_range, memcpy-memcpy,
}
use mathlib.Core.Path.{ap₂}
use foxdbg.Outcome.{ok, ◌>>=◌}
use foxdbg.Protocol.{
  Env, Server, binary_message, tx_buffer_size, put_tx, header, send_buffer, send_large, send_small,
}

-- A client's view of a binary message: the subscription, the time and the payload.
pub data Frame : Type 0 where
  frame : ℤ → ℕ → List ℕ → Frame

-- The number that bytes spell, low byte first.
pub little_endian : List ℕ → ℕ
little_endian [] = 0
little_endian (b ∷ bs) = b + 256 * little_endian bs

-- The Foxglove WebSocket protocol's message data: opcode 1, the id, the time, the payload.
pub parse_frame : List ℕ → Option Frame
unfolding little_endian
parse_frame (op ∷ a ∷ b ∷ c ∷ d ∷ t0 ∷ t1 ∷ t2 ∷ t3 ∷ t4 ∷ t5 ∷ t6 ∷ t7 ∷ payload) =
    if op == 1
    then some (
        frame (to_int (little_endian (a ∷ b ∷ c ∷ d ∷ [])))
          (little_endian (t0 ∷ t1 ∷ t2 ∷ t3 ∷ t4 ∷ t5 ∷ t6 ∷ t7 ∷ [])) payload)
    else none
parse_frame _ = none

id_round :
    (id : ℤ)
    → IsInt id
    → to_int (
        little_endian (
          low_byte id
          ∷ low_byte (int_shr id 8)
          ∷ low_byte (int_shr id 16)
          ∷ low_byte (int_shr id 24)
          ∷ []))
      ≡ id
unfolding to_int low_byte int_shr little_endian
id_round (pos n) h = ground arith
id_round (negsuc n) h = ground arith

-- The header names the subscription and the time, whatever follows it: for every `int` and every
-- `uint64_t`, a client that reads the header and a payload gets both back, and the payload.
pub parse_frame-header :
    (id : ℤ) (nsec : ℕ) (payload : List ℕ)
    → IsInt id
    → nsec < 2 ^ 64
    → parse_frame (header id nsec ++ payload) ≡ some (frame id nsec payload)
unfolding parse_frame header little_endian
parse_frame-header id nsec payload h n =
    ap₂ (λ i t. some (frame i t payload)) (id_round id h) (omega arith)

-- The transmit buffer has its size.
abbrev pub IsReady : Server → Type 0
IsReady p = length p.tx_buffer ≡ tx_buffer_size

-- What a sender leaves: one more message, from the bytes that it was given.
pub record Sent (env : Env) (c : ℕ) (id : ℤ) (bytes : List ℕ) (p q : Server) : Type 0 where
  pub message :
      q.sent ≡ p.sent ++ ((c, binary_message (header id (env.nanos p.nanos_calls) ++ bytes)) ∷ [])
  pub ready : IsReady q
  pub rest_same :
      q ≡ record p { tx_buffer = q.tx_buffer; nanos_calls = p.nanos_calls + 1; sent = q.sent }

pub put_tx-ok :
    (at : ℕ) (bytes : List ℕ) (p : Server) {out : List ℕ}
    → memcpy p.tx_buffer at bytes ≡ some out
    → put_tx at bytes p ≡ ok (record p { tx_buffer = out })
unfolding put_tx
put_tx-ok at bytes p e = rw (e, put_tx) refl

send_buffer-ok :
    (env : Env) (size : ℕ) (id : ℤ) (p : Server) {c : ℕ} {out : List ℕ}
    → p.client ≡ some c
    → size + env.lws_pre ≤ tx_buffer_size
    → memcpy p.tx_buffer env.lws_pre (header id (env.nanos p.nanos_calls)) ≡ some out
    → send_buffer env size id p
      ≡ ok (record p {
        tx_buffer = out;
        nanos_calls = p.nanos_calls + 1;
        sent = p.sent ++ ((c, binary_message (take size (drop env.lws_pre out))) ∷ []);
      })
unfolding send_buffer
send_buffer-ok env size id p ec fits em =
    ground (arith, put_tx-ok env.lws_pre (header id (env.nanos p.nanos_calls)) p em)

length-header : (id : ℤ) (nsec : ℕ) → length (header id nsec) ≡ 13
unfolding header
length-header id nsec = refl

module _ (env : Env) (id : ℤ) (bytes : List ℕ) (p : Server) (ready : IsReady p) where
  put_then_send :
      (c : ℕ)
      → p.client ≡ some c
      → length bytes + env.lws_pre + 13 ≤ tx_buffer_size
      → (q : Server) × ((put_tx (env.lws_pre + 13) bytes p
            >>= send_buffer env (length bytes + 13) id)
          ≡ ok q)
        × Sent env c id bytes p q
  put_then_send c e fits =
      let head = header id (env.nanos p.nanos_calls) in
      let lh = length-header id (env.nanos p.nanos_calls) in
      let (mid, e1, l1) = memcpy-in_range p.tx_buffer (env.lws_pre + 13) bytes (omega arith) in
      let (out, e2, l2) = memcpy-in_range mid env.lws_pre head (omega (arith, lh)) in
      let whole = memcpy-memcpy p.tx_buffer mid out env.lws_pre 13 head bytes lh e1 e2 in
      (
        record p {
          tx_buffer = out;
          nanos_calls = p.nanos_calls + 1;
          sent =
              p.sent
              ++ ((c, binary_message (take (length bytes + 13) (drop env.lws_pre out))) ∷ []);
        },
        rw (put_tx-ok (env.lws_pre + 13) bytes p e1) (
            send_buffer-ok env (length bytes + 13) id (record p { tx_buffer = mid }) e (omega arith)
              e2),
        record { message = rw whole refl; ready = omega (arith, l1, l2); rest_same = refl },
      )

  -- With a client, `tx_buffer` of its size and a payload that fits behind `LWS_PRE` and the header, the
  -- senders for images, point clouds, cubes, lines and poses write one binary message: the header with
  -- the subscription and the time, then the payload; `tx_buffer`, the log and the count of readings of
  -- the clock are all that changes.
  pub send_large-Sent :
      (c : ℕ)
      → p.client ≡ some c
      → length bytes + env.lws_pre + 13 ≤ tx_buffer_size
      → (q : Server) × (send_large env bytes id p ≡ ok q) × Sent env c id bytes p q
  unfolding send_large
  send_large-Sent c e fits =
      let test : leb (length bytes + env.lws_pre + 13) tx_buffer_size ≡ true = ground arith in
      rw test (put_then_send c e fits)

  -- With a client, `tx_buffer` of its size and a payload that leaves a byte of the buffer free
  -- behind `LWS_PRE` and the header, the senders for transforms, locations, floats, integers and
  -- booleans write one binary message: the header with the subscription and the time, then the
  -- payload; `tx_buffer`, the log and the count of readings of the clock are all that changes.
  pub send_small-Sent :
      (c : ℕ)
      → p.client ≡ some c
      → length bytes + env.lws_pre + 13 < tx_buffer_size
      → (q : Server) × (send_small env bytes id p ≡ ok q) × Sent env c id bytes p q
  unfolding send_small
  send_small-Sent c e fits =
      let test : ltb (length bytes + env.lws_pre + 13) tx_buffer_size ≡ true = ground arith in
      rw test (put_then_send c e (omega arith))
