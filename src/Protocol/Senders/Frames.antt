-- ===== src/Protocol/Senders/Frames.antt =====
-- From a write on a channel to the message that the client gets: the senders of
-- lib/foxdbg_protocol.cpp on what was published.
use foxdbg.Base.{
  ℕ, ◌+◌, ◌≡◌, ◌≢◌, ◌≤◌, ◌<◌, refl, sym, ◌∙◌, ap, Option, none, Option-cases, inl, inr, Bool, true,
  false, List, [], ◌∷◌, ◌++◌, some, String, is_nonneg, length, arith,
}
use foxdbg.Outcome.{Outcome, ok, map_ok, ◌>>=◌}
use foxdbg.Buffer.{FoxdbgBuffer}
use foxdbg.Buffer.Alone.{IsIdle, contents, read_buffer_lem, write_buffer}
use foxdbg.Buffer.Alone.Laws.{write_buffer-Written}
use foxdbg.Channel.{
  ChannelType, image, pointcloud, cubes, lines, pose, transform, location, float, integer, boolean,
  unknown, sizeof_vector4, sizeof_cube, sizeof_line, sizeof_pose, sizeof_transform, sizeof_location,
  sizeof_float, sizeof_int, sizeof_bool, Channel,
}
use foxdbg.Json.{Json, null}
use foxdbg.Protocol.{
  Env, Server, Message, binary_message, header, send_large, send_small, raw_data_size,
  tx_buffer_size,
}
use foxdbg.Protocol.Delivery.{ServerOk}
use foxdbg.Protocol.Frame.{Sent, send_large-Sent, send_small-Sent}
use foxdbg.Protocol.Layout.{pose_at, transform_at, location_at}
use foxdbg.Protocol.Messages.{
  pointcloud_json, cubes_json, lines_json, pose_json, transform_json, location_json, float_value,
  int_value, bool_value,
}
use foxdbg.Protocol.Senders.{
  server_thread, accept_many, accept_one, continue, send_with, send_pointcloud, send_cubes,
  send_lines, send_pose, send_transform, send_location, send_float, send_integer, send_bool,
  send_value,
}
use foxdbg.Protocol.Senders.Hazards.{transform_json-none}
use foxdbg.Protocol.Senders.Reads.{copy_raw-ok}
use foxdbg.Protocol.Transmit.{send_channel, is_due, transmit_one}
use foxdbg.Registry.Invariant.{ChannelOk}

-- Whether a frame of this size is one of the type; images go their own way.
abbrev pub takes : ChannelType → ℕ → Bool
takes pointcloud = accept_many sizeof_vector4
takes cubes = accept_many sizeof_cube
takes lines = accept_many sizeof_line
takes pose = accept_one sizeof_pose
takes transform = accept_one sizeof_transform
takes location = accept_one sizeof_location
takes float = accept_one sizeof_float
takes integer = accept_one sizeof_int
takes boolean = accept_one sizeof_bool
takes _ = λ n. false

abbrev value_or_null : Option Json → Json
value_or_null none = null
value_or_null (some value) = value

-- The two pointers of a transform lead to strings; other frames have none.
abbrev pub Readable : Env → ChannelType → List ℕ → Type 0
Readable env transform d =
    (env.c_string (transform_at d 0).parent_id ≢ none) × (env.c_string (transform_at d 0).id ≢ none)
Readable env _ d = Unit

Readable-some :
    (env : Env) (d : List ℕ)
    → Readable env transform d
    → (value : Json) × (transform_json env (transform_at d 0) ≡ some value)
Readable-some env d (parent, id) = elim (Option-cases (transform_json env (transform_at d 0))) [
  | inr some_value ↦ some_value
  | inl bad ↦ elim (transform_json-none env (transform_at d 0) bad) [
    | inl e ↦ absurd (parent e)
    | inr e ↦ absurd (id e)
  ]
]

-- The value that tells a frame of the type.
abbrev pub value_of : Env → String → ChannelType → List ℕ → Json
value_of env topic pointcloud d = pointcloud_json d
value_of env topic cubes d = cubes_json env topic d (length d)
value_of env topic lines d = lines_json env topic d (length d)
value_of env topic pose d = pose_json env topic (pose_at d 0)
value_of env topic transform d = value_or_null (transform_json env (transform_at d 0))
value_of env topic location d = location_json (location_at d 0)
value_of env topic float d = float_value env d
value_of env topic integer d = int_value d
value_of env topic boolean d = bool_value d
value_of env topic _ d = null

-- The message that tells the frame `d` of a channel to client `cl`, with the clock's next reading.
abbrev pub frame_message : Env → ℕ → Channel → List ℕ → Server → ℕ × Message
frame_message env cl c d p = (
  cl,
  binary_message (
      header c.subscription_id (env.nanos p.nanos_calls)
      ++ env.dump (value_of env c.topic_name c.channel_type d)),
)

-- Exactly that message has been sent, and no clock in milliseconds was read.
abbrev pub SentOne : ℕ × Message → Server → Server → Type 0
SentOne m p q = (q.sent ≡ p.sent ++ (m ∷ [])) × (q.millis_calls ≡ p.millis_calls)

module _ (env : Env) (cl : ℕ) (c : Channel) (d : List ℕ) (p : Server) (idle : IsIdle c.data_buffer)
    (shows : contents c.data_buffer ≡ d) (full : c.data_buffer.front_buffer_size ≡ length d)
    (v : ServerOk p) where
  -- A sender whose test passes, and whose rest sends the text.
  send_with-SentOne :
      (accept : ℕ → Bool) (rest : List ℕ → Server → Outcome Server) (text : List ℕ)
      → accept (length d) ≡ true
      → length d ≤ raw_data_size
      → ((q : Server)
          → ServerOk q
          → q.client ≡ p.client
          → (r : Server) × (rest d q ≡ ok r) × Sent env cl c.subscription_id text q r)
      → (q : Server) × (send_with accept rest c p ≡ ok (c, q))
        × SentOne
            (cl, binary_message (header c.subscription_id (env.nanos p.nanos_calls) ++ text))
            p
            q
  unfolding send_with continue
  send_with-SentOne accept rest text yes_it fits h =
      let (raw, e, l) = copy_raw-ok d p v fits in
      let p1 : Server = record p { raw_data_buffer = raw } in
      let (r, er, s) =
        h p1 (record { raw = l; encode = v.encode; info = v.info; tx = v.tx }) refl in
      let accepted : accept c.data_buffer.front_buffer_size ≡ true = ap accept full ∙ yes_it in
      (
        r,
        rw (read_buffer_lem server_thread c.data_buffer idle accept) (
            rw accepted (
              ap (λ x. map_ok (λ q. (c, q)) (continue rest p (some x))) shows
              ∙ ap (λ x. map_ok (λ q. (c, q)) (x >>= rest d)) e
              ∙ ap (map_ok (λ q. (c, q))) er)),
        (s.message, ap (λ (x : Server). x.millis_calls) s.rest_same),
      )

  pub typed-SentOne :
      (ty : ChannelType)
      → takes ty (length d) ≡ true
      → Readable env ty d
      → p.client ≡ some cl
      → length (env.dump (value_of env c.topic_name ty d)) + env.lws_pre + 13 < tx_buffer_size
      → (q : Server) × (send_channel env ty c p ≡ ok (c, q))
        × SentOne
            (
              cl,
              binary_message (
                  header c.subscription_id (env.nanos p.nanos_calls)
                  ++ env.dump (value_of env c.topic_name ty d)),
            )
            p
            q
  unfolding send_channel send_pointcloud send_cubes send_lines send_pose send_transform
      send_location send_float send_integer send_bool send_value
  typed-SentOne image h strings e fits = absurd (ground arith)
  typed-SentOne (unknown n) h strings e fits = absurd (ground arith)
  typed-SentOne pointcloud h strings e fits =
      send_with-SentOne (accept_many sizeof_vector4)
        (λ x. send_large env (env.dump (pointcloud_json x)) c.subscription_id)
        (env.dump (pointcloud_json d)) h (ground arith)
        (λ q w same.
          send_large-Sent env c.subscription_id (env.dump (pointcloud_json d)) q w.tx cl (same ∙ e)
            (omega arith))
  typed-SentOne cubes h strings e fits =
      send_with-SentOne (accept_many sizeof_cube)
        (λ x.
          send_large env (env.dump (cubes_json env c.topic_name x (length x))) c.subscription_id)
        (env.dump (cubes_json env c.topic_name d (length d))) h (ground arith)
        (λ q w same.
          send_large-Sent env c.subscription_id
            (env.dump (cubes_json env c.topic_name d (length d))) q w.tx cl (same ∙ e)
            (omega arith))
  typed-SentOne lines h strings e fits =
      send_with-SentOne (accept_many sizeof_line)
        (λ x.
          send_large env (env.dump (lines_json env c.topic_name x (length x))) c.subscription_id)
        (env.dump (lines_json env c.topic_name d (length d))) h (ground arith)
        (λ q w same.
          send_large-Sent env c.subscription_id
            (env.dump (lines_json env c.topic_name d (length d))) q w.tx cl (same ∙ e)
            (omega arith))
  typed-SentOne pose h strings e fits =
      send_with-SentOne (accept_one sizeof_pose)
        (λ x.
          send_large env (env.dump (pose_json env c.topic_name (pose_at x 0))) c.subscription_id)
        (env.dump (pose_json env c.topic_name (pose_at d 0))) h (ground arith)
        (λ q w same.
          send_large-Sent env c.subscription_id
            (env.dump (pose_json env c.topic_name (pose_at d 0))) q w.tx cl (same ∙ e)
            (omega arith))
  typed-SentOne transform h strings e fits =
      let (value, ev) = Readable-some env d strings in
      let same : value_of env c.topic_name transform d ≡ value = ap value_or_null ev in
      send_with-SentOne (accept_one sizeof_transform)
        (λ x. send_value env c.subscription_id (transform_json env (transform_at x 0)))
        (env.dump (value_of env c.topic_name transform d)) h (ground arith)
        (λ q w told_to.
          (let (r, er, s) =
              send_small-Sent env c.subscription_id
                (env.dump (value_of env c.topic_name transform d)) q w.tx cl (told_to ∙ e)
                (omega arith) in
            (
              r,
              ap (λ v. send_value env c.subscription_id v q) ev
                  ∙ ap (λ v. send_small env (env.dump v) c.subscription_id q) (sym same)
                  ∙ er,
              s,
            )))
  typed-SentOne location h strings e fits =
      send_with-SentOne (accept_one sizeof_location)
        (λ x. send_small env (env.dump (location_json (location_at x 0))) c.subscription_id)
        (env.dump (location_json (location_at d 0))) h (ground arith)
        (λ q w same.
          send_small-Sent env c.subscription_id (env.dump (location_json (location_at d 0))) q w.tx
            cl (same ∙ e) (omega arith))
  typed-SentOne float h strings e fits =
      send_with-SentOne (accept_one sizeof_float)
        (λ x. send_small env (env.dump (float_value env x)) c.subscription_id)
        (env.dump (float_value env d)) h (ground arith)
        (λ q w same.
          send_small-Sent env c.subscription_id (env.dump (float_value env d)) q w.tx cl (same ∙ e)
            (omega arith))
  typed-SentOne integer h strings e fits =
      send_with-SentOne (accept_one sizeof_int)
        (λ x. send_small env (env.dump (int_value x)) c.subscription_id) (env.dump (int_value d)) h
        (ground arith)
        (λ q w same.
          send_small-Sent env c.subscription_id (env.dump (int_value d)) q w.tx cl (same ∙ e)
            (omega arith))
  typed-SentOne boolean h strings e fits =
      send_with-SentOne (accept_one sizeof_bool)
        (λ x. send_small env (env.dump (bool_value x)) c.subscription_id) (env.dump (bool_value d))
        h (ground arith)
        (λ q w same.
          send_small-Sent env c.subscription_id (env.dump (bool_value d)) q w.tx cl (same ∙ e)
            (omega arith))

module _ (env : Env) (cl : ℕ) (c : Channel) (d : List ℕ) (p : Server) (v : ChannelOk c)
    (w : ServerOk p) where
  -- A frame that is written to a channel with well-formed buffers, of any type but images, of a
  -- size that the type admits and that fits the channel's buffer, in a transform with two
  -- pointers that lead to valid strings, reaches the client in the next round: if there is a
  -- client, the channel is subscribed and due, the static buffers have their sizes, and the
  -- message leaves a byte of the transmit buffer free, the write and the round return, and the
  -- round sends exactly one message, to that client, and it is the channel's subscription and the
  -- time in front of the text that tells the frame.
  pub transmit-write :
      (t : ℕ)
      → length d ≤ c.data_buffer.buffer_size
      → takes c.channel_type (length d) ≡ true
      → Readable env c.channel_type d
      → p.client ≡ some cl
      → is_nonneg c.subscription_id ≡ true
      → is_due (env.millis p.millis_calls) c ≡ true
      → length (env.dump (value_of env c.topic_name c.channel_type d)) + env.lws_pre + 13
        < tx_buffer_size
      → (b : FoxdbgBuffer) × (c' : Channel) × (q : Server) × (write_buffer t d c.data_buffer ≡ ok b)
        × (transmit_one env (record c { data_buffer = b }) p ≡ ok (c', q))
        × (q.sent ≡ p.sent ++ (frame_message env cl c d p ∷ []))
  unfolding transmit_one
  transmit-write t fits takes_it strings e sub due room =
      let (b, eb, written) = write_buffer-Written t c.data_buffer v.data_idle d fits in
      let p1 : Server = record p { millis_calls = p.millis_calls + 1 } in
      let (q, eq, s) =
        typed-SentOne env cl (record c { data_buffer = b }) d p1 written.idle written.shows
          written.size (record { raw = w.raw; encode = w.encode; info = w.info; tx = w.tx })
          c.channel_type takes_it strings e room in
      (
        b,
        record c { data_buffer = b; last_tx_time = env.millis q.millis_calls },
        record q { millis_calls = q.millis_calls + 1 },
        eb,
        rw (sub, due) (rw eq refl),
        s.0,
      )
