-- ===== src/Tests/Sessions.antt =====
-- A server with one client and one channel: the senders and handlers of lib/foxdbg_protocol.cpp and the
-- callback of lib/foxdbg_thread.cpp.
use foxdbg.Base.{
  ◌⊎◌, ℕ, ◌+◌, ◌*◌, ◌≡◌, ◌++◌, refl, true, false, List, [], ◌∷◌, none, some, ℤ, pos, minus_one,
  to_int, not, ◌==◌, arith, length, tabulate, length-tabulate, if◌then◌else◌,
}
use text.Mathlib.Text.{◌==◌ as str_eq}
use foxdbg.Outcome.{fault, ok, ◌>>=◌}
use foxdbg.Buffer.{FoxdbgBuffer, fresh_buffer}
use foxdbg.Buffer.Alone.{write_buffer}
use foxdbg.Protocol.Senders.Frames.{frame_message, transmit-write}
use foxdbg.Json.{int, bool}
use foxdbg.Channel.{Channel, boolean}
use foxdbg.Registry.Invariant.{ChannelOk}
use foxdbg.Protocol.{Env, Server, raw_data_size, encode_buffer_size, info_data_size, tx_buffer_size}
use foxdbg.Protocol.Delivery.{EnvOk, ServerOk}
use foxdbg.Protocol.Transmit.{transmit_one, transmit_subscriptions}
use foxdbg.Protocol.Transmit.Turn.{Walk, OneFrame, stamped, wants, Stops, transmit_one-Walk}
use foxdbg.Protocol.Transmit.Laws.{Walked, Stopped, subscriptions, transmit-Walk}
use foxdbg.Protocol.Session.{connect, disconnect, server_info, advertise}
use foxdbg.Protocol.Session.Laws.{told, taken_over, connect-Told}
use foxdbg.Protocol.Receive.{JsonLib, receive, int_field}
use foxdbg.Protocol.Receive.Subscribe.{
  TextMessage, Subscribes, Unsubscribes, receive-subscribe, unsubscribe-subscribe,
}
use foxdbg.Thread.{established, closed, writeable, World, websocket_callback}
use foxdbg.Thread.Kept.{WorldOk}
use foxdbg.Thread.Laws.{Handled, websocket_callback-Handled, transmit-disconnect, stale_close}

abbrev pub env : Env
env = record {
  lws_pre = 16;
  millis = λ i. 1000 * i + 500;
  nanos = λ i. i;
  dump = λ j. b'{' ∷ b'}' ∷ [];
  dump_text = λ j. "{}";
  add_f = λ x y. x;
  sub_f = λ x y. x;
  mul_f = λ x y. x;
  cos_f = λ x. x;
  sin_f = λ x. x;
  widen = λ x. x;
  c_string = λ p. some "";
  compress = λ d w h f. some (255 ∷ 216 ∷ []);
}

some-length : {xs ys : List ℕ} → some xs ≡ some ys → length xs ≡ length ys
some-length e = cc

pub env-EnvOk : EnvOk env
env-EnvOk = record { room = omega arith; image_small = λ d w h f e. omega (arith, some-length e) }

abbrev zeroes : ℕ → List ℕ
zeroes n = tabulate n 0 (λ i. 0)

-- The client's name is 9.
abbrev pub server : Server
server = record {
  raw_data_buffer = zeroes raw_data_size;
  encode_buffer = zeroes encode_buffer_size;
  info_data_buffer = zeroes info_data_size;
  tx_buffer = zeroes tx_buffer_size;
  client = some 9;
  millis_calls = 0;
  nanos_calls = 0;
  sent = [];
}

pub server-ServerOk : ServerOk server
server-ServerOk = record {
  raw = length-tabulate raw_data_size 0 (λ i. 0);
  encode = length-tabulate encode_buffer_size 0 (λ i. 0);
  info = length-tabulate info_data_size 0 (λ i. 0);
  tx = length-tabulate tx_buffer_size 0 (λ i. 0);
}

abbrev pub lamp_with : ℤ → Channel
lamp_with id = record {
  topic_name = "/lamp";
  target_tx_time = 100;
  last_tx_time = 0;
  channel_id = pos 0;
  subscription_id = id;
  channel_type = boolean;
  data_buffer = record (fresh_buffer 1 (1 ∷ []) (1 ∷ [])) { front_buffer_size = 1 };
  info_buffer = none;
}

-- Subscribed as 3.
abbrev pub lamp : Channel
lamp = lamp_with (pos 3)

pub lamp-ChannelOk : ChannelOk lamp
lamp-ChannelOk = record { data_idle = ground arith; sized = refl; info = refl }

transmit-write_example :
    (b : FoxdbgBuffer) × (c' : Channel) × (q : Server) × (write_buffer 1 (0 ∷ []) lamp.data_buffer
      ≡ ok b)
    × (transmit_one env (record lamp { data_buffer = b }) server ≡ ok (c', q))
    × (q.sent ≡ frame_message env 9 lamp (0 ∷ []) server ∷ [])
transmit-write_example =
    transmit-write env 9 lamp (0 ∷ []) server lamp-ChannelOk server-ServerOk 1 (omega arith) refl tt
      refl refl refl (omega arith)

transmit_one-Walk_example :
    ((q : Server) × (transmit_one env lamp server ≡ ok (stamped env server lamp, q))
      × Walk (OneFrame (some 9) lamp) (wants env server lamp) server q)
    ⊎ (Stops env lamp server × (transmit_one env lamp server ≡ fault))
transmit_one-Walk_example =
    transmit_one-Walk env env-EnvOk lamp server lamp-ChannelOk server-ServerOk

transmit-Walk_example :
    Walked env (lamp ∷ []) server
    ⊎ (Stopped env (lamp ∷ []) server × (transmit_subscriptions env (lamp ∷ []) server ≡ fault))
transmit-Walk_example =
    transmit-Walk env env-EnvOk (lamp ∷ []) server (lamp-ChannelOk, tt) server-ServerOk

transmit-disconnect_example :
    (cs' : List Channel) × (q : Server) × (transmit_subscriptions env
        (disconnect 9 (lamp ∷ []) server).0
        (disconnect 9 (lamp ∷ []) server).1
      ≡ ok (cs', q))
    × (q.sent ≡ [])
transmit-disconnect_example = transmit-disconnect env 9 (lamp ∷ []) server

-- Client 9 is replaced by 10.
connect-Told_example :
    (q : Server) × (connect env 10 (lamp ∷ []) server ≡ ok (taken_over (some 9) (lamp ∷ []), q))
    × ServerOk q
    × (q.client ≡ some 10)
    × (q.millis_calls ≡ 0)
    × (q.sent
        ≡ told env 10 (env.dump server_info)
          ++ told env 10 (env.dump (advertise env (taken_over (some 9) (lamp ∷ [])))))
connect-Told_example = connect-Told env env-EnvOk 10 (lamp ∷ []) server server-ServerOk

-- A JSON library for two messages. `S` subscribes to channel 0 as 3 and is read as `bool true`; any
-- other text gives the subscription up and is read as `bool false`.
abbrev pub json_lib : JsonLib
json_lib = record {
  parse = λ d. elim d [ [] ↦ none | first ∷ more ↦ some (bool (first == b'S')) ];
  is_object = λ j. true;
  contains = λ j k. true;
  index = λ j k.
      if str_eq k "id"
      then some (int (pos 3))
      else if str_eq k "channelId"
      then some (int (pos 0))
      else some j;
  equals = λ j k. elim j [
    | none ↦ false
    | some v ↦ elim v [ bool b ↦ if str_eq k "subscribe" then b else not b | _ ↦ false ]
  ];
  iterate = λ j. int (pos 3) ∷ [];
  get_int = λ j. elim j [ int i ↦ some i | _ ↦ none ];
}

pub s-TextMessage : TextMessage json_lib b'S' [] (bool true)
s-TextMessage = record { not_binary = refl; parsed = refl; object = refl; has_op = refl }

pub s-Subscribes : Subscribes json_lib (bool true) (pos 3) (pos 0)
unfolding int_field
s-Subscribes = record {
  op_subscribe = refl;
  has_list = refl;
  entry = int (pos 3);
  others = [];
  entries = refl;
  has_id = refl;
  has_channel = refl;
}

u-TextMessage : TextMessage json_lib b'U' [] (bool false)
u-TextMessage = record { not_binary = refl; parsed = refl; object = refl; has_op = refl }

u-Unsubscribes : Unsubscribes json_lib (bool false) (pos 3)
u-Unsubscribes = record {
  op_other = refl;
  op_unsubscribe = refl;
  has_list = refl;
  entry = int (pos 3);
  others = [];
  entries = refl;
  is_id = refl;
}

abbrev dark : List Channel
dark = lamp_with minus_one ∷ []

receive-subscribe_example : receive json_lib (b'S' ∷ []) dark ≡ ok (lamp ∷ [])
unfolding to_int
receive-subscribe_example =
    receive-subscribe json_lib dark (refl, tt) (omega arith) 0 (omega arith) (pos 3) b'S' []
      (bool true) s-TextMessage s-Subscribes

unsubscribe-subscribe_example :
    (receive json_lib (b'S' ∷ []) dark >>= receive json_lib (b'U' ∷ [])) ≡ ok dark
unfolding to_int
unsubscribe-subscribe_example =
    unsubscribe-subscribe json_lib dark (refl, tt) (omega arith) 0 (omega arith) (pos 3) b'S' b'U'
      [] [] (bool true) (bool false) s-TextMessage s-Subscribes u-TextMessage u-Unsubscribes
      (refl, tt)

abbrev world : World
world = record { channels = lamp ∷ []; server = server; running = true; wanted = [] }

world-WorldOk : WorldOk world
unfolding to_int
world-WorldOk = record {
  numbered = (refl, tt);
  channels_ok = (lamp-ChannelOk, tt);
  server_ok = server-ServerOk;
}

websocket_callback-Handled_example :
    Handled env env-EnvOk json_lib
      (writeable 9)
      world
      (websocket_callback env json_lib (writeable 9) world)
websocket_callback-Handled_example =
    websocket_callback-Handled env env-EnvOk json_lib (writeable 9) world world-WorldOk

stale_close_example :
    (w1 w2 w3 : World) × (websocket_callback env json_lib (established 4) world ≡ ok (pos 0, w1))
    × (websocket_callback env json_lib (established 5) w1 ≡ ok (pos 0, w2))
    × (websocket_callback env json_lib (closed 4) w2 ≡ ok (pos 0, w3))
    × (w3.server.client ≡ none)
    × (subscriptions w3.channels ≡ 0)
stale_close_example = stale_close env env-EnvOk json_lib 4 5 world world-WorldOk refl
