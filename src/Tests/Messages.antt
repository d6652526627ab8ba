-- ===== src/Tests/Messages.antt =====
-- The messages of lib/foxdbg_protocol.cpp at concrete inputs.
use foxdbg.Base.{
  ℕ, ◌+◌, ◌*◌, ◌≡◌, ◌⊎◌, true, List, [], ◌∷◌, ◌++◌, none, some, pos, negsuc, minus_one, arith,
  length, tabulate, length-tabulate, drop, ltb, if◌then◌else◌,
}
use foxdbg.Outcome.{ok, fault}
use foxdbg.Buffer.{fresh_buffer}
use foxdbg.Json.{null, int}
use foxdbg.Channel.{Channel, boolean}
use foxdbg.Protocol.{Env, Server, header, tx_buffer_size}
use foxdbg.Protocol.Frame.{frame, parse_frame, parse_frame-header}
use foxdbg.Protocol.Image.{image_text, encode_image_byte_array, show_bytes}
use foxdbg.Protocol.Image.Bounds.{encode-in_bounds}
use foxdbg.Base.{map}
use foxdbg.Protocol.Image.{decimal}
use foxdbg.Protocol.Image.Decimal.{comma_separated, show_bytes-eq-decimal}
use foxdbg.Protocol.Receive.{JsonLib, receive}
use foxdbg.Protocol.Receive.Laws.{AtMostOne, receive-AtMostOne}

parse_frame-header_example :
    parse_frame (header (negsuc 4) 1000000007 ++ (5 ∷ []))
    ≡ some (frame (negsuc 4) 1000000007 (5 ∷ []))
parse_frame-header_example =
    parse_frame-header (negsuc 4) 1000000007 (5 ∷ []) (omega arith) (omega arith)

abbrev env : Env
env = record {
  lws_pre = 16;
  millis = λ i. 1000 * i;
  nanos = λ i. i;
  dump = λ j. b'{' ∷ b'}' ∷ [];
  dump_text = λ j. "{}";
  add_f = λ x y. x;
  sub_f = λ x y. x;
  mul_f = λ x y. x;
  cos_f = λ x. x;
  sin_f = λ x. x;
  widen = λ x. x;
  c_string = λ p. some "";
  compress = λ d w h f. none;
}

abbrev zeroes : List ℕ
zeroes = tabulate tx_buffer_size 0 (λ i. 0)

-- One client, whose name is 9; the buffers for images are left out.
abbrev server : Server
server = record {
  raw_data_buffer = [];
  encode_buffer = [];
  info_data_buffer = [];
  tx_buffer = zeroes;
  client = some 9;
  millis_calls = 0;
  nanos_calls = 0;
  sent = [];
}

server_ready : length zeroes ≡ tx_buffer_size
server_ready = length-tabulate tx_buffer_size 0 (λ i. 0)

abbrev room : List ℕ
room = tabulate 150 0 (λ i. 0)

abbrev jpeg : List ℕ
jpeg = 255 ∷ 7 ∷ 80 ∷ []

abbrev jpeg_text : List ℕ
jpeg_text = image_text (pos 2) (pos 1) (pos 3) jpeg

encode-in_bounds_example : encode_image_byte_array room (pos 2) (pos 1) (pos 3) jpeg ≡ (
    if ltb (length room) (110 + 4 * 3)
    then ok (0, room)
    else ok
        (length jpeg_text, (jpeg_text ++ (0 ∷ [])) ++ drop (length (jpeg_text ++ (0 ∷ []))) room))
encode-in_bounds_example = encode-in_bounds room jpeg (pos 2) (pos 1) (pos 3) (omega arith)

show_bytes-eq-decimal_example : show_bytes 0 3 jpeg ≡ comma_separated (map (decimal 10) jpeg)
show_bytes-eq-decimal_example =
    show_bytes-eq-decimal jpeg (omega arith, (omega arith, (omega arith, tt)))

-- A JSON library whose parser knows a single text, which is an object with no member.
abbrev json_lib : JsonLib
json_lib = record {
  parse = λ d. some null;
  is_object = λ j. true;
  contains = λ j k. true;
  index = λ j k. some j;
  equals = λ j k. true;
  iterate = λ j. int (pos 0) ∷ int (pos 1) ∷ [];
  get_int = λ j. elim j [ int i ↦ some i | _ ↦ some (pos 0) ];
}

abbrev lamp : Channel
lamp = record {
  topic_name = "/lamp";
  target_tx_time = 100;
  last_tx_time = 0;
  channel_id = pos 0;
  subscription_id = minus_one;
  channel_type = boolean;
  data_buffer = fresh_buffer 1 (0 ∷ []) (0 ∷ []);
  info_buffer = none;
}

receive-AtMostOne_example :
    ((cs' : List Channel) × (receive json_lib (b'{' ∷ b'}' ∷ []) (lamp ∷ []) ≡ ok cs')
      × AtMostOne (lamp ∷ []) cs')
    ⊎ ((receive json_lib (b'{' ∷ b'}' ∷ []) (lamp ∷ []) ≡ fault) × (some null ≡ none))
receive-AtMostOne_example = receive-AtMostOne json_lib (b'{' ∷ b'}' ∷ []) (lamp ∷ [])
