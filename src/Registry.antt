-- ===== src/Registry.antt =====
-- lib/foxdbg.c: the lists of channels, and the functions of the public interface on them.
pub mod Invariant
pub mod Topics
pub mod Writes
pub mod Leaks
pub mod Receiving
pub mod Infos
pub mod Keeps
pub mod Clean
pub mod Links
use foxdbg.Base.{
  ℕ, zero, suc, ◌+◌, ◌-◌, ◌/◌, ◌%◌, ◌^◌, Bool, true, false, ◌&&◌, List, [], ◌∷◌, Option, none, some,
  ℤ, pos, negsuc, minus_one, eq_int, to_int, String, if◌then◌else◌, ◌==◌,
}
use text.Mathlib.Text.{◌==◌ as str_eq}
use foxdbg.Outcome.{Outcome, ok, fault, map_ok}
use foxdbg.Os.{Os, malloc}
use foxdbg.Buffer.{FoxdbgBuffer, alloc}
use foxdbg.Buffer.Alone.{write_buffer, write_info_buffer}
use foxdbg.Channel.{
  ChannelType, image, pointcloud, cubes, lines, pose, transform, location, float, integer, boolean,
  unknown, Channel, large_buffer_size, sizeof_pose, sizeof_transform, sizeof_location,
  sizeof_image_info, sizeof_float, sizeof_int, sizeof_bool, sizeof_channel,
}

-- The static variables of foxdbg.c, and the C library below them.
pub record Foxdbg : Type 0 where
  pub channels : List Channel
  pub channel_count : ℕ
  pub rx_channels : List Channel
  pub rx_channel_count : ℕ
  pub os : Os

-- `foxdbg_init`, up to the start of the server thread
unfoldable pub init : Os → Foxdbg
init os = record {
  channels = [];
  channel_count = 0;
  rx_channels = [];
  rx_channel_count = 0;
  os = os;
}

-- The `switch` of `foxdbg_add_channel`: `payload_size`, or `none` where it returns -1.
abbrev pub payload_size : ChannelType → Option ℕ
payload_size image = some large_buffer_size
payload_size pointcloud = some large_buffer_size
payload_size cubes = some large_buffer_size
payload_size lines = some large_buffer_size
payload_size pose = some sizeof_pose
payload_size transform = some sizeof_transform
payload_size location = some sizeof_location
payload_size float = some sizeof_float
payload_size integer = some sizeof_int
payload_size boolean = some sizeof_bool
payload_size (unknown _) = none

-- `info_size` of the same `switch`
abbrev pub info_size : ChannelType → ℕ
info_size image = sizeof_image_info
info_size _ = 0

-- The `switch` of `foxdbg_add_rx_channel`.
abbrev pub rx_payload_size : ChannelType → Option ℕ
rx_payload_size float = some sizeof_float
rx_payload_size integer = some sizeof_int
rx_payload_size boolean = some sizeof_bool
rx_payload_size _ = none

-- `(uint64_t)(1000 / target_hz)`: `int` division rounds towards zero, and by 0 it is undefined.
abbrev pub tx_time : ℤ → Option ℕ
tx_time (pos zero) = none
tx_time (pos (suc n)) = some (1000 / suc n)
tx_time (negsuc n) = some ((2 ^ 64 - 1000 / suc n) % 2 ^ 64)

-- The walk to the last channel, and the write of its `next` (or of the head of the list).
unfoldable pub link : List Channel → Channel → List Channel
link [] c = c ∷ []
link (x ∷ []) c = x ∷ c ∷ []
link (x ∷ y ∷ rest) c = x ∷ link (y ∷ rest) c

-- `foxdbg_buffer_alloc(info_size, &info_buffer)` if there is an info buffer to make.
request_info : ℕ → Os → Option (Option FoxdbgBuffer) × Os
request_info size os =
    if size == 0
    then (some none, os)
    else (let (b, os1) = alloc size os in (elim b [ none ↦ none | some i ↦ some (some i) ], os1))

add_node :
    String
    → ChannelType
    → Option ℕ
    → FoxdbgBuffer
    → Option FoxdbgBuffer
    → Option (List ℕ)
    → Os
    → Foxdbg
    → Outcome (ℤ × Foxdbg)
add_node topic ty time data_buf info none os s = ok (minus_one, record s { os = os })
add_node topic ty none data_buf info (some _) os s = fault
add_node topic ty (some time) data_buf info (some _) os s =
    let c : Channel = record {
      topic_name = topic;
      target_tx_time = time;
      last_tx_time = 0;
      channel_id = to_int s.channel_count;
      subscription_id = minus_one;
      channel_type = ty;
      data_buffer = data_buf;
      info_buffer = info;
    } in
    ok (
      c.channel_id,
      record s {
        channels = link s.channels c;
        channel_count = (s.channel_count + 1) % 2 ^ 64;
        os = os;
      },
    )

add_info :
    String
    → ChannelType
    → Option ℕ
    → FoxdbgBuffer
    → Option (Option FoxdbgBuffer)
    → Os
    → Foxdbg
    → Outcome (ℤ × Foxdbg)
add_info topic ty time data_buf none os s = ok (minus_one, record s { os = os })
add_info topic ty time data_buf (some info) os s =
    let (node, os1) = malloc sizeof_channel os in add_node topic ty time data_buf info node os1 s

add_data :
    String → ChannelType → Option ℕ → Option FoxdbgBuffer → Os → Foxdbg → Outcome (ℤ × Foxdbg)
add_data topic ty time none os s = ok (minus_one, record s { os = os })
add_data topic ty time (some data_buf) os s =
    let (info, os1) = request_info (info_size ty) os in add_info topic ty time data_buf info os1 s

add_sized : String → ChannelType → Option ℕ → Option ℕ → Foxdbg → Outcome (ℤ × Foxdbg)
add_sized topic ty time none s = ok (minus_one, s)
add_sized topic ty time (some size) s =
    let (data_buf, os1) = alloc size s.os in add_data topic ty time data_buf os1 s

-- `foxdbg_add_channel`
unfoldable pub add_channel : String → ChannelType → ℤ → Foxdbg → Outcome (ℤ × Foxdbg)
unfolding add_sized add_data add_info add_node request_info
add_channel topic ty target_hz s = add_sized topic ty (tx_time target_hz) (payload_size ty) s

-- `foxdbg_get_channel` and `foxdbg_get_rx_channel`, on the list that each walks
unfoldable pub find_topic : String → List Channel → ℤ
find_topic topic [] = minus_one
find_topic topic (c ∷ rest) =
    if str_eq c.topic_name topic then c.channel_id else find_topic topic rest

pub get_channel : String → Foxdbg → ℤ
get_channel topic s = find_topic topic s.channels

pub get_rx_channel : String → Foxdbg → ℤ
get_rx_channel topic s = find_topic topic s.rx_channels

rx_node : String → ChannelType → FoxdbgBuffer → Option (List ℕ) → Os → Foxdbg → ℤ × Foxdbg
rx_node topic ty data_buf none os s = (minus_one, record s { os = os })
rx_node topic ty data_buf (some _) os s =
    let c : Channel = record {
      topic_name = topic;
      target_tx_time = 0;
      last_tx_time = 0;
      channel_id = to_int s.rx_channel_count;
      subscription_id = minus_one;
      channel_type = ty;
      data_buffer = data_buf;
      info_buffer = none;
    } in
    (
      c.channel_id,
      record s {
        rx_channels = link s.rx_channels c;
        rx_channel_count = (s.rx_channel_count + 1) % 2 ^ 64;
        os = os;
      },
    )

rx_data : String → ChannelType → Option FoxdbgBuffer → Os → Foxdbg → ℤ × Foxdbg
rx_data topic ty none os s = (minus_one, record s { os = os })
rx_data topic ty (some data_buf) os s =
    let (node, os1) = malloc sizeof_channel os in rx_node topic ty data_buf node os1 s

rx_sized : String → ChannelType → Option ℕ → Foxdbg → ℤ × Foxdbg
rx_sized topic ty none s = (minus_one, s)
rx_sized topic ty (some size) s =
    let (data_buf, os1) = alloc size s.os in rx_data topic ty data_buf os1 s

-- `foxdbg_add_rx_channel`
unfoldable pub add_rx_channel : String → ChannelType → Foxdbg → ℤ × Foxdbg
unfolding rx_sized rx_data rx_node
add_rx_channel topic ty s = rx_sized topic ty (rx_payload_size ty) s

-- The walk of `foxdbg_write_channel`, by thread `t`, to the first channel with the id.
unfoldable pub write_to : ℕ → ℤ → List ℕ → List Channel → Outcome (List Channel)
write_to t id d [] = ok []
write_to t id d (c ∷ rest) =
    if eq_int c.channel_id id
    then map_ok (λ b. record c { data_buffer = b } ∷ rest) (write_buffer t d c.data_buffer)
    else map_ok (λ cs. c ∷ cs) (write_to t id d rest)

unfoldable pub write_channel : ℕ → ℤ → List ℕ → Foxdbg → Outcome Foxdbg
unfolding write_to
write_channel t id d s = map_ok (λ cs. record s { channels = cs }) (write_to t id d s.channels)

-- The body of the walk of `foxdbg_write_channel_info` at a channel with the id; one that has no info
-- buffer is passed over.
info_at :
    ℕ
    → List ℕ
    → Channel
    → List Channel
    → Option FoxdbgBuffer
    → Outcome (List Channel)
    → Outcome (List Channel)
info_at t d c rest none later = later
info_at t d c rest (some info) later =
    map_ok (λ b. record c { info_buffer = some b } ∷ rest) (write_info_buffer t d info)

unfoldable pub write_info_to : ℕ → ℤ → List ℕ → List Channel → Outcome (List Channel)
unfolding info_at
write_info_to t id d [] = ok []
write_info_to t id d (c ∷ rest) =
    let later = map_ok (λ cs. c ∷ cs) (write_info_to t id d rest) in
    if eq_int c.channel_id id then info_at t d c rest c.info_buffer later else later

unfoldable pub write_channel_info : ℕ → ℤ → List ℕ → Foxdbg → Outcome Foxdbg
unfolding write_info_to
write_channel_info t id d s =
    map_ok (λ cs. record s { channels = cs }) (write_info_to t id d s.channels)
