-- ===== src/Channel.antt =====
-- lib/foxdbg_channel.h: the kinds of channel, the sizes of their payloads on a 64-bit target, and
-- what is kept of each channel.
use foxdbg.Base.{ℕ, ◌*◌, ℤ, Option, String}
use foxdbg.Buffer.{FoxdbgBuffer}

-- `foxdbg_channel_type_t`. A C enum may hold a number that names none of its constants.
pub data ChannelType : Type 0 where
  image pointcloud cubes lines pose transform location float integer boolean : ChannelType
  unknown : ℕ → ChannelType

abbrev pub large_buffer_size : ℕ
large_buffer_size = 10 * 1024 * 1024

-- `sizeof` of the structs that a client writes
abbrev pub sizeof_vector4 : ℕ
sizeof_vector4 = 16

abbrev pub sizeof_pose : ℕ
sizeof_pose = 40

abbrev pub sizeof_cube : ℕ
sizeof_cube = 52

abbrev pub sizeof_transform : ℕ
sizeof_transform = 40

abbrev pub sizeof_line : ℕ
sizeof_line = 44

abbrev pub sizeof_location : ℕ
sizeof_location = 32

abbrev pub sizeof_image_info : ℕ
sizeof_image_info = 12

abbrev pub sizeof_float : ℕ
sizeof_float = 4

abbrev pub sizeof_int : ℕ
sizeof_int = 4

abbrev pub sizeof_bool : ℕ
sizeof_bool = 1

-- `sizeof(foxdbg_channel_t)`
abbrev pub sizeof_channel : ℕ
sizeof_channel = 64

-- `foxdbg_channel_t`; `next` is the order of the list that holds it. The times are `uint64_t`, the
-- ids are `int`.
pub record Channel : Type 0 where
  pub topic_name : String
  pub target_tx_time : ℕ
  pub last_tx_time : ℕ
  pub channel_id : ℤ
  pub subscription_id : ℤ
  pub channel_type : ChannelType
  pub data_buffer : FoxdbgBuffer
  pub info_buffer : Option FoxdbgBuffer
