-- ===== src/Protocol/Layout.antt =====
-- The structs of lib/foxdbg_channel.h in the bytes that a client has written, on a little-endian
-- 64-bit target, and the orientation that lib/foxdbg_protocol.cpp computes from three angles. A float
-- is its bit pattern.
use foxdbg.Base.{ℕ, ◌+◌, ◌*◌, List, Option, none, some, ℤ, to_int, get_elem?}
use foxdbg.Protocol.{Env}

byte_or_zero : Option ℕ → ℕ
byte_or_zero none = 0
byte_or_zero (some b) = b

unfoldable pub byte_at : List ℕ → ℕ → ℕ
unfolding byte_or_zero
byte_at d at = byte_or_zero (get_elem? d at)

unfoldable pub word32 : List ℕ → ℕ → ℕ
unfolding byte_at
word32 d at =
    byte_at d at
    + 256 * (byte_at d (at + 1) + 256 * (byte_at d (at + 2) + 256 * byte_at d (at + 3)))

unfoldable pub word64 : List ℕ → ℕ → ℕ
unfolding word32
word64 d at = word32 d at + 4294967296 * word32 d (at + 4)

unfoldable pub int32 : List ℕ → ℕ → ℤ
unfolding word32 to_int
int32 d at = to_int (word32 d at)

-- `foxdbg_vector3_t`
pub record Vector3 : Type 0 where
  pub x : ℕ
  pub y : ℕ
  pub z : ℕ

-- `foxdbg_color_t`
pub record Color : Type 0 where
  pub r : ℕ
  pub g : ℕ
  pub b : ℕ
  pub a : ℕ

abbrev pub vector3_at : List ℕ → ℕ → Vector3
vector3_at d at = record { x = word32 d at; y = word32 d (at + 4); z = word32 d (at + 8) }

abbrev pub color_at : List ℕ → ℕ → Color
color_at d at = record {
  r = word32 d at;
  g = word32 d (at + 4);
  b = word32 d (at + 8);
  a = word32 d (at + 12);
}

-- `foxdbg_pose_t`
pub record Pose : Type 0 where
  pub position : Vector3
  pub orientation : Vector3
  pub color : Color

abbrev pub pose_at : List ℕ → ℕ → Pose
pose_at d at = record {
  position = vector3_at d at;
  orientation = vector3_at d (at + 12);
  color = color_at d (at + 24);
}

-- `foxdbg_cube_t`
pub record Cube : Type 0 where
  pub position : Vector3
  pub size : Vector3
  pub orientation : Vector3
  pub color : Color

abbrev pub cube_at : List ℕ → ℕ → Cube
cube_at d at = record {
  position = vector3_at d at;
  size = vector3_at d (at + 12);
  orientation = vector3_at d (at + 24);
  color = color_at d (at + 36);
}

-- `foxdbg_transform_t`; the ids are pointers.
pub record Transform : Type 0 where
  pub id : ℕ
  pub parent_id : ℕ
  pub position : Vector3
  pub orientation : Vector3

abbrev pub transform_at : List ℕ → ℕ → Transform
transform_at d at = record {
  id = word64 d at;
  parent_id = word64 d (at + 8);
  position = vector3_at d (at + 16);
  orientation = vector3_at d (at + 28);
}

-- `foxdbg_line_t`; `end` is the source's name of the second point.
pub record Line : Type 0 where
  pub start : Vector3
  pub end_point : Vector3
  pub color : Color
  pub thickness : ℕ

abbrev pub line_at : List ℕ → ℕ → Line
line_at d at = record {
  start = vector3_at d at;
  end_point = vector3_at d (at + 12);
  color = color_at d (at + 24);
  thickness = word32 d (at + 40);
}

-- `foxdbg_location_t`
pub record Location : Type 0 where
  pub timestamp_sec : ℕ
  pub timestamp_nsec : ℕ
  pub latitude : ℕ
  pub longitude : ℕ
  pub altitude : ℕ

abbrev pub location_at : List ℕ → ℕ → Location
location_at d at = record {
  timestamp_sec = word32 d at;
  timestamp_nsec = word32 d (at + 4);
  latitude = word64 d (at + 8);
  longitude = word64 d (at + 16);
  altitude = word64 d (at + 24);
}

-- `foxdbg_image_info_t`
pub record ImageInfo : Type 0 where
  pub width : ℤ
  pub height : ℤ
  pub channels : ℤ

abbrev pub image_info_at : List ℕ → ℕ → ImageInfo
image_info_at d at = record {
  width = int32 d at;
  height = int32 d (at + 4);
  channels = int32 d (at + 8);
}

pub record Quaternion : Type 0 where
  pub qx : ℕ
  pub qy : ℕ
  pub qz : ℕ
  pub qw : ℕ

-- The bits of `0.5f` and of `(float)M_PI/2.0f`.
abbrev pub half_f : ℕ
half_f = 0x3F000000

abbrev pub half_pi_f : ℕ
half_pi_f = 0x3FC90FDB

-- The sums of products that the senders of cubes, poses and transforms share.
pub to_quaternion : Env → (pitch roll yaw : ℕ) → Quaternion
to_quaternion env pitch roll yaw =
    let mul = env.mul_f in
    let cy = env.cos_f (mul yaw half_f) in
    let sy = env.sin_f (mul yaw half_f) in
    let cp = env.cos_f (mul pitch half_f) in
    let sp = env.sin_f (mul pitch half_f) in
    let cr = env.cos_f (mul roll half_f) in
    let sr = env.sin_f (mul roll half_f) in
    record {
      qx = env.sub_f (mul (mul sr cp) cy) (mul (mul cr sp) sy);
      qy = env.add_f (mul (mul cr sp) cy) (mul (mul sr cp) sy);
      qz = env.sub_f (mul (mul cr cp) sy) (mul (mul sr sp) cy);
      qw = env.add_f (mul (mul cr cp) cy) (mul (mul sr sp) sy);
    }
