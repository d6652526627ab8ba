-- ===== src/Protocol/Messages.antt =====
-- The JSON values that the senders of lib/foxdbg_protocol.cpp build from a channel's bytes.
use foxdbg.Base.{
  ℕ, zero, suc, ◌+◌, ◌*◌, ◌/◌, false, List, Option, none, some, [], ◌∷◌, String, pos, map, ◌==◌,
  not,
}
use foxdbg.Json.{Json, bool, int, real, text, arr, obj}
use foxdbg.Channel.{sizeof_cube, sizeof_line, sizeof_vector4}
use foxdbg.Protocol.{Env}
use foxdbg.Protocol.Layout.{
  Vector3, Color, Cube, Line, Pose, Transform, Location, Quaternion, cube_at, line_at, byte_at,
  word32, int32, to_quaternion, half_pi_f,
}

-- A float becomes a `double`.
abbrev float_json : Env → ℕ → Json
float_json env f = real (env.widen f)

abbrev number : ℕ → Json
number n = int (pos n)

-- The bits of the doubles 0.0, 0.6 and 1.0.
abbrev zero_d : ℕ
zero_d = 0

abbrev point_six_d : ℕ
point_six_d = 0x3FE3333333333333

abbrev one_d : ℕ
one_d = 0x3FF0000000000000

vector3_json : Env → Vector3 → Json
vector3_json env v =
    obj (("x", float_json env v.x) ∷ ("y", float_json env v.y) ∷ ("z", float_json env v.z) ∷ [])

quaternion_json : Env → Quaternion → Json
quaternion_json env q = obj (
    ("x", float_json env q.qx)
    ∷ ("y", float_json env q.qy)
    ∷ ("z", float_json env q.qz)
    ∷ ("w", float_json env q.qw)
    ∷ [])

color_json : Env → Color → Json
color_json env c = obj (
    ("r", float_json env c.r)
    ∷ ("g", float_json env c.g)
    ∷ ("b", float_json env c.b)
    ∷ ("a", float_json env c.a)
    ∷ [])

no_time : Json
no_time = obj (("sec", number 0) ∷ ("nsec", number 0) ∷ [])

field : String → ℕ → Json
field name offset = obj (("name", text name) ∷ ("offset", number offset) ∷ ("type", number 7) ∷ [])

-- `send_pointcloud`: the bytes as an array of numbers
pub pointcloud_json : List ℕ → Json
unfolding no_time field
pointcloud_json d = obj (
    ("timestamp", no_time)
    ∷ ("frame_id", text "world")
    ∷ (
      "pose",
      obj (
          ("position", obj (("x", real zero_d) ∷ ("y", real zero_d) ∷ ("z", real point_six_d) ∷ []))
          ∷ (
            "orientation",
            obj (
                ("x", real zero_d)
                ∷ ("y", real zero_d)
                ∷ ("z", real zero_d)
                ∷ ("w", real one_d)
                ∷ []),
          )
          ∷ []),
    )
    ∷ ("point_stride", number sizeof_vector4)
    ∷ ("fields", arr (field "x" 0 ∷ field "y" 4 ∷ field "z" 8 ∷ field "intensity" 12 ∷ []))
    ∷ ("data", arr (map number d))
    ∷ [])

-- The structs of an array, by its length: element `i` starts at `i * size`.
pub elements {ℓ} : {A : Type ℓ} → (List ℕ → ℕ → A) → ℕ → List ℕ → ℕ → ℕ → List A
elements read size d i zero = []
elements read size d i (suc n) = read d (i * size) ∷ elements read size d (i + 1) n

-- The scene entity that holds a channel's cubes, lines or arrows, under `kind`.
scene : String → String → List Json → Json
unfolding no_time
scene topic kind objects = obj (
    (
      "entities",
      arr (
          obj (
            ("frame_id", text "world")
            ∷ ("id", text topic)
            ∷ ("timestamp", no_time)
            ∷ (kind, arr objects)
            ∷ [])
          ∷ []),
    )
    ∷ [])

-- An orientation with the yaw turned by 90 degrees, as cubes and poses have it.
turned : Env → Vector3 → Quaternion
turned env o = to_quaternion env o.x o.y (env.add_f o.z half_pi_f)

pub cube_json : Env → Cube → Json
unfolding vector3_json quaternion_json color_json turned
cube_json env c = obj (
    (
      "pose",
      obj (
          ("position", vector3_json env c.position)
          ∷ ("orientation", quaternion_json env (turned env c.orientation))
          ∷ []),
    )
    ∷ ("size", vector3_json env c.size)
    ∷ ("color", color_json env c.color)
    ∷ [])

-- `send_cubes`
pub cubes_json : Env → String → List ℕ → ℕ → Json
unfolding scene cube_json elements
cubes_json env topic d data_size =
    scene topic "cubes"
      (map (cube_json env) (elements cube_at sizeof_cube d 0 (data_size / sizeof_cube)))

pub line_json : Env → Line → Json
unfolding vector3_json color_json
line_json env l =
    let o = float_json env 0 in
    obj (
      ("type", number 2)
      ∷ (
        "pose",
        obj (
            ("position", obj (("x", o) ∷ ("y", o) ∷ ("z", o) ∷ []))
            ∷ (
              "orientation",
              obj (("x", o) ∷ ("y", o) ∷ ("z", o) ∷ ("w", float_json env 0x3F800000) ∷ []),
            )
            ∷ []),
      )
      ∷ ("thickness", float_json env l.thickness)
      ∷ ("scale_invariant", bool false)
      ∷ ("points", arr (vector3_json env l.start ∷ vector3_json env l.end_point ∷ []))
      ∷ ("color", color_json env l.color)
      ∷ [])

-- `send_lines`
pub lines_json : Env → String → List ℕ → ℕ → Json
unfolding scene line_json elements
lines_json env topic d data_size =
    scene topic "lines"
      (map (line_json env) (elements line_at sizeof_line d 0 (data_size / sizeof_line)))

-- `send_pose`: 0.5f, 0.05f, 0.15f and 0.1f are the sizes of the arrow.
pub pose_json : Env → String → Pose → Json
unfolding scene vector3_json quaternion_json color_json turned
pose_json env topic p = scene topic "arrows" (
    obj (
      (
        "pose",
        obj (
            ("position", vector3_json env p.position)
            ∷ ("orientation", quaternion_json env (turned env p.orientation))
            ∷ []),
      )
      ∷ ("shaft_length", float_json env 0x3F000000)
      ∷ ("shaft_diameter", float_json env 0x3D4CCCCD)
      ∷ ("head_length", float_json env 0x3E19999A)
      ∷ ("head_diameter", float_json env 0x3DCCCCCD)
      ∷ ("color", color_json env p.color)
      ∷ [])
    ∷ [])

-- `send_transform`, from the strings of the two frames on: `none` where a pointer leads to none.
unfoldable pub frames_json : Env → Transform → Option String → Option String → Option Json
unfolding no_time vector3_json quaternion_json
frames_json env t none child = none
frames_json env t (some parent) none = none
frames_json env t (some parent) (some child) = some (
    obj (
      ("timestamp", no_time)
      ∷ ("parent_frame_id", text parent)
      ∷ ("child_frame_id", text child)
      ∷ ("translation", vector3_json env t.position)
      ∷ (
        "rotation",
        quaternion_json env (to_quaternion env t.orientation.x t.orientation.y t.orientation.z),
      )
      ∷ []))

unfoldable pub transform_json : Env → Transform → Option Json
unfolding frames_json
transform_json env t = frames_json env t (env.c_string t.parent_id) (env.c_string t.id)

-- `send_location`
pub location_json : Location → Json
location_json l = obj (
    ("timestamp", obj (("sec", number l.timestamp_sec) ∷ ("nsec", number l.timestamp_nsec) ∷ []))
    ∷ ("frame_id", text "world")
    ∷ ("latitude", real l.latitude)
    ∷ ("longitude", real l.longitude)
    ∷ ("altitude", real l.altitude)
    ∷ ("position_covariance", arr nine_zeros)
    ∷ ("position_covariance_type", number 0)
    ∷ [])
  where
    z : Json
    z = real zero_d

    nine_zeros : List Json
    nine_zeros = z ∷ z ∷ z ∷ z ∷ z ∷ z ∷ z ∷ z ∷ z ∷ []

-- `send_float`, `send_integer` and `send_bool`; any byte but 0 reads as `true`.
pub value_json : Json → Json
value_json v = obj (("value", v) ∷ [])

pub float_value : Env → List ℕ → Json
unfolding value_json
float_value env d = value_json (float_json env (word32 d 0))

pub int_value : List ℕ → Json
unfolding value_json
int_value d = value_json (int (int32 d 0))

pub bool_value : List ℕ → Json
unfolding value_json
bool_value d = value_json (bool (not (byte_at d 0 == 0)))
