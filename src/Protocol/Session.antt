-- ===== src/Protocol/Session.antt =====
-- Clients that come and go, in lib/foxdbg_protocol.cpp: what a new one is told, and what is forgotten.
pub mod Laws
use foxdbg.Base.{ℕ, List, [], ◌∷◌, Option, none, some, minus_one, String, map}
use foxdbg.Outcome.{Outcome, ok, ◌>>=◌}
use foxdbg.Json.{Json, int, text, arr, obj}
use foxdbg.Channel.{
  ChannelType, image, pointcloud, cubes, lines, pose, transform, location, float, integer, boolean,
  unknown, Channel,
}
use foxdbg.Protocol.{Env, Server, send_json}

-- `foxdbg_protocol_shutdown`, in what it leaves of the state that is modelled.
unfoldable pub shutdown : Server → Server
shutdown p = record p { client = none }

abbrev pub unsubscribed : Channel → Channel
unsubscribed c = record c { subscription_id = minus_one }

-- `foxdbg_protocol_disconnect`; it does not look at its argument.
unfoldable pub disconnect : ℕ → List Channel → Server → List Channel × Server
disconnect client cs p = (map unsubscribed cs, record p { client = none })

-- `send_server_info`
pub server_info : Json
server_info = obj (
    ("op", text "serverInfo")
    ∷ ("name", text "TBReAI FOXDBG")
    ∷ ("capabilities", arr (text "clientPublish" ∷ []))
    ∷ ("supportedEncodings", arr (text "json" ∷ text "binary" ∷ []))
    ∷ ("metadata", obj [])
    ∷ [])

-- The first `switch` of `send_advertise`.
pub schema_name : ChannelType → String
schema_name image = "foxglove.CompressedImage"
schema_name pointcloud = "foxglove.PointCloud"
schema_name cubes = "foxglove.SceneUpdate"
schema_name lines = "foxglove.SceneUpdate"
schema_name pose = "foxglove.SceneUpdate"
schema_name transform = "foxglove.FrameTransform"
schema_name location = "foxglove.LocationFix"
schema_name float = "foxdbg.Float"
schema_name integer = "foxdbg.Integer"
schema_name boolean = "foxdbg.Boolean"
schema_name (unknown _) = "foxglove.Unknown"

value_schema : String → String → String → String → Json
value_schema title description kind value_description = obj (
    ("title", text title)
    ∷ ("description", text description)
    ∷ ("type", text "object")
    ∷ (
      "properties",
      obj (
          ("value", obj (("type", text kind) ∷ ("description", text value_description) ∷ [])) ∷ []),
    )
    ∷ [])

-- The second `switch`: the schema that is dumped into the channel's entry, if the type has one.
pub custom_schema : ChannelType → Option Json
unfolding value_schema
custom_schema float = some (value_schema "foxdbg.Float" "float value" "number" "float value")
custom_schema integer = some (value_schema "foxdbg.Integer" "float value" "integer" "int value")
custom_schema boolean = some (value_schema "foxdbg.Boolean" "bool value" "boolean" "bool value")
custom_schema _ = none

schema_json : Env → Option Json → Json
schema_json env none = text ""
schema_json env (some j) = text (env.dump_text j)

pub channel_info : Env → Channel → Json
unfolding schema_name custom_schema schema_json
channel_info env c = obj (
    ("id", int c.channel_id)
    ∷ ("topic", text c.topic_name)
    ∷ ("encoding", text "json")
    ∷ ("schemaName", text (schema_name c.channel_type))
    ∷ ("schema", schema_json env (custom_schema c.channel_type))
    ∷ [])

-- `send_advertise`
pub advertise : Env → List Channel → Json
unfolding channel_info
advertise env cs =
    obj (("op", text "advertise") ∷ ("channels", arr (map (channel_info env) cs)) ∷ [])

-- `foxdbg_protocol_connect`
drop_client : Option ℕ → List Channel → Server → List Channel × Server
unfolding disconnect
drop_client none cs p = (cs, p)
drop_client (some old) cs p = disconnect old cs p

unfoldable pub connect : Env → ℕ → List Channel → Server → Outcome (List Channel × Server)
unfolding drop_client
connect env client cs p =
    let (cs1, p1) = drop_client p.client cs p in
    send_json env server_info (record p1 { client = some client }) >>= λ p2.
    send_json env (advertise env cs1) p2 >>= λ p3. ok (cs1, p3)
