-- ===== src/Protocol/Senders/Hazards.antt =====
-- The two payloads that lead a sender of lib/foxdbg_protocol.cpp into undefined behaviour.
use foxdbg.Base.{ℕ, ◌≡◌, ◌<◌, ◌⊎◌, List, Option, none, some, memcpy, Option-cases, inl, inr}
use foxdbg.Buffer.{FoxdbgBuffer}
use foxdbg.Buffer.Alone.{contents}
use foxdbg.Channel.{ChannelType, image, transform, sizeof_transform, Channel}
use foxdbg.Protocol.{Env, raw_data_size}
use foxdbg.Protocol.Layout.{Transform, transform_at, image_info_at}
use foxdbg.Protocol.Messages.{transform_json, frames_json}
use foxdbg.Protocol.Senders.{pixel_bytes}

-- A pointer of the transform leads to no string.
abbrev pub Unreadable : Env → Transform → Type 0
Unreadable env t = (env.c_string t.parent_id ≡ none) ⊎ (env.c_string t.id ≡ none)

-- The info of the buffer, laid over the start of what the static info buffer holds, asks for more bytes
-- than `raw_data_buffer` has.
abbrev pub Overlong : List ℕ → Option FoxdbgBuffer → Type 0
Overlong old none = ⊥
Overlong old (some b) =
    (info : List ℕ) × (memcpy old 0 (contents b) ≡ some info)
    × (raw_data_size < pixel_bytes (image_info_at info 0))

-- What a channel can show that its sender must not be called on; `old` is what the static info buffer
-- holds.
abbrev pub Hazard : Env → ChannelType → Channel → List ℕ → Type 0
Hazard env transform c old =
    (c.data_buffer.front_buffer_size ≡ sizeof_transform)
    × Unreadable env (transform_at (contents c.data_buffer) 0)
Hazard env image c old = (0 < c.data_buffer.front_buffer_size) × Overlong old c.info_buffer
Hazard env _ c old = ⊥

pub transform_json-none :
    (env : Env) (t : Transform) → transform_json env t ≡ none → Unreadable env t
unfolding transform_json frames_json
transform_json-none env t e = elim (Option-cases (env.c_string t.parent_id)) [
  | inl no_parent ↦ inl no_parent
  | inr (parent, eq) ↦ elim (Option-cases (env.c_string t.id)) [
    | inl no_child ↦ inr no_child
    | inr (child, eq2) ↦ absurd (let bad = rw (eq, eq2) at e in cc)
  ]
]
