-- ===== src/Protocol/Transmit.antt =====
-- `foxdbg_protocol_transmit_subscriptions` of lib/foxdbg_protocol.cpp.
pub mod Turn
pub mod Laws
pub mod Quiet
pub mod Rate
pub mod Round
use foxdbg.Base.{ℕ, ◌+◌, ◌-◌, ◌%◌, ◌^◌, Bool, ◌&&◌, List, [], ◌∷◌, is_nonneg, ltb, if◌then◌else◌}
use foxdbg.Outcome.{Outcome, ok, map_ok, ◌>>=◌}
use foxdbg.Channel.{
  ChannelType, image, pointcloud, cubes, lines, pose, transform, location, float, integer, boolean,
  unknown, Channel,
}
use foxdbg.Protocol.{Env, Server}
use foxdbg.Protocol.Senders.{
  send_image, send_pointcloud, send_cubes, send_lines, send_pose, send_transform, send_location,
  send_float, send_integer, send_bool,
}

-- The `switch` on the type.
unfoldable pub send_channel : Env → ChannelType → Channel → Server → Outcome (Channel × Server)
send_channel env image c p = send_image env c p
send_channel env pointcloud c p = send_pointcloud env c p
send_channel env cubes c p = send_cubes env c p
send_channel env lines c p = send_lines env c p
send_channel env transform c p = send_transform env c p
send_channel env location c p = send_location env c p
send_channel env pose c p = send_pose env c p
send_channel env float c p = send_float env c p
send_channel env integer c p = send_integer env c p
send_channel env boolean c p = send_bool env c p
send_channel env (unknown _) c p = ok (c, p)

-- A reading of `current_timestamp_ms`.
abbrev tick_millis : Server → Server
tick_millis p = record p { millis_calls = p.millis_calls + 1 }

-- `elapsed > current->target_tx_time`, in `uint64_t`
abbrev pub is_due : ℕ → Channel → Bool
is_due now c = ltb c.target_tx_time ((now + 2 ^ 64 - c.last_tx_time) % 2 ^ 64)

-- The time of the next reading goes into the channel.
stamp : Env → Channel × Server → Channel × Server
stamp env (c, p) = (record c { last_tx_time = env.millis p.millis_calls }, tick_millis p)

-- One round of the loop. The test of the time is made twice, on the same reading.
unfoldable pub transmit_one : Env → Channel → Server → Outcome (Channel × Server)
unfolding send_channel stamp
transmit_one env c p =
    let due = is_due (env.millis p.millis_calls) c in
    let q = tick_millis p in
    (if is_nonneg c.subscription_id && due then send_channel env c.channel_type c q else ok (c, q))
    >>= λ r. ok (if due then stamp env r else r)

-- The walk of the list.
unfoldable pub transmit_subscriptions :
    Env → List Channel → Server → Outcome (List Channel × Server)
unfolding transmit_one
transmit_subscriptions env [] p = ok ([], p)
transmit_subscriptions env (c ∷ rest) p = transmit_one env c p >>= λ r.
    map_ok (λ s. (r.0 ∷ s.0, s.1)) (transmit_subscriptions env rest r.1)
