-- ===== src/Protocol/Senders/Laws.antt =====
-- Every sender of lib/foxdbg_protocol.cpp on a channel with well-formed buffers.
use foxdbg.Base.{◌≡◌, refl, ℤ, none, length, arith, Option-cases, inl, inr}
use mathlib.Core.Path.{subst}
use foxdbg.Channel.{
  ChannelType, image, pointcloud, cubes, lines, pose, transform, location, float, integer, boolean,
  unknown, sizeof_vector4, sizeof_cube, sizeof_line, sizeof_pose, sizeof_transform, sizeof_location,
  sizeof_float, sizeof_int, sizeof_bool, Channel,
}
use foxdbg.Protocol.{Env, Server, send_large, send_small}
use foxdbg.Protocol.Delivery.{
  EnvOk, ServerOk, FrameTo, Sends, quiet, send_large-Sends, send_small-Sends,
}
use foxdbg.Protocol.Senders.{
  accept_many, accept_one, send_image, send_pointcloud, send_cubes, send_lines, send_pose,
  send_transform, send_location, send_float, send_integer, send_bool, send_value,
}
use foxdbg.Protocol.Layout.{Transform, pose_at, transform_at, location_at}
use foxdbg.Protocol.Messages.{
  pointcloud_json, cubes_json, lines_json, pose_json, transform_json, location_json, float_value,
  int_value, bool_value,
}
use foxdbg.Protocol.Transmit.{send_channel}
use foxdbg.Registry.{info_size}
use foxdbg.Registry.Invariant.{InfoOk, ChannelOk}
use foxdbg.Protocol.Senders.Hazards.{Hazard, Unreadable, transform_json-none}
use foxdbg.Protocol.Senders.Reads.{Delivers, send_with-Delivers}
use foxdbg.Protocol.Senders.Images.{send_image-Delivers}

module _ (env : Env) (world : EnvOk env) where
  image_lem :
      (c : Channel) (p : Server)
      → c.channel_type ≡ image
      → ChannelOk c
      → ServerOk p
      → Delivers (Hazard env image c p.info_data_buffer) c p (send_image env c p)
  image_lem c p e ok_c v = elim (Option-cases c.info_buffer) [
    | inl no_info ↦ absurd (
        let i : InfoOk (info_size image) none =
          subst (λ ty. InfoOk (info_size ty) none) e
            (subst (λ x. InfoOk (info_size c.channel_type) x) no_info ok_c.info) in
        omega (arith, i))
    | inr (b, has_info) ↦
        (let i = subst (λ x. InfoOk (info_size c.channel_type) x) has_info ok_c.info in
          send_image-Delivers env world c p b ok_c.data_idle has_info i.0 v)
  ]

  value-Sends :
      (id : ℤ) (t : Transform) (p : Server)
      → ServerOk p
      → Sends
          (Unreadable env t)
          (FrameTo p.client id)
          1
          p
          (send_value env id (transform_json env t) p)
  unfolding send_value
  value-Sends id t p v = elim (Option-cases (transform_json env t)) [
    | inl bad ↦ rw bad (transform_json-none env t bad)
    | inr (value, e) ↦ rw e (send_small-Sends (Unreadable env t) env id (env.dump value) p v)
  ]

  -- Each sender by the type of its channel.
  typed-Delivers :
      (ty : ChannelType) (c : Channel) (p : Server)
      → c.channel_type ≡ ty
      → ChannelOk c
      → ServerOk p
      → Delivers (Hazard env ty c p.info_data_buffer) c p (send_channel env ty c p)
  unfolding send_channel send_pointcloud send_cubes send_lines send_pose send_transform
      send_location send_float send_integer send_bool
  typed-Delivers image c p e ok_c v = image_lem c p e ok_c v
  typed-Delivers pointcloud c p e ok_c v =
      send_with-Delivers (λ d. ⊥) ⊥ (accept_many sizeof_vector4)
        (λ d. send_large env (env.dump (pointcloud_json d)) c.subscription_id) c p
        (λ n h. ground arith) (λ h bad. bad)
        (λ d q vq. send_large-Sends ⊥ env c.subscription_id (env.dump (pointcloud_json d)) q vq)
        ok_c.data_idle v
  typed-Delivers cubes c p e ok_c v =
      send_with-Delivers (λ d. ⊥) ⊥ (accept_many sizeof_cube)
        (λ d.
          send_large env (env.dump (cubes_json env c.topic_name d (length d))) c.subscription_id)
        c p (λ n h. ground arith) (λ h bad. bad)
        (λ d q vq.
          send_large-Sends ⊥ env c.subscription_id
            (env.dump (cubes_json env c.topic_name d (length d))) q vq)
        ok_c.data_idle v
  typed-Delivers lines c p e ok_c v =
      send_with-Delivers (λ d. ⊥) ⊥ (accept_many sizeof_line)
        (λ d.
          send_large env (env.dump (lines_json env c.topic_name d (length d))) c.subscription_id)
        c p (λ n h. ground arith) (λ h bad. bad)
        (λ d q vq.
          send_large-Sends ⊥ env c.subscription_id
            (env.dump (lines_json env c.topic_name d (length d))) q vq)
        ok_c.data_idle v
  typed-Delivers pose c p e ok_c v =
      send_with-Delivers (λ d. ⊥) ⊥ (accept_one sizeof_pose)
        (λ d.
          send_large env (env.dump (pose_json env c.topic_name (pose_at d 0))) c.subscription_id)
        c p (λ n h. ground arith) (λ h bad. bad)
        (λ d q vq.
          send_large-Sends ⊥ env c.subscription_id
            (env.dump (pose_json env c.topic_name (pose_at d 0))) q vq)
        ok_c.data_idle v
  typed-Delivers transform c p e ok_c v =
      send_with-Delivers (λ d. Unreadable env (transform_at d 0))
        (Hazard env transform c p.info_data_buffer) (accept_one sizeof_transform)
        (λ d. send_value env c.subscription_id (transform_json env (transform_at d 0))) c p
        (λ n h. ground arith) (λ h bad. (ground arith, bad))
        (λ d q vq. value-Sends c.subscription_id (transform_at d 0) q vq) ok_c.data_idle v
  typed-Delivers location c p e ok_c v =
      send_with-Delivers (λ d. ⊥) ⊥ (accept_one sizeof_location)
        (λ d. send_small env (env.dump (location_json (location_at d 0))) c.subscription_id) c p
        (λ n h. ground arith) (λ h bad. bad)
        (λ d q vq.
          send_small-Sends ⊥ env c.subscription_id (env.dump (location_json (location_at d 0))) q
            vq)
        ok_c.data_idle v
  typed-Delivers float c p e ok_c v =
      send_with-Delivers (λ d. ⊥) ⊥ (accept_one sizeof_float)
        (λ d. send_small env (env.dump (float_value env d)) c.subscription_id) c p
        (λ n h. ground arith) (λ h bad. bad)
        (λ d q vq. send_small-Sends ⊥ env c.subscription_id (env.dump (float_value env d)) q vq)
        ok_c.data_idle v
  typed-Delivers integer c p e ok_c v =
      send_with-Delivers (λ d. ⊥) ⊥ (accept_one sizeof_int)
        (λ d. send_small env (env.dump (int_value d)) c.subscription_id) c p (λ n h. ground arith)
        (λ h bad. bad)
        (λ d q vq. send_small-Sends ⊥ env c.subscription_id (env.dump (int_value d)) q vq)
        ok_c.data_idle v
  typed-Delivers boolean c p e ok_c v =
      send_with-Delivers (λ d. ⊥) ⊥ (accept_one sizeof_bool)
        (λ d. send_small env (env.dump (bool_value d)) c.subscription_id) c p (λ n h. ground arith)
        (λ h bad. bad)
        (λ d q vq. send_small-Sends ⊥ env c.subscription_id (env.dump (bool_value d)) q vq)
        ok_c.data_idle v
  typed-Delivers (unknown n) c p e ok_c v =
      (refl, quiet (FrameTo p.client c.subscription_id) 1 p p v refl refl refl)

  -- The sender of every type of channel, on a channel with well-formed buffers and with static
  -- buffers of their sizes, returns, or it ends in undefined behaviour on one of the two payloads
  -- that `Hazard` names. Where it returns, it leaves the channel as it was, and sends one frame
  -- at most, which goes to the client, if there is one, and carries the channel's subscription.
  -- It is assumed that `LWS_PRE` and the header leave room in the transmit buffer, and a
  -- compressed image has fewer than 2 ^ 61 bytes.
  pub send_channel-Delivers :
      (c : Channel) (p : Server)
      → ChannelOk c
      → ServerOk p
      → Delivers
          (Hazard env c.channel_type c p.info_data_buffer)
          c
          p
          (send_channel env c.channel_type c p)
  send_channel-Delivers c p ok_c v = typed-Delivers c.channel_type c p refl ok_c v
