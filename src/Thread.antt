-- ===== src/Thread.antt =====
-- lib/foxdbg_thread.cpp: the server thread's callback from libwebsockets.
pub mod Shutdown
pub mod Priority
pub mod Kept
pub mod Laws
use foxdbg.Base.{ℕ, Bool, true, false, List, ◌∷◌, ℤ, pos, minus_one}
use foxdbg.Outcome.{Outcome, ok, map_ok}
use foxdbg.Channel.{Channel}
use foxdbg.Protocol.{Env, Server}
use foxdbg.Protocol.Session.{connect, disconnect, shutdown}
use foxdbg.Protocol.Receive.{JsonLib, receive}
use foxdbg.Protocol.Transmit.{transmit_subscriptions}

-- The reasons that the callback knows, with what comes with them, and all others.
pub data Event : Type 0 where
  established : (wsi : ℕ) → Event
  received : (bytes : List ℕ) → Event
  closed : (wsi : ℕ) → Event
  writeable : (wsi : ℕ) → Event
  other : Event

-- The channels, the protocol's state, `running`, and the connections that have asked to be told when
-- they can be written to, by `lws_callback_on_writable`.
pub record World : Type 0 where
  pub channels : List Channel
  pub server : Server
  pub running : Bool
  pub wanted : List ℕ

module _ (env : Env) (lib : JsonLib) where
  -- The `switch` of `websocket_callback`.
  unfoldable pub handle : Event → World → Outcome World
  handle (established wsi) w =
      map_ok (λ r. record w { channels = r.0; server = r.1; wanted = wsi ∷ w.wanted })
        (connect env wsi w.channels w.server)
  handle (received bytes) w =
      map_ok (λ cs. record w { channels = cs }) (receive lib bytes w.channels)
  handle (closed wsi) w =
      let (cs, p) = disconnect wsi w.channels w.server in
      ok (record w { channels = cs; server = p })
  handle (writeable wsi) w =
      map_ok (λ r. record w { channels = r.0; server = r.1; wanted = wsi ∷ w.wanted })
        (transmit_subscriptions env w.channels w.server)
  handle other w = ok w

  -- `websocket_callback`: the value that it returns, and what it leaves.
  unfoldable pub websocket_callback : Event → World → Outcome (ℤ × World)
  unfolding handle
  websocket_callback e w = elim w.running [
    | false ↦ ok (minus_one, w)
    | true ↦ map_ok (λ v. (pos 0, v)) (handle e w)
  ]

-- `foxdbg_thread_shutdown` and the end of `foxdbg_server_thread_main`, once the service loop has
-- returned: the flag is down and the protocol is shut down.
unfoldable pub thread_shutdown : World → World
unfolding shutdown
thread_shutdown w = record w { running = false; server = shutdown w.server }
