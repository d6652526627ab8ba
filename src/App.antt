-- ===== src/App.antt =====
-- The library as a whole: the calls of lib/foxdbg.c and the callbacks of lib/foxdbg_thread.cpp, one
-- after the other, on the channels that they share.
pub mod Laws
pub mod Alone
pub mod Clean
pub mod Journey
use foxdbg.Base.{ℕ, ◌≡◌, ◌≢◌, ◌≤◌, Bool, true, false, List, [], ◌∷◌, none, ℤ, pos, String, length}
use foxdbg.Outcome.{Outcome, ok, map_ok, ◌>>=◌}
use foxdbg.Os.{Os}
use foxdbg.Channel.{ChannelType, Channel, sizeof_image_info}
use foxdbg.Registry
use foxdbg.Registry.{Foxdbg, add_channel, add_rx_channel, write_channel, write_channel_info}
use foxdbg.Protocol.{Env, Server}
use foxdbg.Protocol.Receive.{JsonLib}
use foxdbg.Thread.{
  Event, established, received, closed, writeable, other, World, websocket_callback,
  thread_shutdown,
}

-- The static variables of the three files. The server thread has the address of the list of channels.
pub record App : Type 0 where
  pub registry : Foxdbg
  pub server : Server
  pub running : Bool
  pub wanted : List ℕ

-- What the server thread sees, and the application behind one of its callbacks.
abbrev pub seen_by_server : App → World
seen_by_server a = record {
  channels = a.registry.channels;
  server = a.server;
  running = a.running;
  wanted = a.wanted;
}

abbrev pub left_by_server : App → World → App
left_by_server a w = record {
  registry = record a.registry { channels = w.channels };
  server = w.server;
  running = w.running;
  wanted = w.wanted;
}

-- `foxdbg_init`, with the static variables of foxdbg_protocol.cpp as they are and no client.
unfoldable pub start : Os → Server → App
start os p = record {
  registry = Registry.init os;
  server = record p { client = none };
  running = true;
  wanted = [];
}

-- A call of the program, by thread `t` where it writes; a callback; or what `foxdbg_shutdown` leaves,
-- without its cancellation of the service and its join, which Thread/Shutdown has.
pub data Action : Type 0 where
  add : String → ChannelType → ℤ → Action
  add_rx : String → ChannelType → Action
  write : (t : ℕ) → ℤ → List ℕ → Action
  write_info : (t : ℕ) → ℤ → List ℕ → Action
  callback : Event → Action
  stop : Action

module _ (env : Env) (lib : JsonLib) where
  unfoldable pub act : Action → App → Outcome App
  act (add topic ty hz) a =
      map_ok (λ r. record a { registry = r.1 }) (add_channel topic ty hz a.registry)
  act (add_rx topic ty) a = ok (record a { registry = (add_rx_channel topic ty a.registry).1 })
  act (write t id d) a = map_ok (λ r. record a { registry = r }) (write_channel t id d a.registry)
  act (write_info t id d) a =
      map_ok (λ r. record a { registry = r }) (write_channel_info t id d a.registry)
  act (callback e) a =
      map_ok (λ r. left_by_server a r.1) (websocket_callback env lib e (seen_by_server a))
  act stop a = ok (left_by_server a (thread_shutdown (seen_by_server a)))

  unfoldable pub perform : List Action → App → Outcome App
  unfolding act
  perform [] a = ok a
  perform (x ∷ rest) a = act x a >>= perform rest
