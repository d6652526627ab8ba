-- ===== src/Tests/Apps.antt =====
-- The library as a whole with one channel, a lamp.
use foxdbg.Base.{
  ℕ, ◌<◌, ◌≡◌, ◌≢◌, ◌++◌, refl, true, [], ◌∷◌, none, some, pos, minus_one, to_int, arith,
}
use foxdbg.Outcome.{ok}
use foxdbg.Os.{Os}
use foxdbg.Channel.{boolean, image}
use foxdbg.Json.{bool}
use foxdbg.Protocol.{header, binary_message}
use foxdbg.Protocol.Senders.Frames.{value_of}
use foxdbg.Protocol.Session.{server_info, advertise}
use foxdbg.Protocol.Session.Laws.{told}
use foxdbg.Thread.{established, received, closed, writeable}
use foxdbg.App.{App, start, add, add_rx, write, write_info, callback, stop, perform}
use foxdbg.App.Laws.{AppOk, Performed, perform-start}
use foxdbg.App.Journey.{perform-sent}
use foxdbg.Tests.Sessions.{
  env, env-EnvOk, server, server-ServerOk, lamp_with, lamp-ChannelOk, json_lib, s-TextMessage,
  s-Subscribes,
}

-- Memory that holds zeroes, for two buffers and a channel.
abbrev os : Os
os = record {
  mallocs = some (λ i. 0) ∷ some (λ i. 0) ∷ some (λ i. 0) ∷ some (λ i. 0) ∷ [];
  inits = true ∷ true ∷ true ∷ [];
  live = 0;
  mutexes = 0;
  stray = 0;
}

perform-start_example :
    Performed env env-EnvOk json_lib
      (add "/lamp" boolean (pos 10)
        ∷ callback (established 9)
        ∷ callback (received (b'S' ∷ []))
        ∷ write 1 (pos 0) (1 ∷ [])
        ∷ write 1 (pos 7) (1 ∷ [])
        ∷ callback (writeable 9)
        ∷ add "/camera" image (pos 30)
        ∷ add_rx "/gain" boolean
        ∷ write_info 1 (pos 0) (1 ∷ 2 ∷ [])
        ∷ callback (closed 9)
        ∷ stop
        ∷ callback (established 8)
        ∷ [])
      (start os server)
perform-start_example =
    perform-start env env-EnvOk json_lib os server server-ServerOk
      (add "/lamp" boolean (pos 10)
        ∷ callback (established 9)
        ∷ callback (received (b'S' ∷ []))
        ∷ write 1 (pos 0) (1 ∷ [])
        ∷ write 1 (pos 7) (1 ∷ [])
        ∷ callback (writeable 9)
        ∷ add "/camera" image (pos 30)
        ∷ add_rx "/gain" boolean
        ∷ write_info 1 (pos 0) (1 ∷ 2 ∷ [])
        ∷ callback (closed 9)
        ∷ stop
        ∷ callback (established 8)
        ∷ [])
      (
        no_zero 10 (omega arith),
        (
          tt,
          (
            some_ne,
            (tt, (tt, (tt, (no_zero 30 (omega arith), (tt, (omega arith, (tt, (tt, (tt, tt))))))))),
          ),
        ),
      )
      (omega arith)
  where
    no_zero : (n : ℕ) → 0 < n → pos n ≢ pos 0
    no_zero n h e = absurd (ground arith)

    some_ne : {A : Type 0} {x : A} → some x ≢ none
    some_ne e = absurd (cc)

-- Nobody is connected, and nothing is subscribed.
abbrev waiting : App
waiting = record {
  registry = record {
    channels = lamp_with minus_one ∷ [];
    channel_count = 1;
    rx_channels = [];
    rx_channel_count = 0;
    os = os;
  };
  server = record server { client = none };
  running = true;
  wanted = [];
}

waiting-AppOk : AppOk waiting
unfolding to_int
waiting-AppOk = record {
  lists_ok = record {
    channels_ok = record {
      counted = refl;
      numbered = (refl, tt);
      channels_ok =
          (record { data_idle = lamp-ChannelOk.data_idle; sized = refl; info = refl }, tt);
    };
    rx_ok = record { counted = refl; numbered = tt };
  };
  server_ok = record {
    raw = server-ServerOk.raw;
    encode = server-ServerOk.encode;
    info = server-ServerOk.info;
    tx = server-ServerOk.tx;
  };
}

perform-sent_example :
    (a' : App) × (n : ℕ) × (perform env json_lib
        (callback (established 4)
          ∷ callback (received (b'S' ∷ []))
          ∷ write 1 (pos 0) (1 ∷ [])
          ∷ callback (writeable 4)
          ∷ [])
        waiting
      ≡ ok a')
    × (a'.server.sent
        ≡ (told env 4 (env.dump server_info)
            ++ told env 4 (env.dump (advertise env (lamp_with minus_one ∷ []))))
          ++ ((
            4,
            binary_message
                (header (pos 3) (env.nanos n) ++ env.dump (value_of env "/lamp" boolean (1 ∷ []))),
          )
              ∷ []))
perform-sent_example =
    perform-sent env env-EnvOk json_lib waiting waiting-AppOk [] (lamp_with minus_one) [] refl refl
      refl tt tt 4 4 1 b'S' [] (bool true) (pos 3) (1 ∷ []) (omega arith) s-TextMessage s-Subscribes
      refl (omega arith) refl tt (λ n h k. ground (arith, h, k)) (omega arith)
