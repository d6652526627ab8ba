-- ===== src/Tests/Rates.antt =====
-- Rounds of the walk.
use foxdbg.Outcome.{ok}
use foxdbg.Buffer.{half_bytes}
use foxdbg.Channel.{Channel}
use foxdbg.Protocol.{Message}
use foxdbg.Protocol.Transmit.{transmit_one, transmit_subscriptions}
use foxdbg.Protocol.Transmit.Round.{Ready, Tell, transmit-Tell}
use foxdbg.Base.{
  ◌≡◌, refl, List, [], ◌∷◌, some, none, minus_one, ℕ, ◌+◌, ◌-◌, ◌*◌, ◌≤◌, length, ltb, inl, inr,
  if◌then◌else◌, arith,
}
use foxdbg.Protocol.{Env, Server}
use foxdbg.Protocol.Delivery.{EnvOk}
use foxdbg.Protocol.Transmit.Turn.{stamped, transmit_one-Walk}
use foxdbg.Protocol.Clock.{Timeval, TimeOk, NotBefore, with_clock, with_clock-ClockOk}
use foxdbg.Protocol.Transmit.Rate.{Served, begin, round, ClockOk, Served-rate}
use foxdbg.Tests.Sessions.{env, env-EnvOk, server, server-ServerOk, lamp, lamp_with, lamp-ChannelOk}

-- Half past the second, for 50 seconds.
abbrev times : ℕ → Timeval
times i = record { tv_sec = if ltb i 50 then i else 50; tv_usec = 500000 }

not_before : (i j : ℕ) → i ≤ j → NotBefore (times i) (times j)
not_before i j h = ground arith

times-TimeOk : TimeOk times
times-TimeOk = record {
  usec = λ i. omega arith;
  sec = λ i. ground arith;
  in_order = λ i j h. not_before i j h;
}

abbrev slow_env : Env
slow_env = with_clock times env

slow_env-EnvOk : EnvOk slow_env
slow_env-EnvOk = record { room = env-EnvOk.room; image_small = env-EnvOk.image_small }

slow_env-ClockOk : ClockOk slow_env
slow_env-ClockOk = with_clock-ClockOk times env times-TimeOk

-- A boolean is no hazard.
lamp_run : (q : Server) × (transmit_one slow_env lamp server ≡ ok (stamped slow_env server lamp, q))
lamp_run =
    elim (transmit_one-Walk slow_env slow_env-EnvOk lamp server lamp-ChannelOk server-ServerOk) [
      | inl (q, e, walk) ↦ (q, e)
      | inr (stops, bad) ↦ absurd stops.hazard
    ]

abbrev lamp_round : Server
lamp_round = lamp_run.0

lamp-Served :
    Served slow_env lamp 0
      (stamped slow_env server lamp)
      lamp_round.millis_calls
      (0 + (length lamp_round.sent - 0))
lamp-Served = round begin lamp-ChannelOk server-ServerOk (omega arith) lamp_run.1

Served-rate_example :
    (0 + (length lamp_round.sent - 0)) * (100 + 1) + 0 ≤ slow_env.millis lamp_round.millis_calls
Served-rate_example =
    Served-rate slow_env slow_env-EnvOk slow_env-ClockOk lamp (omega arith) lamp-Served

-- Of two channels, one is subscribed and shows a frame.
lamp-Ready : Ready env 0 4 lamp (1 ∷ [])
unfolding half_bytes
lamp-Ready = record {
  shows = refl;
  full = refl;
  taken = refl;
  strings = tt;
  subscribed = refl;
  due = λ n h k. ground (arith, h, k);
  room = omega arith;
}

transmit-Tell_example :
    (r : List Channel × Server) × (ms : List (ℕ × Message)) × (transmit_subscriptions env
        (lamp ∷ lamp_with minus_one ∷ [])
        server
      ≡ ok r)
    × (r.1.sent ≡ ms)
    × Tell env 9 (lamp ∷ lamp_with minus_one ∷ []) (some (1 ∷ []) ∷ none ∷ []) ms
transmit-Tell_example =
    transmit-Tell env env-EnvOk 9 (lamp ∷ lamp_with minus_one ∷ []) (some (1 ∷ []) ∷ none ∷ [])
      server
      (
        lamp-ChannelOk,
        (record { data_idle = lamp-ChannelOk.data_idle; sized = refl; info = refl }, tt),
      )
      (lamp-Ready, (refl, tt)) server-ServerOk refl
