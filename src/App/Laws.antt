-- ===== src/App/Laws.antt =====
-- Any sequence of calls and callbacks leaves the library in order.
use foxdbg.Base.{
  ℕ, ◌*◌, ◌⊎◌, ◌++◌, inl, inr, suc, ◌+◌, ◌^◌, ◌≡◌, ◌≢◌, ◌≤◌, ◌<◌, refl, sym, ◌∙◌, ap, List, [], ◌∷◌,
  none, ℤ, pos, length, All, arith,
}
use foxdbg.Outcome.{Outcome, ok, fault, map_ok, ◌>>=◌}
use foxdbg.Os.{Os}
use foxdbg.Channel.{Channel, sizeof_image_info}
use foxdbg.Registry
use foxdbg.Registry.{Foxdbg, add_channel, add_rx_channel, write_channel, write_channel_info}
use foxdbg.Registry.Keeps.{
  ListsOk, KeepsLists, write_channel-KeepsLists, write_channel_info-KeepsLists, Grown,
  add_channel-Grown, add_rx_channel-Grown,
}
use foxdbg.Protocol.{Env, Server}
use foxdbg.Protocol.Delivery.{EnvOk, ServerOk}
use foxdbg.Protocol.Session.{shutdown}
use foxdbg.Protocol.Receive.{JsonLib}
use foxdbg.Thread.{Event, received, writeable, World, thread_shutdown}
use foxdbg.Protocol.Transmit.Laws.{Stopped}
use foxdbg.Thread.Kept.{WorldOk, Kept}
use foxdbg.Thread.Laws.{Handled, done, thrown, stopped, websocket_callback-Handled}
use foxdbg.App.Clean.{NoStray, perform-NoStray}
use foxdbg.App.{
  App, seen_by_server, left_by_server, start, Action, add, add_rx, write, write_info, callback,
  stop, act, perform,
}

pub record AppOk (a : App) : Type 0 where
  pub lists_ok : ListsOk a.registry
  pub server_ok : ServerOk a.server

-- What the program may do: a rate is not 0, an info is no larger than an image's, and what a client
-- sends parses.
abbrev pub Proper : JsonLib → Action → Type 0
Proper lib (add topic ty hz) = hz ≢ pos 0
Proper lib (write_info t id d) = length d ≤ sizeof_image_info
Proper lib (callback (received bytes)) = lib.parse bytes ≢ none
Proper lib _ = Unit

Kept-length : (cs cs' : List Channel) → Kept cs cs' → length cs' ≡ length cs
Kept-length [] [] k = refl
Kept-length (c ∷ cs) [] k = absurd k
Kept-length [] (c' ∷ cs') k = absurd k
Kept-length (c ∷ cs) (c' ∷ cs') k = ap suc (Kept-length cs cs' k.1)

start-AppOk : (os : Os) (p : Server) → ServerOk p → AppOk (start os p)
unfolding start Registry.init
start-AppOk os p v = record {
  lists_ok = record {
    channels_ok = record { counted = refl; numbered = tt; channels_ok = tt };
    rx_ok = record { counted = refl; numbered = tt };
  };
  server_ok = record { raw = v.raw; encode = v.encode; info = v.info; tx = v.tx };
}

-- One action leaves all in order, with at most one channel more in each list; or it is a writeable event
-- whose walk comes to a channel that it must not send.
data Acted (env : Env) (x : Action) (a : App) (run : Outcome App) : Type 0 where
  did :
      (a' : App)
      → run ≡ ok a'
      → AppOk a'
      → a'.registry.channel_count ≤ a.registry.channel_count + 1
      → a'.registry.rx_channel_count ≤ a.registry.rx_channel_count + 1
      → Acted env x a run
  broke :
      (wsi : ℕ)
      → x ≡ callback (writeable wsi)
      → Stopped env a.registry.channels a.server
      → run ≡ fault
      → Acted env x a run

Grown-Acted :
    (env : Env) (x : Action) (a : App) {s : Foxdbg}
    → AppOk a
    → Grown a.registry s
    → Acted env x a (ok (record a { registry = s }))
Grown-Acted env x a {s} v g =
    did (record a { registry = s }) refl (record { lists_ok = g.lists_ok; server_ok = v.server_ok })
      g.count g.rx_count

Kept-Acted :
    (env : Env) (x : Action) (a : App) {r : Outcome Foxdbg}
    → AppOk a
    → KeepsLists a.registry r
    → Acted env x a (map_ok (λ s. record a { registry = s }) r)
Kept-Acted env x a v (s, e, o, n, rx) =
    did (record a { registry = s }) (ap (map_ok (λ x. record a { registry = x })) e)
      (record { lists_ok = o; server_ok = v.server_ok }) (omega (arith, n)) (omega (arith, rx))

served-Acted :
    (env : Env) (x : Action) (a : App) (w : World)
    → AppOk a
    → WorldOk w
    → Kept a.registry.channels w.channels
    → Acted env x a (ok (left_by_server a w))
served-Acted env x a w v o k =
    did (left_by_server a w) refl
      (record {
        lists_ok = record {
          channels_ok = record {
            counted =
                v.lists_ok.channels_ok.counted ∙ sym (Kept-length a.registry.channels w.channels k);
            numbered = o.numbered;
            channels_ok = o.channels_ok;
          };
          rx_ok = record {
            counted = v.lists_ok.rx_ok.counted;
            numbered = v.lists_ok.rx_ok.numbered;
          };
        };
        server_ok = o.server_ok;
      })
      (omega arith) (omega arith)

seen-WorldOk : (a : App) → AppOk a → WorldOk (seen_by_server a)
seen-WorldOk a v = record {
  numbered = v.lists_ok.channels_ok.numbered;
  channels_ok = v.lists_ok.channels_ok.channels_ok;
  server_ok = v.server_ok;
}

module _ (env : Env) (world : EnvOk env) (lib : JsonLib) where
  callback-Acted :
      (e : Event) (a : App) {r : Outcome (ℤ × World)}
      → Proper lib (callback e)
      → AppOk a
      → Handled env world lib e (seen_by_server a) r
      → Acted env (callback e) a (map_ok (λ x. left_by_server a x.1) r)
  callback-Acted e a p v (done w' eq o k) = rw eq (served-Acted env (callback e) a w' v o k)
  callback-Acted e a p v (thrown bytes is bad eq) = absurd (rw is at p bad)
  callback-Acted e a p v (stopped wsi is up halt eq) =
      broke wsi (ap callback is) halt (ap (map_ok (λ x. left_by_server a x.1)) eq)

  act-Acted :
      (x : Action) (a : App)
      → Proper lib x
      → AppOk a
      → a.registry.channel_count + 1 < 2 ^ 64
      → a.registry.rx_channel_count + 1 < 2 ^ 64
      → Acted env x a (act env lib x a)
  unfolding act thread_shutdown shutdown
  act-Acted (add topic ty hz) a p v few few_rx =
      let (r, e, g) = add_channel-Grown topic ty hz a.registry p v.lists_ok few in
      rw e (Grown-Acted env (add topic ty hz) a v g)
  act-Acted (add_rx topic ty) a p v few few_rx =
      Grown-Acted env (add_rx topic ty) a v
        (add_rx_channel-Grown topic ty a.registry v.lists_ok few_rx)
  act-Acted (write t id d) a p v few few_rx =
      Kept-Acted env (write t id d) a v (write_channel-KeepsLists t id d a.registry v.lists_ok)
  act-Acted (write_info t id d) a p v few few_rx =
      Kept-Acted env (write_info t id d) a v
        (write_channel_info-KeepsLists t id d a.registry p v.lists_ok)
  act-Acted (callback e) a p v few few_rx =
      callback-Acted e a p v
        (websocket_callback-Handled env world lib e (seen_by_server a) (seen-WorldOk a v))
  act-Acted stop a p v few few_rx =
      did (left_by_server a (thread_shutdown (seen_by_server a))) refl
        (record {
          lists_ok = record {
            channels_ok = record {
              counted = v.lists_ok.channels_ok.counted;
              numbered = v.lists_ok.channels_ok.numbered;
              channels_ok = v.lists_ok.channels_ok.channels_ok;
            };
            rx_ok = record {
              counted = v.lists_ok.rx_ok.counted;
              numbered = v.lists_ok.rx_ok.numbered;
            };
          };
          server_ok = record {
            raw = v.server_ok.raw;
            encode = v.server_ok.encode;
            info = v.server_ok.info;
            tx = v.server_ok.tx;
          };
        })
        (omega arith) (omega arith)

  -- The actions behind `before` do not happen: all before have returned and left the library in order,
  -- and the next is a writeable event whose walk comes to a channel that it must not send.
  pub record Broken (xs : List Action) (a : App) : Type 0 where
    pub before : List Action
    pub wsi : ℕ
    pub rest : List Action
    pub parts : xs ≡ before ++ (callback (writeable wsi) ∷ rest)
    pub there : App
    pub reached : perform env lib before a ≡ ok there
    pub in_order : AppOk there
    pub no_stray : NoStray env lib (6 * length before) a there
    pub stops : Stopped env there.registry.channels there.server

  Broken-later :
      (x : Action) (xs : List Action) (a a' : App)
      → act env lib x a ≡ ok a'
      → Broken xs a'
      → Broken (x ∷ xs) a
  unfolding perform
  Broken-later x xs a a' e b = record {
    before = x ∷ b.before;
    wsi = b.wsi;
    rest = b.rest;
    parts = ap (λ ys. x ∷ ys) b.parts;
    there = b.there;
    reached = ap (λ r. r >>= perform env lib b.before) e ∙ b.reached;
    in_order = b.in_order;
    no_stray =
        perform-NoStray env lib (x ∷ b.before) a
          (ap (λ r. r >>= perform env lib b.before) e ∙ b.reached);
    stops = b.stops;
  }

  -- How a sequence of actions ends.
  abbrev pub Performed : List Action → App → Type 0
  Performed xs a =
      ((a' : App) × (perform env lib xs a ≡ ok a')
        × AppOk a'
        × NoStray env lib (6 * length xs) a a')
      ⊎ (Broken xs a × (perform env lib xs a ≡ fault))

  perform-Performed :
      (xs : List Action) (a : App)
      → All (Proper lib) xs
      → AppOk a
      → a.registry.channel_count + length xs < 2 ^ 64
      → a.registry.rx_channel_count + length xs < 2 ^ 64
      → Performed xs a
  unfolding perform
  perform-Performed [] a p v few few_rx = inl (a, refl, v, inl refl)
  perform-Performed (x ∷ xs) a p v few few_rx =
      elim (act-Acted x a p.0 v (omega arith) (omega arith)) [
        | did a1 e v1 n rx ↦ elim (perform-Performed xs a1 p.1 v1 (omega arith) (omega arith)) [
          | inl (a2, e2, v2, clean) ↦
              (let all = ap (λ r. r >>= perform env lib xs) e ∙ e2 in
                inl (a2, all, v2, perform-NoStray env lib (x ∷ xs) a all))
          | inr (b, e2) ↦
              inr (Broken-later x xs a a1 e b, ap (λ r. r >>= perform env lib xs) e ∙ e2)
        ]
        | broke wsi is halt e ↦ inr (
          record {
            before = [];
            wsi = wsi;
            rest = xs;
            parts = ap (λ y. y ∷ xs) is;
            there = a;
            reached = refl;
            in_order = v;
            no_stray = inl refl;
            stops = halt;
          },
          ap (λ r. r >>= perform env lib xs) e,
        )
      ]

  -- Let the library be initialised and then take any sequence of fewer than 2 ^ 64 calls and
  -- callbacks in any order: additions of channels, with the memory that the system grants or
  -- refuses, writes with any id and any size, connections, messages, writeable events, closings,
  -- and shutdowns, of which `stop` has the flag and the end of the protocol, not the cancellation
  -- of the service and the join. Either every one of them returns, none with an access out of
  -- bounds and none waiting for ever for a mutex, and both lists are left numbered in order and
  -- counted, with the buffers well formed and of the sizes of their types. Or all return and
  -- leave that order up to a writeable event, in which the walk comes to a subscribed and due
  -- channel that its sender must not be called on: a transform whose frame has a pointer that
  -- leads to no valid string, or an image that shows pixels and whose info, laid over the start
  -- of the static info buffer, asks `tjCompress2` for more bytes than `raw_data_buffer` has; and
  -- this event ends in undefined behaviour. In both cases the actions that have returned have
  -- destroyed no mutex that is not initialised, unless the system refuses one of the first
  -- mutexes that are asked for, six for each action. The conditions are that no rate is 0, no
  -- info is larger than an image's, every message of a client parses, `LWS_PRE` and the header
  -- leave room in the transmit buffer, a compressed image has fewer than 2 ^ 61 bytes, and the
  -- static buffers have their sizes.
  pub perform-start :
      (os : Os) (p : Server)
      → ServerOk p
      → (xs : List Action) → All (Proper lib) xs
      → length xs < 2 ^ 64
      → Performed xs (start os p)
  unfolding start Registry.init
  perform-start os p v xs proper few =
      perform-Performed xs (start os p) proper (start-AppOk os p v) (omega arith) (omega arith)
