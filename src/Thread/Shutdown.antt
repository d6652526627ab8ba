-- ===== src/Thread/Shutdown.antt =====
-- The server thread of lib/foxdbg_thread.cpp and the thread that shuts it down: where each of them is, and
-- what each can do next.
pub mod Laws
use foxdbg.Base.{ℕ, suc, ◌≡◌, ◌≢◌, Bool, true, false}

-- Where the thread that called `foxdbg_init` is: before `foxdbg_thread_shutdown`, behind its
-- `lws_cancel_service`, behind its `running.store (false)`, or behind the join.
pub data MainAt : Type 0 where
  working : MainAt
  cancelled : MainAt
  joining : MainAt
  back : MainAt

-- Where `foxdbg_server_thread_main` is: before the context exists, before the test of `running`, in
-- `lws_service`, behind the loop, or behind `foxdbg_protocol_shutdown`.
pub data ServerAt : Type 0 where
  starting : ServerAt
  testing : ServerAt
  servicing : ServerAt
  leaving : ServerAt
  ended : ServerAt

-- `signalled`: the service was cancelled, and `lws_service` has not returned for that yet.
pub record Lifecycle : Type 0 where
  pub main_at : MainAt
  pub server_at : ServerAt
  pub running : Bool
  pub signalled : Bool

-- `foxdbg_thread_init` has returned.
abbrev pub launched : Lifecycle
launched = record { main_at = working; server_at = starting; running = true; signalled = false }

-- A step of one of the two threads. `lws_cancel_service` is for a context that exists. `lws_service` sleeps
-- until the service is cancelled.
pub data Move (s : Lifecycle) : Lifecycle → Type 0 where
  create : s.server_at ≡ starting → Move s (record s { server_at = testing })
  cancel :
      s.main_at ≡ working
      → s.server_at ≢ starting
      → Move s (record s { main_at = cancelled; signalled = true })
  store : s.main_at ≡ cancelled → Move s (record s { main_at = joining; running = false })
  join : s.main_at ≡ joining → s.server_at ≡ ended → Move s (record s { main_at = back })
  serve : s.server_at ≡ testing → s.running ≡ true → Move s (record s { server_at = servicing })
  leave : s.server_at ≡ testing → s.running ≡ false → Move s (record s { server_at = leaving })
  wake :
      s.server_at ≡ servicing
      → s.signalled ≡ true
      → Move s (record s { server_at = testing; signalled = false })
  finish : s.server_at ≡ leaving → Move s (record s { server_at = ended })

-- A step of the threads, or the return of `lws_service` for an event of a connection.
pub data Turn (s : Lifecycle) : Lifecycle → Type 0 where
  moves : {t : Lifecycle} → Move s t → Turn s t
  event : s.server_at ≡ servicing → Turn s (record s { server_at = testing })

-- The states that are reached in a number of steps.
pub data Turns (from : Lifecycle) : ℕ → Lifecycle → Type 0 where
  here : Turns from 0 from
  then : {k : ℕ} {s t : Lifecycle} → Turns from k s → Turn s t → Turns from (suc k) t
