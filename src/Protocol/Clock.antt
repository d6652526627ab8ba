-- ===== src/Protocol/Clock.antt =====
-- `current_timestamp_ms` of lib/foxdbg_protocol.cpp, on the POSIX branch.
use foxdbg.Base.{ℕ, ◌+◌, ◌*◌, ◌/◌, ◌^◌, ◌%◌, ◌≡◌, ◌≤◌, ◌<◌, ◌⊎◌, inl, inr, arith}
use foxdbg.Protocol.{Env}
use foxdbg.Protocol.Transmit.Rate.{ClockOk}

-- What `gettimeofday` gives.
pub record Timeval : Type 0 where
  pub tv_sec : ℕ
  pub tv_usec : ℕ

unfoldable pub current_timestamp_ms : Timeval → ℕ
current_timestamp_ms tv = (tv.tv_sec * 1000 + tv.tv_usec / 1000) % 2 ^ 64

abbrev pub NotBefore : Timeval → Timeval → Type 0
NotBefore a b = (a.tv_sec < b.tv_sec) ⊎ ((a.tv_sec ≡ b.tv_sec) × (a.tv_usec ≤ b.tv_usec))

-- The successive readings of a clock that is not set back, with microseconds below a million.
pub record TimeOk (times : ℕ → Timeval) : Type 0 where
  pub usec : (i : ℕ) → (times i).tv_usec < 1000000
  pub sec : (i : ℕ) → (times i).tv_sec < 2 ^ 54
  pub in_order : (i j : ℕ) → i ≤ j → NotBefore (times i) (times j)

abbrev pub with_clock : (ℕ → Timeval) → Env → Env
with_clock times env = record env { millis = λ i. current_timestamp_ms (times i) }

ordered :
    (a b : Timeval)
    → a.tv_usec < 1000000
    → a.tv_sec < 2 ^ 54
    → b.tv_sec < 2 ^ 54
    → b.tv_usec < 1000000
    → NotBefore a b
    → current_timestamp_ms a ≤ current_timestamp_ms b
unfolding current_timestamp_ms
ordered a b ua sa sb ub (inl before) = omega arith
ordered a b ua sa sb ub (inr (same, le)) = omega (arith, same, le)

small_stamp : (a : Timeval) → current_timestamp_ms a < 2 ^ 64
unfolding current_timestamp_ms
small_stamp a = omega arith

-- A time of day that is not set back makes a clock that does not go back.
pub with_clock-ClockOk :
    (times : ℕ → Timeval) (env : Env) → TimeOk times → ClockOk (with_clock times env)
with_clock-ClockOk times env v = record {
  forward = λ i j h.
      ordered (times i) (times j) (v.usec i) (v.sec i) (v.sec j) (v.usec j) (v.in_order i j h);
  small = λ i. small_stamp (times i);
}
