-- ===== src/Thread/Priority.antt =====
-- The priorities of lib/foxdbg_thread.cpp, on the POSIX branch of `set_thread_priority`.
use foxdbg.Base.{
  ℕ, zero, suc, ◌+◌, ◌-◌, ◌/◌, ◌≤◌, ℤ, pos, negsuc, leb, le→leb, if◌then◌else◌, arith,
}

abbrev pub priority_low : ℕ
priority_low = 1

abbrev pub priority_normal : ℕ
priority_normal = 2

abbrev pub priority_high : ℕ
priority_high = 3

abbrev pub priority_critical : ℕ
priority_critical = 4

-- `n - 10`, as an `int`
less_ten : ℕ → ℤ
less_ten n = if leb 10 n then pos (n - 10) else negsuc (9 - n)

-- The `switch` of `set_thread_priority`: what it asks of the scheduler, from the least and the greatest
-- priority that `sched_get_priority_min` and `sched_get_priority_max` return for `SCHED_RR`.
unfoldable pub posix_priority : ℕ → ℕ → ℕ → ℤ
unfolding less_ten
posix_priority min_priority max_priority (suc zero) = pos min_priority
posix_priority min_priority max_priority (suc (suc zero)) = pos ((min_priority + max_priority) / 2)
posix_priority min_priority max_priority (suc (suc (suc zero))) = less_ten max_priority
posix_priority min_priority max_priority (suc (suc (suc (suc zero)))) = pos max_priority
posix_priority min_priority max_priority _ = pos ((min_priority + max_priority) / 2)

-- The value as a number in the scheduler's range.
abbrev pub InRange : ℕ → ℕ → ℤ → Type 0
InRange lo hi (pos n) = (lo ≤ n) × (n ≤ hi)
InRange lo hi (negsuc n) = ⊥

-- For every priority, known or not, the value that is asked for lies between the scheduler's bounds, if
-- these are at least ten apart.
pub posix_priority-InRange :
    (lo hi priority : ℕ) → lo + 10 ≤ hi → InRange lo hi (posix_priority lo hi priority)
unfolding posix_priority
posix_priority-InRange lo hi zero h = (omega arith, omega arith)
posix_priority-InRange lo hi (suc zero) h = (omega arith, omega arith)
posix_priority-InRange lo hi (suc (suc zero)) h = (omega arith, omega arith)
posix_priority-InRange lo hi (suc (suc (suc zero))) h =
    rw (le→leb 10 hi (omega arith)) (omega arith, omega arith)
posix_priority-InRange lo hi (suc (suc (suc (suc zero)))) h = (omega arith, omega arith)
posix_priority-InRange lo hi (suc (suc (suc (suc (suc n))))) h = (omega arith, omega arith)
