-- ===== src/Tests/Shutdowns.antt =====
-- Shutdowns of the server thread of lib/foxdbg_thread.cpp.
use foxdbg.Base.{◌≡◌, ◌≤◌, ◌⊎◌, refl, true, false}
use foxdbg.Thread.Shutdown.{
  Lifecycle, launched, joining, back, servicing, ended, Move, create, cancel, store, join, serve,
  leave, wake, finish, moves, Turns, here, then,
}
use foxdbg.Thread.Shutdown.Laws.{Asleep, shutdown_goes_on, shutdown_ends}

-- The server is in `lws_service` when the service is cancelled and the flag is put down.
abbrev asked : Lifecycle
asked = record { main_at = joining; server_at = servicing; running = false; signalled = true }

asked-Turns : Turns launched 4 asked
asked-Turns =
    then
      (then (then (then here (moves (create refl))) (moves (serve refl refl)))
        (moves (cancel refl (λ e. absurd (cc)))))
      (moves (store refl))

-- The server ends, and the join returns.
abbrev stopped : Lifecycle
stopped = record { main_at = back; server_at = ended; running = false; signalled = false }

stopped-Turns : Turns asked 4 stopped
stopped-Turns =
    then
      (then (then (then here (moves (wake refl refl))) (moves (leave refl refl)))
        (moves (finish refl)))
      (moves (join refl refl))

-- The service returns for the cancellation before the flag is down, and the server goes back to sleep.
abbrev lost : Lifecycle
lost = record { main_at = joining; server_at = servicing; running = false; signalled = false }

lost-Turns : Turns launched 6 lost
lost-Turns =
    then
      (then
        (then
          (then (then (then here (moves (create refl))) (moves (serve refl refl)))
            (moves (cancel refl (λ e. absurd (cc)))))
          (moves (wake refl refl)))
        (moves (serve refl refl)))
      (moves (store refl))

lost-Asleep : Asleep lost
lost-Asleep = record { waits = refl; sleeps = refl; flag_down = refl; used_up = refl }

shutdown_goes_on_example :
    ((joining ≡ back) × (servicing ≡ ended) × (false ≡ false))
    ⊎ ((t : Lifecycle) × Move lost t)
    ⊎ Asleep lost
shutdown_goes_on_example = shutdown_goes_on lost-Turns

shutdown_ends_example :
    (4 ≤ 4) × ((back ≡ back) ⊎ ((u : Lifecycle) × Move stopped u) ⊎ Asleep stopped)
shutdown_ends_example = shutdown_ends asked-Turns refl stopped-Turns
