-- ===== src/Registry/Leaks.antt =====
-- What `foxdbg_add_channel` keeps of a call that fails halfway.
use foxdbg.Base.{◌+◌, ◌≡◌, refl, none, some, ℤ, minus_one, String, arith}
use foxdbg.Outcome.{ok}
use foxdbg.Os.{Os}
use foxdbg.Buffer.{FoxdbgBuffer, alloc}
use foxdbg.Buffer.Alloc.{Allocated, alloc-Allocated}
use foxdbg.Channel.{image, large_buffer_size, sizeof_image_info}
use foxdbg.Registry.{Foxdbg, add_channel}

-- Where the data buffer of an image channel could be allocated and its info buffer could not,
-- `foxdbg_add_channel` returns -1, registers nothing, and keeps the three blocks and the three mutexes
-- of the data buffer.
pub add_image-leak :
    (topic : String) (hz : ℤ) (s : Foxdbg) (b : FoxdbgBuffer) (os1 os2 : Os)
    → alloc large_buffer_size s.os ≡ (some b, os1)
    → alloc sizeof_image_info os1 ≡ (none, os2)
    → (add_channel topic image hz s ≡ ok (minus_one, record s { os = os2 }))
      × (os2.live ≡ s.os.live + 3)
      × (os2.mutexes ≡ s.os.mutexes + 3)
unfolding add_channel
add_image-leak topic hz s b os1 os2 e1 e2 =
    let a1 : Allocated large_buffer_size s.os (some b, os1) =
      rw e1 at (alloc-Allocated large_buffer_size s.os) in
    let a2 : Allocated sizeof_image_info os1 (none, os2) =
      rw e2 at (alloc-Allocated sizeof_image_info os1) in
    (rw (e1, e2) refl, omega (arith, a1.0.live, a2.0), omega (arith, a1.0.held, a2.1))
