-- ===== src/Tests/Memory.antt =====
-- Allocation, and the calls of lib/foxdbg_buffer.c by one thread, at a buffer of four bytes.
use foxdbg.Base.{ℕ, ◌+◌, ◌≡◌, refl, Bool, true, List, [], ◌∷◌, Option, none, some, arith}
use foxdbg.Outcome.{ok, fault}
use foxdbg.Os.{Os}
use foxdbg.Buffer.{FoxdbgBuffer, alloc, free_buffer, fresh_buffer}
use foxdbg.Buffer.Alloc.{Allocated, alloc-Allocated, free_buffer-alloc}
use foxdbg.Buffer.Alone.{IsIdle, write_info_buffer, read_buffer}
use foxdbg.Buffer.Alone.Mailbox.{Use, writes, reads, use_buffer, mailbox, Holds, refines_mailbox}
use foxdbg.Base.{◌==◌}
use foxdbg.Buffer.Alone.Laws.{fresh-IsIdle, info_overrun}

abbrev some_bytes : ℕ → ℕ
some_bytes i = 200 + i

abbrev served : List (Option (ℕ → ℕ))
served = some some_bytes ∷ some some_bytes ∷ some some_bytes ∷ []

-- Three blocks are served, and mutexes as the list says.
abbrev os_with : List Bool → Os
os_with inits = record { mallocs = served; inits = inits; live = 0; mutexes = 0; stray = 0 }

abbrev good_os : Os
good_os = os_with (true ∷ true ∷ true ∷ [])

alloc-Allocated_example : Allocated 4 good_os (alloc 4 good_os)
alloc-Allocated_example = alloc-Allocated 4 good_os

abbrev after : Os
after = free_buffer (alloc 4 good_os).0 (alloc 4 good_os).1

free_buffer-alloc_example : (after.live ≡ 0) × (after.mutexes ≡ 0)
free_buffer-alloc_example = free_buffer-alloc 4 good_os

abbrev four : List ℕ
four = 1 ∷ 2 ∷ 3 ∷ 4 ∷ []

abbrev buffer : FoxdbgBuffer
buffer = fresh_buffer 4 four four

buffer-IsIdle : IsIdle buffer
buffer-IsIdle = fresh-IsIdle 4 four four refl refl

-- Two frames, of which the second is too large, and a read that looks at the size.
abbrev uses : List Use
uses =
    writes 1 (7 ∷ 8 ∷ [])
    ∷ reads 2 (λ n. true)
    ∷ writes 1 (1 ∷ 2 ∷ 3 ∷ 4 ∷ 5 ∷ [])
    ∷ reads 2 (λ n. n == 2)
    ∷ []

refines_mailbox_example :
    (b' : FoxdbgBuffer) × (use_buffer uses buffer ≡ ok (some (7 ∷ 8 ∷ []) ∷ none ∷ [], b'))
    × Holds 4 [] b'
unfolding mailbox
refines_mailbox_example = refines_mailbox 4 four four refl refl uses

info_overrun_example :
    (b' : FoxdbgBuffer) × (write_info_buffer 1 (1 ∷ 2 ∷ 3 ∷ 4 ∷ 5 ∷ []) buffer ≡ ok b')
    × (b'.front_buffer_size ≡ 5)
    × (read_buffer 2 (λ n. true) b' ≡ fault)
info_overrun_example =
    info_overrun 1 buffer buffer-IsIdle 2 (λ n. true) (1 ∷ 2 ∷ 3 ∷ 4 ∷ 5 ∷ []) (omega arith) refl
