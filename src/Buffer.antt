-- ===== src/Buffer.antt =====
-- lib/foxdbg_buffer.h and lib/foxdbg_buffer.c: the double buffer, its allocation and its release.
-- The children hold the operations on it (`Calls`), the threads that use it, and the proofs.
pub mod Alloc
pub mod Clean
pub mod Calls
pub mod Threads
pub mod Alone
pub mod Bytes
pub mod Pool
use foxdbg.Base.{ℕ, ◌≡◌, ◌≢◌, ◌≤◌, Bool, true, false, List, Option, none, some, length, ◌==◌}
use foxdbg.Base.{if◌then◌else◌, ◌&&◌}
use foxdbg.Os.{Os, malloc, free, mutex_init, mutex_destroy}

-- `front_buffer` and `back_buffer` point to the start of `buffer_a` or of `buffer_b`.
pub data Half : Type 0 where
  half_a half_b : Half

-- `foxdbg_buffer_t`. A mutex holds the thread that has locked it.
pub record FoxdbgBuffer : Type 0 where
  pub buffer_size : ℕ
  pub buffer_a : List ℕ
  pub buffer_b : List ℕ
  pub front_buffer : Half
  pub front_buffer_size : ℕ
  pub back_buffer : Half
  pub back_buffer_size : ℕ
  pub write_mutex : Option ℕ
  pub read_mutex : Option ℕ
  pub swap_mutex : Option ℕ

-- The bytes that a pointer into the buffer leads to.
unfoldable pub half_bytes : FoxdbgBuffer → Half → List ℕ
half_bytes b half_a = b.buffer_a
half_bytes b half_b = b.buffer_b

unfoldable pub set_half : FoxdbgBuffer → Half → List ℕ → FoxdbgBuffer
set_half b half_a bytes = record b { buffer_a = bytes }
set_half b half_b bytes = record b { buffer_b = bytes }

-- `sizeof(foxdbg_buffer_t)`: seven words and three mutexes of 40 bytes, on 64-bit Linux.
abbrev pub sizeof_buffer : ℕ
sizeof_buffer = 176

-- The state that `foxdbg_buffer_alloc` gives a new buffer.
abbrev pub fresh_buffer : ℕ → List ℕ → List ℕ → FoxdbgBuffer
fresh_buffer size a b = record {
  buffer_size = size;
  buffer_a = a;
  buffer_b = b;
  front_buffer = half_a;
  front_buffer_size = 0;
  back_buffer = half_b;
  back_buffer_size = 0;
  write_mutex = none;
  read_mutex = none;
  swap_mutex = none;
}

-- `p != NULL`
abbrev non_null : Option (List ℕ) → Bool
non_null none = false
non_null (some _) = true

-- The cleanup of `foxdbg_buffer_alloc` where a mutex could not be made: it destroys all three,
-- whichever of them are initialised.
give_up : Bool → Bool → Bool → Os → Os
give_up w r s os =
    free true (free true (free true (mutex_destroy s (mutex_destroy r (mutex_destroy w os)))))

-- `||` stops at the first call of `pthread_mutex_init` that fails.
init_mutexes : ℕ → List ℕ → List ℕ → Os → Option FoxdbgBuffer × Os
unfolding give_up
init_mutexes size a b os =
    let (w, os1) = mutex_init os in
    let (r, os2) = mutex_init os1 in
    let (s, os3) = mutex_init os2 in
    if w
    then (if r
        then (if s
            then (some (fresh_buffer size a b), os3)
            else (none, give_up true true false os3))
        else (none, give_up true false false os2))
    else (none, give_up false false false os1)

alloc_halves : ℕ → Option (List ℕ) → Option (List ℕ) → Os → Option FoxdbgBuffer × Os
alloc_halves size (some a) (some b) os = init_mutexes size a b os
alloc_halves size a b os = (none, free true (free (non_null b) (free (non_null a) os)))

alloc_struct : ℕ → Option (List ℕ) → Os → Option FoxdbgBuffer × Os
alloc_struct size none os = (none, os)
alloc_struct size (some buf) os =
    let (a, os1) = malloc size os in let (b, os2) = malloc size os1 in alloc_halves size a b os2

-- `foxdbg_buffer_alloc`; `none` is the return of `false`.
unfoldable pub alloc : ℕ → Os → Option FoxdbgBuffer × Os
unfolding alloc_struct alloc_halves init_mutexes
alloc size os =
    if size == 0
    then (none, os)
    else (let (buf, os1) = malloc sizeof_buffer os in alloc_struct size buf os1)

-- `foxdbg_buffer_free`. The last call of `free` is that of the struct.
unfoldable pub free_buffer : Option FoxdbgBuffer → Os → Os
free_buffer none os = os
free_buffer (some b) os =
    free true
      (mutex_destroy true (mutex_destroy true (mutex_destroy true (free true (free true os)))))
