-- ===== src/Buffer/Alloc.antt =====
-- What `foxdbg_buffer_alloc` and `foxdbg_buffer_free` do to memory, on every pattern of failures.
use foxdbg.Base.{
  ℕ, ◌+◌, ◌<◌, ◌≡◌, Bool, false, List, ◌∷◌, Option, none, some, length, arith, inl, inr, ◌==◌,
  Bool-cases,
}
use foxdbg.Os.{Os, malloc, free, mutex_init, mutex_destroy}
use foxdbg.Os.Laws.{Grows, Malloced, malloc-Malloced, mutex_init-Inited}
use foxdbg.Buffer.{
  FoxdbgBuffer, fresh_buffer, alloc, free_buffer, alloc_halves, alloc_struct, init_mutexes,
  sizeof_buffer,
}

-- A failed call gives back what it took; a call that succeeds holds three blocks, three mutexes and
-- an empty buffer whose halves are of the size that was asked for.
abbrev pub Allocated : ℕ → Os → Option FoxdbgBuffer × Os → Type 0
Allocated size os (none, os') = (os'.live ≡ os.live) × (os'.mutexes ≡ os.mutexes)
Allocated size os (some b, os') =
    Grows os os' 3 3
    × (0 < size)
    × (b ≡ fresh_buffer size b.buffer_a b.buffer_b)
    × (length b.buffer_a ≡ size)
    × (length b.buffer_b ≡ size)

init_mutexes-lem :
    (size : ℕ) (a b : List ℕ) (os os0 : Os)
    → 0 < size
    → length a ≡ size
    → length b ≡ size
    → Grows os0 os 3 0
    → Allocated size os0 (init_mutexes size a b os)
unfolding init_mutexes free mutex_destroy
init_mutexes-lem size a b os os0 pos la lb g = ground (
  arith,
  mutex_init-Inited os,
  mutex_init-Inited (mutex_init os).1,
  mutex_init-Inited (mutex_init (mutex_init os).1).1,
)

alloc_halves-lem :
    (size : ℕ) (a b : Option (List ℕ)) (os0 os1 os2 os : Os)
    → 0 < size
    → Grows os0 os1 1 0
    → Malloced size os1 (a, os2)
    → Malloced size os2 (b, os)
    → Allocated size os0 (alloc_halves size a b os)
unfolding alloc_halves free
alloc_halves-lem size (some a) (some b) os0 os1 os2 os pos g ha hb =
    init_mutexes-lem size a b os os0 pos ha.1 hb.1 (omega arith)
alloc_halves-lem size (some a) none os0 os1 os2 os pos g ha hb = omega arith
alloc_halves-lem size none (some b) os0 os1 os2 os pos g ha hb = omega arith
alloc_halves-lem size none none os0 os1 os2 os pos g ha hb = omega arith

alloc_struct-lem :
    (size : ℕ) (buf : Option (List ℕ)) (os0 os : Os)
    → 0 < size
    → Malloced sizeof_buffer os0 (buf, os)
    → Allocated size os0 (alloc_struct size buf os)
unfolding alloc_struct
alloc_struct-lem size none os0 os pos h = omega arith
alloc_struct-lem size (some buf) os0 os pos h =
    let m1 = malloc size os in
    let m2 = malloc size m1.1 in
    alloc_halves-lem size m1.0 m2.0 os0 os m1.1 m2.1 pos h.0 (malloc-Malloced size os)
      (malloc-Malloced size m1.1)

-- `foxdbg_buffer_alloc` either returns false, and then no block and no mutex that it made is left;
-- or it returns a buffer for a size above 0, in the state that the code writes (the front half is
-- `buffer_a`, both populated sizes are 0), with two halves of that size, and exactly three more
-- blocks and three more mutexes are held. This is so whichever of its requests fail.
pub alloc-Allocated : (size : ℕ) (os : Os) → Allocated size os (alloc size os)
unfolding alloc
alloc-Allocated size os = elim (Bool-cases (size == 0)) [
  | inl e ↦ rw e (omega arith)
  | inr e ↦ rw e (
      let m = malloc sizeof_buffer os in
      alloc_struct-lem size m.0 os m.1 (ground arith) (malloc-Malloced sizeof_buffer os))
]

-- A buffer that was allocated and is freed leaves as many blocks and mutexes as there were before,
-- and so does an allocation that failed.
pub free_buffer-alloc :
    (size : ℕ) (os : Os)
    → let (b, os1) = alloc size os in
      let os2 = free_buffer b os1 in (os2.live ≡ os.live) × (os2.mutexes ≡ os.mutexes)
unfolding free_buffer free mutex_destroy
free_buffer-alloc size os = ground (arith, alloc-Allocated size os)

-- Where the three blocks are served, for a size above 0, and `pthread_mutex_init` fails at its
-- first call, `foxdbg_buffer_alloc` returns false and its cleanup destroys three mutexes that were
-- never initialised.
pub alloc-stray :
    (size : ℕ) (f g h : ℕ → ℕ) (more : List (Option (ℕ → ℕ))) (rest : List Bool) (os : Os)
    → 0 < size
    → os.mallocs ≡ some f ∷ some g ∷ some h ∷ more
    → os.inits ≡ false ∷ rest
    → let (b, os1) = alloc size os in (b ≡ none) × (os1.stray ≡ os.stray + 3)
unfolding alloc malloc mutex_init free mutex_destroy
alloc-stray size f g h more rest os pos em ei = ground arith
