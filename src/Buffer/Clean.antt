-- ===== src/Buffer/Clean.antt =====
-- `foxdbg_buffer_alloc` where `pthread_mutex_init` does not fail.
use foxdbg.Base.{ℕ, refl, Bool, true, List, Option, none, some, ◌==◌, arith, Bool-cases, inl, inr}
use foxdbg.Os.{Os, malloc, free, mutex_init}
use foxdbg.Os.Granted.{Clean, Clean-then, Clean-most, malloc-Clean, free-Clean, mutex_init-granted}
use foxdbg.Buffer.{alloc, alloc_halves, alloc_struct, init_mutexes, sizeof_buffer, non_null}

init_mutexes-Clean : (size : ℕ) (a b : List ℕ) (os : Os) → Clean 3 os (init_mutexes size a b os).1
unfolding init_mutexes
init_mutexes-Clean size a b os h =
    let os1 = (mutex_init os).1 in
    let os2 = (mutex_init os1).1 in
    let (w, s1, g1) = mutex_init-granted os (omega arith) in
    let (r, s2, g2) = mutex_init-granted os1 (omega arith) in
    let (s, s3, g3) = mutex_init-granted os2 (omega arith) in
    rw (w, r, s) (omega arith, omega arith)

three_frees : (a b : Bool) (os : Os) → Clean 3 os (free true (free b (free a os)))
three_frees a b os =
    let os1 = free a os in
    let os2 = free b os1 in
    Clean-most 0 3 os (free true os2) (omega arith) (
      Clean-then 0 0 os os2 (free true os2)
        (Clean-then 0 0 os os1 os2 (free-Clean a os) (free-Clean b os1)) (free-Clean true os2))

alloc_halves-Clean :
    (size : ℕ) (a b : Option (List ℕ)) (os : Os) → Clean 3 os (alloc_halves size a b os).1
unfolding alloc_halves
alloc_halves-Clean size (some a) (some b) os = init_mutexes-Clean size a b os
alloc_halves-Clean size none b os = three_frees (non_null none) (non_null b) os
alloc_halves-Clean size (some a) none os = three_frees (non_null (some a)) (non_null none) os

alloc_struct-Clean :
    (size : ℕ) (buf : Option (List ℕ)) (os : Os) → Clean 3 os (alloc_struct size buf os).1
unfolding alloc_struct
alloc_struct-Clean size none os = λ h. (refl, omega arith)
alloc_struct-Clean size (some buf) os =
    let m1 = malloc size os in
    let m2 = malloc size m1.1 in
    let r = (alloc_halves size m1.0 m2.0 m2.1).1 in
    Clean-then 0 3 os m1.1 r (malloc-Clean size os)
      (Clean-then 0 3 m1.1 m2.1 r (malloc-Clean size m1.1) (alloc_halves-Clean size m1.0 m2.0 m2.1))

-- Where the next three calls of `pthread_mutex_init` succeed, `foxdbg_buffer_alloc` destroys no mutex that
-- is not initialised, and makes no more than those calls, whichever calls of `malloc` fail.
pub alloc-Clean : (size : ℕ) (os : Os) → Clean 3 os (alloc size os).1
unfolding alloc
alloc-Clean size os = elim (Bool-cases (size == 0)) [
  | inl e ↦ rw e (λ h. (refl, omega arith))
  | inr e ↦ rw e (
      let m = malloc sizeof_buffer os in
      Clean-then 0 3 os m.1 (alloc_struct size m.0 m.1).1 (malloc-Clean sizeof_buffer os)
        (alloc_struct-Clean size m.0 m.1))
]
