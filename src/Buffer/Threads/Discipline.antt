-- ===== src/Buffer/Threads/Discipline.antt =====
-- The locking discipline of the calls, as a check on the accesses that a thread has left, and that
-- it is kept by every step.
use foxdbg.Base.{
  ℕ, ◌≡◌, ◌≢◌, refl, Bool, true, false, not, ◌&&◌, List, [], ◌∷◌, ◌++◌, length, leb, ◌==◌, arith,
  ==_refl, ==_iff, Bool-cases, inl, inr,
}
use foxdbg.Outcome.{ok}
use foxdbg.Buffer.{FoxdbgBuffer}
use foxdbg.Buffer.Calls.{
  write, read, swap, Access, lock, unlock, get_back, get_front, copy_in, set_size, exchange,
  copy_out, Local, owns, exec,
}
use foxdbg.Buffer.Threads.{
  Call, write_call, info_call, read_call, call_code, program, System, Step, pick, Reach, start,
  later, init,
}

-- With the swap, read and write mutexes held as the three flags say, the accesses lock and unlock in
-- the one order, touch the buffer only under the mutexes that protect what they touch, and end with
-- no mutex held.
unfoldable pub check : Bool → Bool → Bool → List Access → Bool
check s r w [] = not s && not r && not w
check s r w (lock swap ∷ c) = not s && not r && not w && check true r w c
check s r w (lock read ∷ c) = s && not r && check s true w c
check s r w (lock write ∷ c) = s && not w && check s r true c
check s r w (unlock swap ∷ c) = s && not r && not w && check false r w c
check s r w (unlock read ∷ c) = s && r && check s false w c
check s r w (unlock write ∷ c) = s && w && check s r false c
check s r w (get_back ∷ c) = s && w && check s r w c
check s r w (get_front ∷ c) = s && r && check s r w c
check s r w (copy_in d ∷ c) = s && w && check s r w c
check s r w (set_size n ∷ c) = s && w && check s r w c
check s r w (exchange ∷ c) = s && r && w && check s r w c
check s r w (copy_out f ∷ c) = s && r && check s r w c

-- Whoever does not hold the swap mutex holds none.
pub check-unheld :
    (r w : Bool) (c : List Access) → check false r w c ≡ true → (r ≡ false) × (w ≡ false)
unfolding check
check-unheld r w [] h = ground arith
check-unheld r w (lock swap ∷ c) h = ground arith
check-unheld r w (lock read ∷ c) h = ground arith
check-unheld r w (lock write ∷ c) h = ground arith
check-unheld r w (unlock swap ∷ c) h = ground arith
check-unheld r w (unlock read ∷ c) h = ground arith
check-unheld r w (unlock write ∷ c) h = ground arith
check-unheld r w (_ ∷ c) h = ground arith

call-check :
    (size : ℕ) (c : Call) (rest : List Access)
    → check false false false rest ≡ true
    → check false false false (call_code size c ++ rest) ≡ true
unfolding check
call-check size (write_call d) rest h = elim (Bool-cases (leb (length d) size)) [
  | inl e ↦ rw e h
  | inr e ↦ rw e h
]
call-check size (info_call d) rest h = elim (Bool-cases (leb (length d) size)) [
  | inl e ↦ rw e h
  | inr e ↦ rw e h
]
call-check size (read_call f) rest h = h

pub program-check :
    (size : ℕ) (calls : List Call) → check false false false (program size calls) ≡ true
unfolding program check
program-check size [] = refl
program-check size (c ∷ calls) = call-check size c (program size calls) (program-check size calls)

-- Thread `t`, with `code` left, follows the discipline with the mutexes that it owns.
abbrev pub Follows : ℕ → FoxdbgBuffer → List Access → Type 0
Follows t b code =
    check (owns b.swap_mutex t) (owns b.read_mutex t) (owns b.write_mutex t) code ≡ true

-- The thread that moves keeps to it.
exec-Follows :
    (t : ℕ) (a : Access) (c : List Access) (b : FoxdbgBuffer) (l : Local) {b' : FoxdbgBuffer}
    {l' : Local}
    → Follows t b (a ∷ c)
    → exec t a b l ≡ ok (b', l')
    → Follows t b' c
unfolding check exec
exec-Follows t (lock swap) c b l h e = ground (arith, ==_refl t)
exec-Follows t (lock read) c b l h e = ground (arith, ==_refl t)
exec-Follows t (lock write) c b l h e = ground (arith, ==_refl t)
exec-Follows t (unlock swap) c b l h e = ground arith
exec-Follows t (unlock read) c b l h e = ground arith
exec-Follows t (unlock write) c b l h e = ground arith
exec-Follows t _ c b l h e = ground arith

-- Another thread owns what it owned.
pub record SameOwner (j : ℕ) (b b' : FoxdbgBuffer) : Type 0 where
  pub of_swap : owns b'.swap_mutex j ≡ owns b.swap_mutex j
  pub of_read : owns b'.read_mutex j ≡ owns b.read_mutex j
  pub of_write : owns b'.write_mutex j ≡ owns b.write_mutex j

pub exec-SameOwner :
    (t j : ℕ) (a : Access) (b : FoxdbgBuffer) (l : Local) {b' : FoxdbgBuffer} {l' : Local}
    → t ≢ j
    → exec t a b l ≡ ok (b', l')
    → SameOwner j b b'
unfolding exec
exec-SameOwner t j (lock swap) b l ne e = ground arith
exec-SameOwner t j (lock read) b l ne e = ground arith
exec-SameOwner t j (lock write) b l ne e = ground arith
exec-SameOwner t j (unlock swap) b l ne e = ground arith
exec-SameOwner t j (unlock read) b l ne e = ground arith
exec-SameOwner t j (unlock write) b l ne e = ground arith
exec-SameOwner t j _ b l ne e = ground arith

-- Every thread follows the discipline.
abbrev pub Disciplined : System → Type 0
Disciplined s = (i : ℕ) → Follows i s.buffer (s.code i)

pub Step-Disciplined : {s t : System} → Step s t → Disciplined s → Disciplined t
Step-Disciplined {s} (pick i {a} {rest} {b} {l} e x) d j = elim (Bool-cases (i == j)) [
  | inl same ↦ rw same (
      let i≡j : i ≡ j = (==_iff i j).0 same in
      rw (← i≡j) (exec-Follows i a rest s.buffer (s.locals i) (rw e at (d i)) x))
  | inr other ↦ rw other (
      let o = exec-SameOwner i j a s.buffer (s.locals i) (ground arith) x in
      rw (o.of_swap, o.of_read, o.of_write) (d j))
]

pub init-Disciplined :
    (size : ℕ) (a b : List ℕ) (calls : ℕ → List Call) → Disciplined (init size a b calls)
init-Disciplined size a b calls i = program-check size (calls i)

pub Reach-Disciplined : {s t : System} → Disciplined s → Reach s t → Disciplined t
Reach-Disciplined d start = d
Reach-Disciplined d (later r st) = Step-Disciplined st (Reach-Disciplined d r)
