-- ===== src/Base/Memory.antt =====
-- Two copies side by side into one block, and what is read across them.
use Prim.Native.Nat.{ℕ, ◌+◌, ◌≤◌}
use mathlib.Core.Path.{◌≡◌}
use mathlib.Core.List.{List, ◌++◌, append_assoc}
use mathlib.Core.Option.{some}
use native.Mathlib.Omega.{arith}
use foxdbg.Base.Lists.{
  length, take, drop, length-append, length-take, take-append, drop-append, memcpy, length-memcpy,
}

module _ {ℓ} {A : Type ℓ} where
  drop_past : (n : ℕ) (xs ys : List A) → length xs ≡ n → drop n (xs ++ ys) ≡ ys
  drop_past n xs ys e = rw (← e) (drop-append xs ys)

  take_past : (n : ℕ) (xs ys : List A) → length xs ≡ n → take n (xs ++ ys) ≡ xs
  take_past n xs ys e = rw (← e) (take-append xs ys)

  length-take_le : (n : ℕ) (xs : List A) → n ≤ length xs → length (take n xs) ≡ n
  length-take_le n xs h = omega (arith, length-take n xs)

-- A copy that succeeds, taken apart.
pub memcpy-parts :
    (dst : List ℕ) (at : ℕ) (src : List ℕ) {out : List ℕ}
    → memcpy dst at src ≡ some out
    → (at + length src ≤ length dst) × (out ≡ take at dst ++ (src ++ drop (at + length src) dst))
unfolding memcpy
memcpy-parts dst at src e = ground arith

-- A copy in range succeeds.
pub memcpy-in_range :
    (dst : List ℕ) (at : ℕ) (src : List ℕ)
    → at + length src ≤ length dst
    → (out : List ℕ) × (memcpy dst at src ≡ some out) × (length out ≡ length dst)
unfolding memcpy
memcpy-in_range dst at src h =
    let done : memcpy dst at src ≡ some (take at dst ++ (src ++ drop (at + length src) dst)) =
      ground arith in
    (_, done, length-memcpy dst at src done)

-- What was copied in can be read back.
pub memcpy-read :
    (dst : List ℕ) (at : ℕ) (src : List ℕ) {out : List ℕ}
    → memcpy dst at src ≡ some out
    → take (length src) (drop at out) ≡ src
memcpy-read dst at src e =
    let p = memcpy-parts dst at src e in
    rw
      (
        p.1,
        drop_past at (take at dst) (src ++ drop (at + length src) dst)
            (length-take_le at dst (omega (arith, p.0))),
      )
      (take-append src (drop (at + length src) dst))

-- `body` is copied behind the place of `head`, then `head` in front of it: from there on the block
-- reads `head` and `body`.
pub memcpy-memcpy :
    (dst mid out : List ℕ) (at k : ℕ) (head body : List ℕ)
    → length head ≡ k
    → memcpy dst (at + k) body ≡ some mid
    → memcpy mid at head ≡ some out
    → take (length body + k) (drop at out) ≡ head ++ body
memcpy-memcpy dst mid out at k head body lh e1 e2 =
    rw
      (
        p2.1,
        drop_past at (take at mid) (head ++ drop (at + length head) mid)
            (length-take_le at mid (omega (arith, p2.0))),
        lh,
        p1.1,
      )
      (rw
        (
          drop_past (at + k) (take (at + k) dst) (body ++ drop (at + k + length body) dst)
              (length-take_le (at + k) dst (omega (arith, p1.0))),
          ← append_assoc head body (drop (at + k + length body) dst),
        )
        (take_past (length body + k) (head ++ body) (drop (at + k + length body) dst)
          (omega (arith, length-append head body))))
  where
    p1 :
        (at + k + length body ≤ length dst)
        × (mid ≡ take (at + k) dst ++ (body ++ drop (at + k + length body) dst))
    p1 = memcpy-parts dst (at + k) body e1

    p2 :
        (at + length head ≤ length mid)
        × (out ≡ take at mid ++ (head ++ drop (at + length head) mid))
    p2 = memcpy-parts mid at head e2
