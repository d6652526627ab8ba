-- ===== src/Protocol/Image/Decimal.antt =====
-- The fast printing of the bytes of an image against plain decimal printing.
use foxdbg.Base.{
  ℕ, suc, ◌+◌, ◌-◌, ◌/◌, ◌%◌, ◌≡◌, ◌≤◌, ◌<◌, refl, sym, ◌∙◌, ap, true, false, List, [], ◌∷◌, ◌++◌,
  length, leb, ltb, arith, All, map, Bool-cases, inl, inr,
}
use foxdbg.Protocol.Image.{decimal, show_byte, show_bytes}

-- The texts with a comma between two of them.
pub comma_separated : List (List ℕ) → List ℕ
comma_separated [] = []
comma_separated (x ∷ []) = x
comma_separated (x ∷ y ∷ rest) = x ++ (b',' ∷ comma_separated (y ∷ rest))

decimal_small : (f n : ℕ) → n < 10 → decimal (suc f) n ≡ (48 + n) ∷ []
unfolding decimal
decimal_small f n h = let e : ltb n 10 ≡ true = ground arith in rw e refl

decimal_large : (f n : ℕ) → 10 ≤ n → decimal (suc f) n ≡ decimal f (n / 10) ++ ((48 + n % 10) ∷ [])
unfolding decimal
decimal_large f n h = let e : ltb n 10 ≡ false = ground arith in rw e refl

show_byte-eq-decimal : (b : ℕ) → b < 256 → show_byte b ≡ decimal 10 b
unfolding show_byte
show_byte-eq-decimal b h = elim (Bool-cases (leb 100 b)) [
  | inl e ↦ rw e (
      ap (λ q. (48 + b / 100) ∷ (48 + q) ∷ (48 + b % 10) ∷ []) (omega arith)
      ∙ ap (λ q. ((48 + q) ∷ (48 + b / 10 % 10) ∷ []) ++ ((48 + b % 10) ∷ [])) (omega arith)
      ∙ ap (λ x. (x ++ ((48 + b / 10 % 10) ∷ [])) ++ ((48 + b % 10) ∷ []))
          (sym (decimal_small 7 (b / 10 / 10) (omega arith)))
      ∙ ap (λ x. x ++ ((48 + b % 10) ∷ [])) (sym (decimal_large 8 (b / 10) (ground arith)))
      ∙ sym (decimal_large 9 b (ground arith)))
  | inr e ↦ elim (Bool-cases (leb 10 b)) [
    | inl e' ↦
        rw (e, e')
          (ap (λ x. x ++ ((48 + b % 10) ∷ [])) (sym (decimal_small 8 (b / 10) (ground arith)))
            ∙ sym (decimal_large 9 b (ground arith)))
    | inr e' ↦ rw (e, e') (sym (decimal_small 9 b (ground arith)))
  ]
]

joined :
    (i size : ℕ) (image : List ℕ)
    → All (λ b. b < 256) image
    → i + length image ≡ size
    → show_bytes i size image ≡ comma_separated (map (decimal 10) image)
unfolding show_bytes comma_separated
joined i size [] h e = refl
joined i size (b ∷ []) h e =
    let last : ltb i (size - 1) ≡ false = ground arith in
    rw last (append_nil (show_byte b) ∙ show_byte-eq-decimal b h.0)
  where
    append_nil : (xs : List ℕ) → xs ++ [] ≡ xs
    append_nil [] = refl
    append_nil (x ∷ xs) = ap (λ r. x ∷ r) (append_nil xs)
joined i size (b ∷ c ∷ image) h e =
    let more : ltb i (size - 1) ≡ true = ground arith in
    let rest : show_bytes (i + 1) size (c ∷ image)
        ≡ comma_separated (map (decimal 10) (c ∷ image)) =
      joined (i + 1) size (c ∷ image) h.1 (omega arith) in
    rw more (
      ap (λ r. show_byte b ++ (b',' ∷ r)) rest
      ∙ ap (λ x. x ++ (b',' ∷ comma_separated (map (decimal 10) (c ∷ image))))
          (show_byte-eq-decimal b h.0))

-- The loop over the bytes of an image, each below 256, which prints each digit by a division of its
-- own and tests for the comma by its index, writes what plain decimal printing with a comma between
-- two numbers writes: the empty text for an image of no bytes, and no comma behind the last.
pub show_bytes-eq-decimal :
    (image : List ℕ)
    → All (λ b. b < 256) image
    → show_bytes 0 (length image) image ≡ comma_separated (map (decimal 10) image)
show_bytes-eq-decimal image h = joined 0 (length image) image h (omega arith)
