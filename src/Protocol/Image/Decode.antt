-- ===== src/Protocol/Image/Decode.antt =====
-- The bytes of the image can be read back from the text.
use foxdbg.Base.{
  ℕ, suc, ◌+◌, ◌-◌, ◌*◌, ◌/◌, ◌%◌, ◌≡◌, ◌<◌, ap, ◌∙◌, true, false, List, [], ◌∷◌, ◌++◌, length, leb,
  ltb, ◌==◌, if◌then◌else◌, arith, All, Bool-cases, inl, inr,
}
use foxdbg.Protocol.Image.{show_byte, show_bytes}

-- A reader of decimal numbers with commas between them; `n` is what the digits so far spell.
pub read_numbers : ℕ → List ℕ → List ℕ
read_numbers n [] = n ∷ []
read_numbers n (c ∷ cs) =
    if c == b',' then n ∷ read_numbers 0 cs else read_numbers (n * 10 + (c - 48)) cs

read-digit :
    (n d : ℕ) (rest : List ℕ) → read_numbers n ((48 + d) ∷ rest) ≡ read_numbers (n * 10 + d) rest
unfolding read_numbers
read-digit n d rest = ground arith

read-show_byte :
    (b : ℕ) (rest : List ℕ) → b < 256 → read_numbers 0 (show_byte b ++ rest) ≡ read_numbers b rest
unfolding show_byte read_numbers
read-show_byte b rest h = elim (Bool-cases (leb 100 b)) [
  | inl e ↦ rw e (
      read-digit 0 (b / 100) ((48 + b / 10 % 10) ∷ (48 + b % 10) ∷ rest)
      ∙ read-digit (0 * 10 + b / 100) (b / 10 % 10) ((48 + b % 10) ∷ rest)
      ∙ read-digit ((0 * 10 + b / 100) * 10 + b / 10 % 10) (b % 10) rest
      ∙ ap (λ n. read_numbers n rest) (omega arith))
  | inr e ↦ elim (Bool-cases (leb 10 b)) [
    | inl e' ↦
        rw (e, e')
          (read-digit 0 (b / 10) ((48 + b % 10) ∷ rest)
            ∙ read-digit (0 * 10 + b / 10) (b % 10) rest
            ∙ ap (λ n. read_numbers n rest) (omega arith))
    | inr e' ↦ rw (e, e') (read-digit 0 b rest ∙ ap (λ n. read_numbers n rest) (omega arith))
  ]
]

read_rest :
    (i size : ℕ) (b : ℕ) (image : List ℕ)
    → All (λ b. b < 256) (b ∷ image)
    → i + suc (length image) ≡ size
    → read_numbers 0 (show_bytes i size (b ∷ image)) ≡ b ∷ image
unfolding show_bytes read_numbers
read_rest i size b [] h e =
    let last : ltb i (size - 1) ≡ false = ground arith in rw last (read-show_byte b [] h.0)
read_rest i size b (c ∷ image) h e =
    let more : ltb i (size - 1) ≡ true = ground arith in
    rw more (
      read-show_byte b (b',' ∷ show_bytes (i + 1) size (c ∷ image)) h.0
      ∙ ap (λ r. b ∷ r) (read_rest (i + 1) size c image h.1 (omega arith)))

-- The text between the brackets, of an image of at least one byte, each below 256, is read back as
-- the bytes of the image by a reader of decimal numbers that are separated by commas.
pub read-show_bytes :
    (image : List ℕ)
    → All (λ b. b < 256) image
    → 0 < length image
    → read_numbers 0 (show_bytes 0 (length image) image) ≡ image
read-show_bytes [] h pos = elim pos [ ]
read-show_bytes (b ∷ image) h pos = read_rest 0 (length (b ∷ image)) b image h (omega arith)
