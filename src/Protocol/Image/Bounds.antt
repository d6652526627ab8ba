-- ===== src/Protocol/Image/Bounds.antt =====
-- The encoder stays within its buffer.
use foxdbg.Base.{
  ℕ, zero, suc, ◌+◌, ◌-◌, ◌*◌, ◌/◌, ◌%◌, ◌^◌, ◌≡◌, ◌≤◌, ◌<◌, refl, false, List, [], ◌∷◌, ◌++◌, ℤ,
  pos, negsuc, length, ltb, if◌then◌else◌, drop, arith, length-append, length-drop, memcpy-zero,
  Bool-cases, inl, inr,
}
use foxdbg.Outcome.{ok}
use foxdbg.Protocol.Image.{
  decimal, show_int, show_byte, show_bytes, image_text, estimated_total_size,
  encode_image_byte_array,
}

length-decimal : (fuel n : ℕ) → length (decimal fuel n) ≤ fuel
unfolding decimal
length-decimal zero n = omega arith
length-decimal (suc fuel) n =
    let ih = length-decimal fuel (n / 10) in
    let la = length-append (decimal fuel (n / 10)) ((48 + n % 10) ∷ []) in
    elim (Bool-cases (ltb n 10)) [ inl e ↦ rw e (omega arith) | inr e ↦ rw e (omega arith) ]

length-show_int : (n : ℤ) → length (show_int n) ≤ 11
unfolding show_int
length-show_int (pos n) = omega (arith, length-decimal 10 n)
length-show_int (negsuc n) = omega (arith, length-decimal 10 (n + 1))

length-show_byte : (b : ℕ) → length (show_byte b) ≤ 3
unfolding show_byte
length-show_byte b = ground arith

-- Three digits and a comma for each byte, but no comma behind the last.
length-show_bytes : (i size : ℕ) (bs : List ℕ) → length (show_bytes i size bs) ≤ 4 * length bs
unfolding show_bytes
length-show_bytes i size [] = omega arith
length-show_bytes i size (b ∷ bs) =
    let ih = length-show_bytes (i + 1) size bs in
    let digits = length-show_byte b in
    elim (Bool-cases (ltb i (size - 1))) [
      | inl e ↦ rw e (omega (arith, length-append {0}))
      | inr e ↦ rw e (omega (arith, length-append {0}))
    ]

pub length-image_text :
    (w h c : ℤ) (image : List ℕ) → length (image_text w h c image) ≤ 93 + 4 * length image
unfolding image_text
length-image_text w h c image =
    omega (arith, length-append {0}, length-show_int, length-show_bytes 0 (length image) image)

room :
    (buffer text : List ℕ) (n : ℕ)
    → length text ≤ 93 + 4 * n
    → ltb (length buffer) (110 + 4 * n) ≡ false
    → length (text ++ (0 ∷ [])) ≤ length buffer
room buffer text n h e = ground (arith, length-append text (0 ∷ []))

-- For an image of fewer than 2 ^ 61 bytes and any three `int`s, the encoder gives up, with 0 and the
-- buffer as it was, exactly if the buffer is smaller than four bytes for each byte of the image and
-- 110 more. Otherwise it writes the text and a NUL from the start of the buffer, within the buffer,
-- leaves the rest of it alone and returns the length of the text.
pub encode-in_bounds :
    (buffer image : List ℕ) (w h c : ℤ)
    → length image < 2 ^ 61
    → let text = image_text w h c image in
      encode_image_byte_array buffer w h c image ≡ (
        if ltb (length buffer) (110 + 4 * length image)
        then ok (0, buffer)
        else ok (length text, (text ++ (0 ∷ [])) ++ drop (length (text ++ (0 ∷ []))) buffer))
unfolding encode_image_byte_array
encode-in_bounds buffer image w h c small =
    let text = image_text w h c image in
    let estimate : estimated_total_size (length image) ≡ 110 + 4 * length image = omega arith in
    elim (Bool-cases (ltb (length buffer) (110 + 4 * length image))) [
      | inl e ↦ rw (estimate, e) refl
      | inr e ↦
          rw (estimate, e)
            (rw
              (memcpy-zero buffer (text ++ (0 ∷ []))
                (room buffer text (length image) (length-image_text w h c image) e))
              refl)
    ]

-- In either case the encoder returns, and the buffer keeps its length.
pub encode-keeps :
    (buffer image : List ℕ) (w h c : ℤ)
    → length image < 2 ^ 61
    → (n : ℕ) × (out : List ℕ) × (encode_image_byte_array buffer w h c image ≡ ok (n, out))
      × (length out ≡ length buffer)
encode-keeps buffer image w h c small =
    let text = image_text w h c image in
    let whole = encode-in_bounds buffer image w h c small in
    elim (Bool-cases (ltb (length buffer) (110 + 4 * length image))) [
      | inl e ↦ (0, buffer, rw e at whole, refl)
      | inr e ↦ (
        length text,
        (text ++ (0 ∷ [])) ++ drop (length (text ++ (0 ∷ []))) buffer,
        rw e at whole,
        omega (
          arith,
          room buffer text (length image) (length-image_text w h c image) e,
          length-append (text ++ (0 ∷ [])) (drop (length (text ++ (0 ∷ []))) buffer),
          length-drop (length (text ++ (0 ∷ []))) buffer,
        ),
      )
    ]
