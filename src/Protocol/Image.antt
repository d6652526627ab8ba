-- ===== src/Protocol/Image.antt =====
-- `encode_image_byte_array` of lib/foxdbg_protocol.cpp: the JSON text of a compressed image.
pub mod Bounds
pub mod Decode
pub mod Decimal
use foxdbg.Base.{
  ℕ, zero, suc, ◌+◌, ◌-◌, ◌*◌, ◌/◌, ◌%◌, ◌^◌, Bool, true, false, List, [], ◌∷◌, ◌++◌, Option, none,
  some, ℤ, pos, negsuc, length, leb, ltb, if◌then◌else◌, memcpy, codes,
}
use foxdbg.Outcome.{Outcome, ok, fault}

-- The decimal digits of a number below 10 ^ fuel, as `sprintf` prints them.
unfoldable pub decimal : ℕ → ℕ → List ℕ
decimal zero n = []
decimal (suc fuel) n =
    let rest = decimal fuel (n / 10) in
    if ltb n 10 then (48 + n) ∷ [] else rest ++ ((48 + n % 10) ∷ [])

-- `sprintf ("%d")`: an `int` has at most ten digits.
pub show_int : ℤ → List ℕ
unfolding decimal
show_int (pos n) = decimal 10 n
show_int (negsuc n) = b'-' ∷ decimal 10 (n + 1)

-- One byte of the image.
unfoldable pub show_byte : ℕ → List ℕ
show_byte byte =
    if leb 100 byte
    then (48 + byte / 100) ∷ (48 + byte / 10 % 10) ∷ (48 + byte % 10) ∷ []
    else if leb 10 byte
    then (48 + byte / 10) ∷ (48 + byte % 10) ∷ []
    else (48 + byte) ∷ []

-- The loop, from index `i` on. `compressedSize - 1` is a `size_t`, and the loop runs only if it is
-- above 0.
unfoldable pub show_bytes : ℕ → ℕ → List ℕ → List ℕ
unfolding show_byte
show_bytes i size [] = []
show_bytes i size (byte ∷ rest) =
    show_byte byte ++ ((if ltb i (size - 1) then b',' ∷ [] else []) ++ show_bytes (i + 1) size rest)

-- All that is written, without the terminating NUL.
unfoldable pub image_text : ℤ → ℤ → ℤ → List ℕ → List ℕ
unfolding show_int show_bytes
image_text width height components image =
    codes "{\"width\":"
    ++ (show_int width
        ++ (codes ",\"height\":"
            ++ (show_int height
                ++ (codes ",\"channels\":"
                    ++ (show_int components
                        ++ (codes ",\"encoding\":\"jpeg\",\"data\":["
                            ++ (show_bytes 0 (length image) image ++ codes "]}")))))))

-- The estimate of the space needed, in `size_t`.
abbrev pub estimated_total_size : ℕ → ℕ
estimated_total_size compressed_size = (100 + compressed_size * 4 % 2 ^ 64 + 10) % 2 ^ 64

-- The number of bytes written, and the buffer. The text and its NUL go in from the start of the buffer,
-- each byte behind the last.
unfoldable pub encode_image_byte_array : List ℕ → ℤ → ℤ → ℤ → List ℕ → Outcome (ℕ × List ℕ)
unfolding image_text
encode_image_byte_array buffer width height components image =
    if ltb (length buffer) (estimated_total_size (length image))
    then ok (0, buffer)
    else (let text = image_text width height components image in
        elim (memcpy buffer 0 (text ++ (0 ∷ []))) [
          | none ↦ fault
          | some out ↦ ok (length text, out)
        ])
