-- ===== src/Crypt/Base64/RoundTrip.antt =====
-- What src/crypt/base64.c encodes, it decodes.
use rsmp_gatewa.Common.{
  ℕ, ◌+◌, ◌*◌, ◌/◌, ◌%◌, ◌<◌, ◌≡◌, refl, List, [], ◌∷◌, arith, length, IsBytes, CStr, returned,
}
use rsmp_gatewa.Crypt.Base64.{
  char_of, base64_encode, index_of, decode_cells, place, from_end, padding, decoded_length,
  base64_decode,
}
use rsmp_gatewa.Crypt.Base64.Bounds.{padding-quad}
use rsmp_gatewa.Crypt.Base64.Alphabet.{index_of-char_of, char_of-ne-padding}

-- The three bytes of a group, from the letters that the encoder wrote for them.
first_byte :
    (a b : ℕ)
    → a < 256
    → b < 256
    → (index_of (char_of (a / 4)) * 4 + index_of (char_of (a % 4 * 16 + b / 16)) / 16) % 256 ≡ a
first_byte a b h k = omega (
  arith,
  index_of-char_of (a / 4) (omega arith),
  index_of-char_of (a % 4 * 16 + b / 16) (omega arith),
)

second_byte :
    (a b c : ℕ)
    → a < 256
    → b < 256
    → c < 256
    → (index_of (char_of (a % 4 * 16 + b / 16)) % 16 * 16
          + index_of (char_of (b % 16 * 4 + c / 64)) / 4)
        % 256
      ≡ b
second_byte a b c h k l = omega (
  arith,
  index_of-char_of (a % 4 * 16 + b / 16) (omega arith),
  index_of-char_of (b % 16 * 4 + c / 64) (omega arith),
)

third_byte :
    (b c : ℕ)
    → b < 256
    → c < 256
    → (index_of (char_of (b % 16 * 4 + c / 64)) % 4 * 64 + index_of (char_of (c % 64))) % 256 ≡ c
third_byte b c h k = omega (
  arith,
  index_of-char_of (b % 16 * 4 + c / 64) (omega arith),
  index_of-char_of (c % 64) (omega arith),
)

pub place-decode_cells :
    (xs : List ℕ) → IsBytes xs → place (length xs) (decode_cells (base64_encode xs)) ≡ returned xs
unfolding base64_encode decode_cells place
place-decode_cells [] h = refl
place-decode_cells (a ∷ []) h = ground (arith, first_byte a 0 h.0 (omega arith))
place-decode_cells (a ∷ b ∷ []) h = ground (
  arith,
  first_byte a b h.0 h.1.0,
  second_byte a b 0 h.0 h.1.0 (omega arith),
  char_of-ne-padding (b % 16 * 4) (omega arith),
)
place-decode_cells (a ∷ b ∷ c ∷ xs) h = ground (
  arith,
  first_byte a b h.0 h.1.0,
  second_byte a b c h.0 h.1.0 h.1.1.0,
  third_byte b c h.1.0 h.1.1.0,
  char_of-ne-padding (b % 16 * 4 + c / 64) (omega arith),
  char_of-ne-padding (c % 64) (omega arith),
  place-decode_cells xs h.1.1.1,
)

pub length-base64_encode : (xs : List ℕ) → length (base64_encode xs) ≡ (length xs + 2) / 3 * 4
unfolding base64_encode
length-base64_encode [] = omega arith
length-base64_encode (a ∷ []) = omega arith
length-base64_encode (a ∷ b ∷ []) = omega arith
length-base64_encode (a ∷ b ∷ c ∷ xs) = omega (arith, length-base64_encode xs)

-- How many bytes the encoder was short of a full last group.
padding-base64_encode :
    (a : ℕ) (xs : List ℕ)
    → IsBytes (a ∷ xs)
    → padding (base64_encode (a ∷ xs)) + length (a ∷ xs) ≡ (length xs + 3) / 3 * 3
unfolding base64_encode padding from_end
padding-base64_encode a [] h = omega arith
padding-base64_encode a (b ∷ []) h =
    rw (char_of-ne-padding (b % 16 * 4) (omega arith)) (omega arith)
padding-base64_encode a (b ∷ c ∷ []) h =
    rw (char_of-ne-padding (c % 64) (omega arith)) (omega arith)
padding-base64_encode a (b ∷ c ∷ d ∷ xs) h = omega (
  arith,
  padding-quad (char_of (a / 4)) (char_of (a % 4 * 16 + b / 16)) (char_of (b % 16 * 4 + c / 64))
      (char_of (c % 64)) (base64_encode (d ∷ xs)) (omega (arith, length-base64_encode (d ∷ xs))),
  padding-base64_encode d xs h.1.1.1,
)

decoded_length-base64_encode :
    (a : ℕ) (xs : List ℕ)
    → IsBytes (a ∷ xs)
    → decoded_length (base64_encode (a ∷ xs)) ≡ length (a ∷ xs)
unfolding decoded_length
decoded_length-base64_encode a xs h =
    omega (arith, length-base64_encode (a ∷ xs), padding-base64_encode a xs h)

base64_decode-place :
    (s : CStr)
    → 0 < length s
    → length s % 4 ≡ 0
    → base64_decode s ≡ place (decoded_length s) (decode_cells s)
unfolding base64_decode
base64_decode-place [] h e = absurd (omega arith)
base64_decode-place (c ∷ s) h e = ground arith

-- `base64_decode` gives back every nonempty buffer that `base64_encode` encoded.
pub base64_decode-base64_encode :
    (a : ℕ) (xs : List ℕ)
    → IsBytes (a ∷ xs)
    → base64_decode (base64_encode (a ∷ xs)) ≡ returned (a ∷ xs)
base64_decode-base64_encode a xs h =
    rw
      (
        base64_decode-place (base64_encode (a ∷ xs)) (omega (arith, length-base64_encode (a ∷ xs)))
            (omega (arith, length-base64_encode (a ∷ xs))),
        decoded_length-base64_encode a xs h,
      )
      (place-decode_cells (a ∷ xs) h)
