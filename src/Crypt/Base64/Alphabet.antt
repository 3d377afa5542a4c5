-- ===== src/Crypt/Base64/Alphabet.antt =====
-- The alphabet of src/crypt/base64.c, written and searched.
use rsmp_gatewa.Common.{
  ℕ, ◌<◌, ◌≡◌, refl, true, false, not, arith, ◌==◌, ==_iff, all_below, all_below_sound,
}
use rsmp_gatewa.Crypt.Base64.{char_of, index_of}

index_table : all_below 64 (λ k. index_of (char_of k) == k) ≡ true
unfolding all_below index_of char_of
index_table = refl

pub index_of-char_of : (k : ℕ) → k < 64 → index_of (char_of k) ≡ k
index_of-char_of k h = (==_iff _ k).0 (all_below_sound 64 _ k index_table h)

padding_table : all_below 64 (λ k. not (char_of k == b'=')) ≡ true
unfolding all_below char_of
padding_table = refl

-- No letter is the padding character.
pub char_of-ne-padding : (k : ℕ) → k < 64 → (char_of k == b'=') ≡ false
char_of-ne-padding k h =
    ground (arith, all_below_sound 64 (λ k. not (char_of k == b'=')) k padding_table h)
