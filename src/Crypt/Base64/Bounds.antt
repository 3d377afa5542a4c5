-- ===== src/Crypt/Base64/Bounds.antt =====
-- The buffer that `base64_decode` of src/crypt/base64.c allocates against what its loop writes.
use rsmp_gatewa.Common.{
  ℕ, zero, suc, ◌+◌, ◌-◌, ◌*◌, ◌/◌, ◌%◌, ◌≤◌, ◌<◌, ◌≡◌, ◌≢◌, inl, inr, [], ◌∷◌, arith, ◌==◌, ==_iff,
  length, Bool-cases, CStr, fault, map_outcome-ne-fault,
}
use rsmp_gatewa.Crypt.Base64.{decode_cells, place, from_end, padding, decoded_length, base64_decode}

-- The last characters of a string are those of its rest, where that is long enough.
pub from_end-quad :
    (c1 c2 c3 c4 k : ℕ) (s : CStr)
    → k < length s
    → from_end (c1 ∷ c2 ∷ c3 ∷ c4 ∷ s) k ≡ from_end s k
unfolding from_end
from_end-quad c1 c2 c3 c4 k s h =
    let e : length (c1 ∷ c2 ∷ c3 ∷ c4 ∷ s) - 1 - k ≡ suc (suc (suc (suc (length s - 1 - k)))) =
      omega arith in
    rw e

pub padding-quad :
    (c1 c2 c3 c4 : ℕ) (s : CStr) → 1 < length s → padding (c1 ∷ c2 ∷ c3 ∷ c4 ∷ s) ≡ padding s
unfolding padding
padding-quad c1 c2 c3 c4 s h =
    rw (from_end-quad c1 c2 c3 c4 0 s (omega arith), from_end-quad c1 c2 c3 c4 1 s h)

padding-le : (s : CStr) → padding s ≤ 2
unfolding padding
padding-le s = ground arith

place-decode_cells_fits :
    (n : ℕ) (s : CStr)
    → length s ≡ 4 * (n + 1)
    → place (3 * (n + 1) - padding s) (decode_cells s) ≢ fault
unfolding place decode_cells
place-decode_cells_fits n [] e = absurd (omega arith)
place-decode_cells_fits n (c1 ∷ []) e = absurd (omega arith)
place-decode_cells_fits n (c1 ∷ c2 ∷ []) e = absurd (omega arith)
place-decode_cells_fits n (c1 ∷ c2 ∷ c3 ∷ []) e = absurd (omega arith)
place-decode_cells_fits (suc n) (c1 ∷ c2 ∷ c3 ∷ c4 ∷ []) e = absurd (omega arith)
place-decode_cells_fits zero (c1 ∷ c2 ∷ c3 ∷ c4 ∷ []) e = unfold padding from_end in ground arith
place-decode_cells_fits zero (c1 ∷ c2 ∷ c3 ∷ c4 ∷ c5 ∷ s) e = absurd (omega arith)
place-decode_cells_fits (suc n) (c1 ∷ c2 ∷ c3 ∷ c4 ∷ c5 ∷ s) e =
    let room : 3 * (suc n + 1) - padding (c1 ∷ c2 ∷ c3 ∷ c4 ∷ c5 ∷ s)
        ≡ suc (suc (suc (3 * (n + 1) - padding (c5 ∷ s)))) =
      omega (arith, padding-quad c1 c2 c3 c4 (c5 ∷ s) (omega arith), padding-le (c5 ∷ s)) in
    rw room (
      map_outcome-ne-fault _ _ (
        map_outcome-ne-fault _ _
          (map_outcome-ne-fault _ _ (place-decode_cells_fits n (c5 ∷ s) (omega arith)))))

-- On every nonempty string `base64_decode` stays within the buffer it allocates and within its
-- input, valid base64 or not.
pub base64_decode-ne-fault : (s : CStr) → 0 < length s → base64_decode s ≢ fault
unfolding base64_decode decoded_length
base64_decode-ne-fault [] h = absurd (omega arith)
base64_decode-ne-fault (c ∷ s) h = elim (Bool-cases (length (c ∷ s) % 4 == 0)) [
  | inl whole ↦
      let quads : length (c ∷ s) % 4 ≡ 0 = (==_iff _ _).0 whole in
      let n : ℕ = length (c ∷ s) / 4 - 1 in
      let room : decoded_length (c ∷ s) ≡ 3 * (n + 1) - padding (c ∷ s) = omega arith in
      rw (whole, room) (place-decode_cells_fits n (c ∷ s) (omega arith))
  | inr cut ↦ rw cut (λ e. cc)
]
