-- ===== src/Crypt/Base64.antt =====
-- src/crypt/base64.c. An input buffer is the list of its bytes, each below 256. Where the source
-- joins two fields that share no bit by `|`, the model adds them.
-- The decoder writes three cells for each four characters, some of them not at all: `none` in
-- `decode_cells`. `place` runs these writes on the zeroed buffer of `decoded_length` bytes, where a
-- write past its end is `fault`. So is the read of `input[input_length - 1]` of an empty string.
pub mod Alphabet
pub mod RoundTrip
pub mod Bounds
pub mod Plain
use rsmp_gatewa.Common.{
  ℕ, zero, suc, ◌+◌, ◌-◌, ◌*◌, ◌/◌, ◌%◌, Option, none, some, List, [], ◌∷◌, ◌==◌, if◌then◌else◌,
  length, get_or, replicate, codes, CStr, Outcome, returned, failed, fault, map_outcome,
}

abbrev pub base64_chars : CStr
base64_chars = codes "ABCDEFGHIJKLMNOPQRSTUVWXYZabcdefghijklmnopqrstuvwxyz0123456789+/"

unfoldable pub char_of : ℕ → ℕ
char_of k = get_or base64_chars k 0

unfoldable pub base64_encode : List ℕ → CStr
base64_encode [] = []
base64_encode (a ∷ []) = char_of (a / 4) ∷ char_of (a % 4 * 16) ∷ b'=' ∷ b'=' ∷ []
base64_encode (a ∷ b ∷ []) =
    char_of (a / 4) ∷ char_of (a % 4 * 16 + b / 16) ∷ char_of (b % 16 * 4) ∷ b'=' ∷ []
base64_encode (a ∷ b ∷ c ∷ xs) =
    char_of (a / 4)
    ∷ char_of (a % 4 * 16 + b / 16)
    ∷ char_of (b % 16 * 4 + c / 64)
    ∷ char_of (c % 64)
    ∷ base64_encode xs

-- The scan of the alphabet from position `k`: the last match wins, 0 if there is none.
unfoldable pub scan : CStr → ℕ → ℕ → ℕ → ℕ
scan [] k index c = index
scan (t ∷ ts) k index c = scan ts (k + 1) (if t == c then k else index) c

unfoldable pub index_of : ℕ → ℕ
unfolding scan
index_of c = scan base64_chars 0 0 c

unfoldable pub decode_cells : CStr → List (Option ℕ)
decode_cells (c1 ∷ c2 ∷ c3 ∷ c4 ∷ cs) =
    some ((index_of c1 * 4 + index_of c2 / 16) % 256)
    ∷ (if c3 == b'=' then none else some ((index_of c2 % 16 * 16 + index_of c3 / 4) % 256))
    ∷ (if c4 == b'=' then none else some ((index_of c3 % 4 * 64 + index_of c4) % 256))
    ∷ decode_cells cs
decode_cells _ = []

unfoldable pub cell_or_zero : Option ℕ → ℕ
cell_or_zero none = 0
cell_or_zero (some b) = b

unfoldable pub place : ℕ → List (Option ℕ) → Outcome (List ℕ)
unfolding cell_or_zero
place room [] = returned (replicate room 0)
place zero (none ∷ cells) = place zero cells
place zero (some b ∷ cells) = fault
place (suc room) (cell ∷ cells) = map_outcome (◌∷◌ (cell_or_zero cell)) (place room cells)

-- `input[input_length - 1 - k]`
unfoldable pub from_end : CStr → ℕ → ℕ
from_end s k = get_or s (length s - 1 - k) 0

unfoldable pub padding : CStr → ℕ
unfolding from_end
padding s = if from_end s 0 == b'=' then if from_end s 1 == b'=' then 2 else 1 else 0

unfoldable pub decoded_length : CStr → ℕ
decoded_length s = length s / 4 * 3 - padding s

unfoldable pub base64_decode : CStr → Outcome (List ℕ)
base64_decode [] = fault
base64_decode (c ∷ cs) =
    if length (c ∷ cs) % 4 == 0
    then place (decoded_length (c ∷ cs)) (decode_cells (c ∷ cs))
    else failed
