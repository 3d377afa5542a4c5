-- ===== src/Crypt/Bcd.antt =====
-- src/crypt/bcd.c: binary data written as hexadecimal digits, with or without a separator.
-- Characters are numbers below 256, a buffer is the list of its bytes, a null pointer is `none`.
-- `decode_loop` keeps the room left in the output of `calloc(len/2)`: a write past its end, and the
-- read of `buf[i]` past the terminator, are `fault`.
pub mod Digits
pub mod RoundTrip
pub mod Bounds
use Prim.Native.Nat.{bit_and, bit_or}
use rsmp_gatewa.Common.{
  ℕ, zero, suc, ◌+◌, ◌-◌, ◌*◌, ◌/◌, ◌%◌, true, false, not, ◌&&◌, Option, none, some, List, [], ◌∷◌,
  ltb, leb, ◌==◌, if◌then◌else◌, length, CStr, is_xdigit, Outcome, returned, failed, fault,
  map_outcome,
}

-- The low half of `c` as an upper-case digit.
unfoldable pub c2a : ℕ → ℕ
c2a c = if ltb (c % 16) 10 then b'0' + c % 16 else b'A' + c % 16 - 10

unfoldable pub a2c : ℕ → ℕ
a2c c =
    if leb b'0' c && leb c b'9'
    then c - b'0'
    else if leb b'a' c && leb c b'f'
    then 10 + c - b'a'
    else if leb b'A' c && leb c b'F'
    then 10 + c - b'A'
    else 0

-- The loop of the branch with a separator: three characters for each byte.
unfoldable pub encode_triples : ℕ → List ℕ → List ℕ
encode_triples sep [] = []
encode_triples sep (b ∷ bs) = c2a (b / 16) ∷ c2a (b % 16) ∷ sep ∷ encode_triples sep bs

-- The loop of the branch without.
unfoldable pub encode_pairs : List ℕ → List ℕ
encode_pairs [] = []
encode_pairs (b ∷ bs) = c2a (b / 16) ∷ c2a (b % 16) ∷ encode_pairs bs

-- `out[max-1] = '\0'`: the string ends before the last cell of the buffer.
unfoldable pub terminate_last : List ℕ → CStr
terminate_last [] = []
terminate_last (c ∷ []) = []
terminate_last (c ∷ d ∷ cs) = c ∷ terminate_last (d ∷ cs)

unfoldable pub bcd_encode_sep : Option (List ℕ) → ℕ → Option CStr
unfolding encode_triples encode_pairs terminate_last
bcd_encode_sep none sep = none
bcd_encode_sep (some []) sep = none
bcd_encode_sep (some (b ∷ bs)) sep =
    if not (sep == 0) && not (is_xdigit sep)
    then some (terminate_last (encode_triples sep (b ∷ bs)))
    else some (encode_pairs (b ∷ bs))

-- `out[n] = (a2c(hi)<<4) & 0xf0; out[n] |= a2c(lo)`
unfoldable pub pack : ℕ → ℕ → ℕ
pack hi lo = bit_or (bit_and (a2c hi * 16) 0xf0) (a2c lo)

unfoldable pub decode_loop : ℕ → CStr → Outcome (List ℕ)
decode_loop room [] = returned []
decode_loop zero (c ∷ cs) = fault
decode_loop (suc room) (c ∷ []) = fault
decode_loop (suc room) (c ∷ d ∷ []) = returned (pack c d ∷ [])
decode_loop (suc room) (c ∷ d ∷ e ∷ cs) = elim (is_xdigit e) [
  | true ↦ map_outcome (◌∷◌ (pack c d)) (decode_loop room (e ∷ cs))
  | false ↦ map_outcome (◌∷◌ (pack c d)) (decode_loop room cs)
]

unfoldable pub bcd_decode : Option CStr → Outcome (List ℕ)
unfolding decode_loop
bcd_decode none = failed
bcd_decode (some []) = failed
bcd_decode (some (c ∷ [])) = failed
bcd_decode (some (c ∷ d ∷ cs)) =
    if is_xdigit c && is_xdigit d
    then decode_loop (length (c ∷ d ∷ cs) / 2) (c ∷ d ∷ cs)
    else failed
