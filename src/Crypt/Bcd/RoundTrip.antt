-- ===== src/Crypt/Bcd/RoundTrip.antt =====
-- What src/crypt/bcd.c encodes, it decodes.
use rsmp_gatewa.Common.{
  All, ℕ, zero, suc, ◌+◌, ◌*◌, ◌/◌, ◌%◌, ◌≤◌, ◌≡◌, refl, ◌∙◌, inl, inr, true, false, some, List, [],
  ◌∷◌, arith, length, Bool-cases, IsBytes, CStr, is_xdigit, returned, map_outcome,
}
use rsmp_gatewa.Crypt.Bcd.{
  encode_triples, encode_pairs, terminate_last, bcd_encode_sep, pack, decode_loop, bcd_decode,
}
use rsmp_gatewa.Crypt.Bcd.Digits.{is_xdigit-c2a, pack-c2a}

-- A digit that the encoder wrote starts the next byte.
decode_loop-digit :
    (room c d e : ℕ) (cs : CStr)
    → is_xdigit e ≡ true
    → decode_loop (suc room) (c ∷ d ∷ e ∷ cs)
      ≡ map_outcome (◌∷◌ (pack c d)) (decode_loop room (e ∷ cs))
unfolding decode_loop
decode_loop-digit room c d e cs h = rw (h, decode_loop)

-- Any other character is skipped.
decode_loop-sep :
    (room c d e : ℕ) (cs : CStr)
    → is_xdigit e ≡ false
    → decode_loop (suc room) (c ∷ d ∷ e ∷ cs) ≡ map_outcome (◌∷◌ (pack c d)) (decode_loop room cs)
unfolding decode_loop
decode_loop-sep room c d e cs h = rw (h, decode_loop)

pub decode_loop-encode_pairs :
    (xs : List ℕ) (room : ℕ)
    → IsBytes xs
    → length xs ≤ room
    → decode_loop room (encode_pairs xs) ≡ returned xs
unfolding encode_pairs
decode_loop-encode_pairs [] room h k = unfold decode_loop in refl
decode_loop-encode_pairs (x ∷ xs) zero h k = absurd (omega arith)
decode_loop-encode_pairs (x ∷ []) (suc room) h k = unfold decode_loop in rw (pack-c2a x h.0)
decode_loop-encode_pairs (x ∷ y ∷ ys) (suc room) h k = rw (
  decode_loop-digit room _ _ _ _ (is_xdigit-c2a (y / 16)),
  decode_loop-encode_pairs (y ∷ ys) room h.1 (omega arith),
  pack-c2a x h.0,
)

pub decode_loop-encode_triples :
    (sep : ℕ) (xs : List ℕ) (room : ℕ)
    → is_xdigit sep ≡ false
    → IsBytes xs
    → length xs ≤ room
    → decode_loop room (terminate_last (encode_triples sep xs)) ≡ returned xs
unfolding encode_triples terminate_last
decode_loop-encode_triples sep [] room n h k = unfold decode_loop in refl
decode_loop-encode_triples sep (x ∷ xs) zero n h k = absurd (omega arith)
decode_loop-encode_triples sep (x ∷ []) (suc room) n h k = unfold decode_loop in rw (pack-c2a x h.0)
decode_loop-encode_triples sep (x ∷ y ∷ ys) (suc room) n h k = rw (
  decode_loop-sep room _ _ sep _ n,
  decode_loop-encode_triples sep (y ∷ ys) room n h.1 (omega arith),
  pack-c2a x h.0,
)

-- The encoder writes digits only.
pub encode_pairs-IsHex : (xs : List ℕ) → All (λ c. is_xdigit c ≡ true) (encode_pairs xs)
unfolding encode_pairs
encode_pairs-IsHex [] = tt
encode_pairs-IsHex (x ∷ xs) =
    (is_xdigit-c2a (x / 16), (is_xdigit-c2a (x % 16), encode_pairs-IsHex xs))

pub length-encode_pairs : (xs : List ℕ) → length (encode_pairs xs) ≡ 2 * length xs
unfolding encode_pairs
length-encode_pairs [] = refl
length-encode_pairs (x ∷ xs) = omega (arith, length-encode_pairs xs)

length-encode_triples :
    (sep x : ℕ) (xs : List ℕ)
    → length (terminate_last (encode_triples sep (x ∷ xs))) ≡ 3 * length xs + 2
unfolding encode_triples terminate_last
length-encode_triples sep x [] = refl
length-encode_triples sep x (y ∷ ys) = omega (arith, length-encode_triples sep y ys)

-- A string that begins with two digits goes to the loop, with half its length as room.
bcd_decode-digits :
    (c d : ℕ) (cs : CStr)
    → is_xdigit c ≡ true
    → is_xdigit d ≡ true
    → bcd_decode (some (c ∷ d ∷ cs)) ≡ decode_loop (length (c ∷ d ∷ cs) / 2) (c ∷ d ∷ cs)
unfolding bcd_decode
bcd_decode-digits c d cs h k = rw (h, k)

pub bcd_decode-pairs :
    (x : ℕ) (xs : List ℕ)
    → IsBytes (x ∷ xs)
    → bcd_decode (some (encode_pairs (x ∷ xs))) ≡ returned (x ∷ xs)
unfolding encode_pairs
bcd_decode-pairs x xs h =
    bcd_decode-digits _ _ (encode_pairs xs) (is_xdigit-c2a (x / 16)) (is_xdigit-c2a (x % 16))
    ∙ decode_loop-encode_pairs (x ∷ xs) _ h (omega (arith, length-encode_pairs xs))

bcd_decode-triples :
    (sep x : ℕ) (xs : List ℕ)
    → is_xdigit sep ≡ false
    → IsBytes (x ∷ xs)
    → bcd_decode (some (terminate_last (encode_triples sep (x ∷ xs)))) ≡ returned (x ∷ xs)
unfolding encode_triples terminate_last
bcd_decode-triples sep x xs n h =
    bcd_decode-digits _ _ (terminate_last (sep ∷ encode_triples sep xs)) (is_xdigit-c2a (x / 16))
      (is_xdigit-c2a (x % 16))
    ∙ decode_loop-encode_triples sep (x ∷ xs) _ n h (omega (arith, length-encode_triples sep x xs))

-- `bcd_decode` gives back every nonempty buffer that `bcd_encode_sep` encoded, whatever the
-- separator: none, a separator character, or a digit (which the encoder leaves out).
pub bcd_decode-bcd_encode_sep :
    (sep x : ℕ) (xs : List ℕ)
    → IsBytes (x ∷ xs)
    → bcd_decode (bcd_encode_sep (some (x ∷ xs)) sep) ≡ returned (x ∷ xs)
unfolding bcd_encode_sep
bcd_decode-bcd_encode_sep sep x xs h = elim (Bool-cases (is_xdigit sep)) [
  | inl digit ↦ rw digit (ground (arith, bcd_decode-pairs x xs h))
  | inr other ↦
      rw other (ground (arith, bcd_decode-pairs x xs h, bcd_decode-triples sep x xs other h))
]
