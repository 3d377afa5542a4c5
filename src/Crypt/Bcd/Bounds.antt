-- ===== src/Crypt/Bcd/Bounds.antt =====
-- The room that `bcd_decode` of src/crypt/bcd.c allocates against what its loop writes and reads.
use rsmp_gatewa.Common.{
  ℕ, zero, suc, ◌+◌, ◌*◌, ◌≤◌, ◌≡◌, refl, ap, true, List, [], ◌∷◌, arith, some, length, All, CStr,
  is_xdigit, Outcome, returned, failed, fault, map_outcome,
}
use rsmp_gatewa.Crypt.Bcd.{decode_loop, bcd_decode}

abbrev pub IsHex : CStr → Type 0
IsHex = All (λ c. is_xdigit c ≡ true)

-- What the loop returns on digits: a byte for each two of them.
abbrev Returns : ℕ → Outcome (List ℕ) → Type 0
Returns n (returned bs) = length bs ≡ n
Returns n failed = ⊥
Returns n fault = ⊥

Returns-map_outcome :
    (n b : ℕ) (o : Outcome (List ℕ)) → Returns n o → Returns (suc n) (map_outcome (◌∷◌ b) o)
Returns-map_outcome n b (returned bs) h = ap suc h
Returns-map_outcome n b failed h = elim h [ ]
Returns-map_outcome n b fault h = elim h [ ]

decode_loop-Returns :
    (n room : ℕ) (cs : CStr)
    → IsHex cs
    → length cs ≡ 2 * n
    → n ≤ room
    → Returns n (decode_loop room cs)
unfolding decode_loop
decode_loop-Returns zero room [] h e k = refl
decode_loop-Returns (suc n) room [] h e k = absurd (omega arith)
decode_loop-Returns zero zero (c ∷ cs) h e k = absurd (omega arith)
decode_loop-Returns (suc n) zero (c ∷ cs) h e k = absurd (omega arith)
decode_loop-Returns n (suc room) (c ∷ []) h e k = absurd (omega arith)
decode_loop-Returns zero (suc room) (c ∷ d ∷ cs) h e k = absurd (omega arith)
decode_loop-Returns (suc zero) (suc room) (c ∷ d ∷ []) h e k = refl
decode_loop-Returns (suc (suc n)) (suc room) (c ∷ d ∷ []) h e k = absurd (omega arith)
decode_loop-Returns (suc n) (suc room) (c ∷ d ∷ f ∷ cs) h e k =
    rw (h.1.1.0, decode_loop)
      (Returns-map_outcome n _ _
        (decode_loop-Returns n room (f ∷ cs) h.1.1 (omega arith) (omega arith)))

-- An odd number of digits runs over the end of the output or of the input, whatever the room.
decode_loop_odd :
    (n room : ℕ) (cs : CStr) → IsHex cs → length cs ≡ 2 * n + 1 → decode_loop room cs ≡ fault
unfolding decode_loop
decode_loop_odd n room [] h e = absurd (omega arith)
decode_loop_odd n zero (c ∷ cs) h e = refl
decode_loop_odd n (suc room) (c ∷ []) h e = refl
decode_loop_odd n (suc room) (c ∷ d ∷ []) h e = absurd (omega arith)
decode_loop_odd zero (suc room) (c ∷ d ∷ f ∷ cs) h e = absurd (omega arith)
decode_loop_odd (suc n) (suc room) (c ∷ d ∷ f ∷ cs) h e =
    rw (h.1.1.0, decode_loop) (rw (decode_loop_odd n room (f ∷ cs) h.1.1 (omega arith)))

Returns-inv :
    (n : ℕ) (o : Outcome (List ℕ))
    → Returns n o
    → (bs : List ℕ) × (o ≡ returned bs) × (length bs ≡ n)
Returns-inv n (returned bs) h = (bs, refl, h)
Returns-inv n failed h = elim h [ ]
Returns-inv n fault h = elim h [ ]

-- On a nonempty string of an even number of digits `bcd_decode` stays within its buffers and gives
-- one byte for each two digits.
pub bcd_decode_even :
    (n : ℕ) (cs : CStr)
    → IsHex cs
    → length cs ≡ 2 * (n + 1)
    → (bs : List ℕ) × (bcd_decode (some cs) ≡ returned bs) × (length bs ≡ n + 1)
unfolding bcd_decode
bcd_decode_even n [] h e = absurd (omega arith)
bcd_decode_even n (c ∷ []) h e = absurd (omega arith)
bcd_decode_even n (c ∷ d ∷ cs) h e =
    rw (h.0, h.1.0)
      (Returns-inv (n + 1) _ (decode_loop-Returns (n + 1) _ (c ∷ d ∷ cs) h e (omega arith)))

-- On an odd number of digits, three or more, `bcd_decode` always accesses memory outside its
-- buffers.
pub bcd_decode_odd :
    (n : ℕ) (cs : CStr) → IsHex cs → length cs ≡ 2 * n + 3 → bcd_decode (some cs) ≡ fault
unfolding bcd_decode
bcd_decode_odd n [] h e = absurd (omega arith)
bcd_decode_odd n (c ∷ []) h e = absurd (omega arith)
bcd_decode_odd n (c ∷ d ∷ cs) h e =
    rw (h.0, h.1.0) (decode_loop_odd (n + 1) _ (c ∷ d ∷ cs) h (omega arith))
