-- ===== src/Auth/Pwd/Stored.antt =====
-- The text of a password in the authentication file, as auth_write of src/auth/auth-basic.c prints
-- it and auth_pwd_decode of src/auth/auth-pwd.c reads it.
use rsmp_gatewa.Common.{
  ℕ, ◌/◌, ◌%◌, ◌≤◌, ◌≡◌, ◌-◌, ◌⊎◌, not, refl, true, none, some, List, [], ◌∷◌, ◌++◌, arith, ◌==◌,
  if◌then◌else◌, length, CStr, codes, is_xdigit, IsBytes, returned, failed, Bool-cases, inl, inr,
  ltb,
}
use rsmp_gatewa.Crypt.Bcd.{bcd_encode_sep, encode_pairs}
use rsmp_gatewa.Crypt.Bcd.RoundTrip.{encode_pairs-IsHex, length-encode_pairs, bcd_decode-pairs}
use rsmp_gatewa.Crypt.Bcd.Bounds.{IsHex, bcd_decode_even}
use rsmp_gatewa.Auth.Pwd.{
  stored_text, Pwd, pwd_of, pwd_len_min, all_xdigits, auth_pwd_str_is_hex, auth_pwd_from_hex_set,
  decode_marked, auth_pwd_decode,
}

all_xdigits-IsHex : (s : CStr) → all_xdigits s ≡ true → IsHex s
unfolding all_xdigits
all_xdigits-IsHex [] h = tt
all_xdigits-IsHex (c ∷ s) h = (ground arith, all_xdigits-IsHex s (ground arith))

IsHex-all_xdigits : (s : CStr) → IsHex s → all_xdigits s ≡ true
unfolding all_xdigits
IsHex-all_xdigits [] h = refl
IsHex-all_xdigits (c ∷ s) h = ground (arith, IsHex-all_xdigits s h.1)

-- What the test of a hexadecimal password guarantees.
str_is_hex→parts :
    (s : CStr) → auth_pwd_str_is_hex s ≡ true → (length s % 2 ≡ 0) × (16 ≤ length s) × IsHex s
unfolding auth_pwd_str_is_hex
str_is_hex→parts s h = (ground arith, ground arith, all_xdigits-IsHex s (ground arith))

-- Whatever the text, auth_pwd_from_hex_set stays within its buffers, and a password that it sets
-- has half as many bytes as the text has digits, at least AUTH_PWD_LEN_MIN.
pub auth_pwd_from_hex_set_fits :
    (fresh : List ℕ) (pwd : Pwd) (s : CStr)
    → (auth_pwd_from_hex_set fresh pwd (some s) ≡ failed)
      ⊎ ((bs : List ℕ) × (auth_pwd_from_hex_set fresh pwd (some s) ≡ returned (pwd_of bs))
          × (length bs ≡ length s / 2)
          × (pwd_len_min ≤ length bs))
unfolding auth_pwd_from_hex_set
auth_pwd_from_hex_set_fits fresh pwd s = elim (Bool-cases (auth_pwd_str_is_hex s)) [
  | inl e ↦
      let (even, long, hex) = str_is_hex→parts s e in
      let (bs, decoded, size) = bcd_decode_even (length s / 2 - 1) s hex (omega arith) in
      inr (bs, rw (e, decoded), omega arith, omega arith)
  | inr e ↦ inl (rw e)
]

stored_text-pwd_of :
    (x : ℕ) (xs : List ℕ) → stored_text (pwd_of (x ∷ xs)) ≡ codes "$0$" ++ encode_pairs (x ∷ xs)
unfolding stored_text bcd_encode_sep
stored_text-pwd_of x xs = refl

str_is_hex-encode_pairs :
    (xs : List ℕ) → auth_pwd_str_is_hex (encode_pairs xs) ≡ not (ltb (length xs) pwd_len_min)
unfolding auth_pwd_str_is_hex
str_is_hex-encode_pairs xs =
    ground
      (arith, length-encode_pairs xs, IsHex-all_xdigits (encode_pairs xs) (encode_pairs-IsHex xs))

decode_marked-IsHex :
    (fresh : List ℕ) (pwd : Pwd) (s : CStr)
    → IsHex s
    → decode_marked fresh pwd s ≡ auth_pwd_from_hex_set fresh pwd (some s)
unfolding decode_marked is_xdigit
decode_marked-IsHex fresh pwd [] h = refl
decode_marked-IsHex fresh pwd (c ∷ s) h = elim (Bool-cases (c == b'*')) [
  | inl star ↦ absurd (ground (arith, h.0))
  | inr other ↦ rw other
]

auth_pwd_decode_marked :
    (fresh : List ℕ) (pwd : Pwd) (s : CStr)
    → IsHex s
    → auth_pwd_decode fresh pwd (codes "$0$" ++ s) ≡ auth_pwd_from_hex_set fresh pwd (some s)
unfolding auth_pwd_decode
auth_pwd_decode_marked fresh pwd s h = decode_marked-IsHex fresh pwd s h

from_hex_set-encode_pairs :
    (fresh : List ℕ) (pwd : Pwd) (x : ℕ) (xs : List ℕ)
    → IsBytes (x ∷ xs)
    → auth_pwd_from_hex_set fresh pwd (some (encode_pairs (x ∷ xs)))
      ≡ (if ltb (length (x ∷ xs)) pwd_len_min then failed else returned (pwd_of (x ∷ xs)))
unfolding auth_pwd_from_hex_set
from_hex_set-encode_pairs fresh pwd x xs h =
    rw (str_is_hex-encode_pairs (x ∷ xs), bcd_decode-pairs x xs h) (ground arith)

-- A password that auth_write stores is read back by auth_pwd_decode if it has AUTH_PWD_LEN_MIN
-- bytes or more; a shorter one is refused.
pub auth_pwd_decode-stored_text :
    (fresh : List ℕ) (pwd : Pwd) (x : ℕ) (xs : List ℕ)
    → IsBytes (x ∷ xs)
    → auth_pwd_decode fresh pwd (stored_text (pwd_of (x ∷ xs)))
      ≡ (if ltb (length (x ∷ xs)) pwd_len_min then failed else returned (pwd_of (x ∷ xs)))
auth_pwd_decode-stored_text fresh pwd x xs h =
    rw
      (
        stored_text-pwd_of x xs,
        auth_pwd_decode_marked fresh pwd (encode_pairs (x ∷ xs)) (encode_pairs-IsHex (x ∷ xs)),
      )
      (from_hex_set-encode_pairs fresh pwd x xs h)

-- The column of an entry with no password is one that auth_pwd_decode refuses.
pub auth_pwd_decode-stored_null :
    (fresh : List ℕ) (pwd empty : Pwd)
    → (empty.len ≡ 0) ⊎ (empty.buf ≡ none)
    → auth_pwd_decode fresh pwd (stored_text empty) ≡ failed
unfolding auth_pwd_decode stored_text
auth_pwd_decode-stored_null fresh pwd empty h = ground arith
