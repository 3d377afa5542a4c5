-- ===== src/Cipher.antt =====
-- src/cipher/cipher.c: the table of the ciphers. Their functions (OpenSSL) are parameters of the
-- modules that call them; the keys that find them are their normalised names.
use mathlib.Core.Option
use rsmp_gatewa.Common.{
  ◌≡◌, refl, ℕ, zero, suc, Bool, true, false, Option, none, some, List, [], ◌∷◌, arith, CStr,
  str_eq, str_eq_iff, if◌then◌else◌, find_by, update_by, find_by-update_by,
}

-- The static description of a cipher, its name and whether it may be used.
pub record Cipher : Type 0 where
  pub lib : CStr
  pub enabled : Bool

abbrev pub lib_of : Cipher → CStr
lib_of c = c.lib

abbrev pub Table : Type 0
Table = List Cipher

unfoldable pub cipher_get : Table → ℕ → Option Cipher
cipher_get [] i = none
cipher_get (c ∷ cs) zero = some c
cipher_get (c ∷ cs) (suc i) = cipher_get cs i

unfoldable pub cipher_get_by_str : Table → Option CStr → Option Cipher
cipher_get_by_str table none = none
cipher_get_by_str table (some name) = find_by lib_of name table

abbrev pub with_enabled : Bool → Cipher → Cipher
with_enabled b c = record c { enabled = b }

-- The table, and whether the name is one of a cipher.
unfoldable pub cipher_let_enabled_by_str : Table → Option CStr → Bool → Table × Bool
unfolding cipher_get_by_str
cipher_let_enabled_by_str table name b = elim name [
  | none ↦ (table, false)
  | some n ↦ elim (cipher_get_by_str table (some n)) [
    | none ↦ (table, false)
    | some c ↦ (update_by lib_of n (with_enabled b) table, true)
  ]
]

-- Every cipher is given to the callback, whatever it returns.
unfoldable pub cipher_foreach : {C : Type 0} → (C → Cipher → C) → C → Table → C × ℕ
cipher_foreach f c [] = (c, 0)
cipher_foreach f c (d ∷ ds) = let (c', n) = cipher_foreach f (f c d) ds in (c', suc n)

abbrev pub is_cipher : Option Cipher → Bool
is_cipher none = false
is_cipher (some c) = true

-- cipher_let_enabled_by_str says whether the table has the name; it then sets that cipher's flag and
-- no other, and every cipher is found under its name as before.
pub cipher_let_enabled_by_str_lem :
    (table : Table) (n other : CStr) (b : Bool)
    → ((cipher_let_enabled_by_str table (some n) b).1
        ≡ is_cipher (cipher_get_by_str table (some n)))
      × (cipher_get_by_str (cipher_let_enabled_by_str table (some n) b).0 (some other) ≡ (
          if str_eq n other
          then Option.map (with_enabled b) (cipher_get_by_str table (some other))
          else cipher_get_by_str table (some other)))
unfolding cipher_let_enabled_by_str cipher_get_by_str
cipher_let_enabled_by_str_lem table n other b = (
  ground arith,
  ground (
    arith,
    str_eq_iff n other,
    find_by-update_by lib_of n other (with_enabled b) table (λ c. refl),
  ),
)
