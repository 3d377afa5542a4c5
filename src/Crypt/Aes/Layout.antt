-- ===== src/Crypt/Aes/Layout.antt =====
-- src/crypt/crypt.c: the parts of what is sent, and what OpenSSL documents for a text.
use rsmp_gatewa.Common.{
  ◌≡◌, refl, sym, ap, ◌∙◌, ℕ, ◌+◌, ◌≤◌, ◌<◌, arith, Bool, true, none, none, some, List, [], ◌∷◌,
  ◌++◌, length, length-append, take, leb, IsBytes, returned,
}
use rsmp_gatewa.Crypt.Aes.{
  Mode, ctr, gcm, Algorithm, Evp, get_ivi_size, tag_size, ptrdiff_max, bytes_from,
}
use rsmp_gatewa.Rsmp.Arrays.{drop}

-- The tag that is sent: none in counter mode.
abbrev pub sent_tag : Mode → List ℕ → List ℕ
sent_tag ctr tag = []
sent_tag gcm tag = tag

-- What OpenSSL says of a tag, which is asked for in Galois counter mode only: it has its size, it is
-- taken where it is given back, and the text is then authentic. In counter mode EVP_DecryptFinal_ex
-- has nothing to check.
abbrev pub IsTag : Mode → Evp → Algorithm → (key iv text ciphertext tag : List ℕ) → Type 0
IsTag ctr evp alg key iv text ciphertext tag = evp.decrypt_final alg key iv none ciphertext ≡ true
IsTag gcm evp alg key iv text ciphertext tag =
    IsBytes tag
    × (length tag ≡ tag_size)
    × (evp.set_iv_len alg (get_ivi_size gcm) ≡ true)
    × (evp.get_tag alg key iv text ≡ some tag)
    × (evp.set_tag alg (some tag) ≡ true)
    × (evp.decrypt_final alg key iv (some tag) ciphertext ≡ true)

-- Whether a tag can be set before the end: always in Galois counter mode, and in counter mode as the
-- library treats a null tag, of which its pages say nothing.
abbrev pub takes_tag : Mode → Evp → Algorithm → Bool
takes_tag ctr evp alg = evp.set_tag alg none
takes_tag gcm evp alg = true

-- What the manual pages of EVP_EncryptInit say of a text under a key and a vector: the pieces of its
-- encryption, its tag, and that the decryption of the pieces with that tag gives the text.
pub record IsSealed (evp : Evp) (alg : Algorithm) (key iv text : List ℕ) : Type 0 where
  pub body : List ℕ
  pub last : List ℕ
  pub tag : List ℕ
  pub pieces_IsBytes : IsBytes (body ++ last)
  pub encrypt_inits : evp.encrypt_init alg key iv ≡ true
  pub updates : evp.encrypt_update alg key iv text ≡ some body
  pub finishes : evp.encrypt_final alg key iv text ≡ some last
  pub decrypt_inits : evp.decrypt_init alg key iv ≡ true
  pub decrypts : evp.decrypt_update alg key iv (body ++ last) ≡ some text
  pub fits : length text ≤ length (body ++ last)
  -- there is memory for it
  pub room : length (body ++ last) < ptrdiff_max
  pub tagged : IsTag alg.mode evp alg key iv text (body ++ last) tag

take_append : (xs ys : List ℕ) → take (length xs) (xs ++ ys) ≡ xs
take_append [] ys = refl
take_append (x ∷ xs) ys = ap (λ l. x ∷ l) (take_append xs ys)

pub drop_append : (xs ys : List ℕ) → drop (length xs) (xs ++ ys) ≡ ys
drop_append [] ys = refl
drop_append (x ∷ xs) ys = drop_append xs ys

-- The middle of three parts.
pub middle_append :
    (i n : ℕ) (xs ys zs : List ℕ)
    → length xs ≡ i
    → length ys ≡ n
    → take n (drop i (xs ++ (ys ++ zs))) ≡ ys
middle_append i n xs ys zs at size =
    ap (λ k. take n (drop k (xs ++ (ys ++ zs)))) (sym at)
    ∙ ap (take n) (drop_append xs (ys ++ zs))
    ∙ ap (λ k. take k (ys ++ zs)) (sym size)
    ∙ take_append ys zs

pub bytes_from_append :
    (n : ℕ) (ys zs : List ℕ) → length ys ≡ n → bytes_from 0 n (ys ++ zs) ≡ returned ys
unfolding bytes_from
bytes_from_append n ys zs size =
    let there : leb (0 + n) (length (ys ++ zs)) ≡ true = ground (arith, length-append ys zs) in
    rw there (ap returned (middle_append 0 n [] ys zs refl size))
