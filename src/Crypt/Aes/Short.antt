-- ===== src/Crypt/Aes/Short.antt =====
-- src/crypt/crypt.c: which data decrypt_aes reads within its memory, and which not.
use rsmp_gatewa.Common.{
  >>=-ne-fault, >>=-eq-returned, guard-ne-fault, require-ne-fault, guard-true, require-some, ◌≡◌,
  ◌≢◌, refl, sym, ap, ◌∙◌, subst, ℕ, ◌+◌, ◌-◌, ◌%◌, ◌≤◌, arith, Bool, true, false, Bool-cases, some,
  List, length, leb, ◌==◌, le→leb, inl, inr, CStr, Outcome, returned, fault, guard, require,
  asserted, ◌>>=◌, ◌>>◌,
}
use rsmp_gatewa.Crypt.Base64.{base64_decode}
use rsmp_gatewa.Crypt.Aes.{
  Mode, ctr, gcm, Algorithm, Evp, get_ivi_size, tag_size, size_values, ptrdiff_max, bytes_from,
  init_decryption, tag_at, data_left, text_memory, decrypt_text, decoded_data, decrypt_data,
  decrypt_aes,
}

bytes_from-ne-fault :
    (i n : ℕ) (bytes : List ℕ) → i + n ≤ length bytes → bytes_from i n bytes ≢ fault
unfolding bytes_from
bytes_from-ne-fault i n bytes there = rw (le→leb _ _ there) (λ e. cc e)

-- The library gives no more bytes than it was given.
abbrev pub IsBounded : Evp → Type 0
IsBounded evp =
    (alg : Algorithm) (key iv ciphertext text : List ℕ)
    → evp.decrypt_update alg key iv ciphertext ≡ some text
    → length text ≤ length ciphertext

-- The length of data that has a vector, and not one byte less than a vector and a tag.
abbrev pub IsReadableLength : Mode → ℕ → Type 0
IsReadableLength ctr n = 16 ≤ n
IsReadableLength gcm n = (12 ≤ n) × ((n == 27) ≡ false)

-- Where the text begins.
abbrev text_start : Mode → ℕ
text_start ctr = 16
text_start gcm = 28

-- Where there is memory for the text, its length has not wrapped around.
memory-start :
    (m : Mode) (n : ℕ)
    → IsReadableLength m n
    → leb ((data_left (text_start m) n + 1) % size_values) ptrdiff_max ≡ true
    → text_start m ≤ n
unfolding data_left
memory-start ctr n long room = long
memory-start gcm n (long, other) room = elim (Bool-cases (leb 28 n)) [
  | inl there ↦ ground (arith, there)
  | inr short ↦
      let given : leb ((size_values - (28 - n) + 1) % size_values) ptrdiff_max ≡ true =
        sym (rw short refl) ∙ room in
      ground (arith, short, other, given, long)
]

left-fits : (start n : ℕ) → start ≤ n → start + data_left start n ≤ n
unfolding data_left
left-fits start n there = rw (le→leb _ _ there) (omega arith)

tag_at-ne-fault : (m : Mode) (bytes : List ℕ) → text_start m ≤ length bytes → tag_at m bytes ≢ fault
unfolding tag_at get_ivi_size
tag_at-ne-fault ctr bytes there = λ e. cc e
tag_at-ne-fault gcm bytes there =
    >>=-ne-fault (bytes_from 12 tag_size bytes) _
      (bytes_from-ne-fault 12 tag_size bytes (omega arith)) (λ t r q. cc q)

asserted-ne-fault : (b : Bool) → b ≡ true → asserted b ≢ fault
asserted-ne-fault b h = rw h (λ e. cc e)

init_decryption-text_start :
    (evp : Evp) (m : Mode) (alg : Algorithm) (key bytes iv : List ℕ) (n : ℕ)
    → init_decryption evp m alg key bytes ≡ returned (iv, n)
    → n ≡ text_start m
unfolding init_decryption get_ivi_size
init_decryption-text_start evp ctr alg key bytes iv n h =
    let (v, at, g) = >>=-eq-returned (bytes_from 0 16 bytes) _ h in
    let (u, ok, e) = >>=-eq-returned (guard (evp.decrypt_init alg key v)) _ g in cc e
init_decryption-text_start evp gcm alg key bytes iv n h =
    let (w, set, f) = >>=-eq-returned (guard (evp.set_iv_len alg 12)) _ h in
    let (v, at, g) = >>=-eq-returned (bytes_from 0 12 bytes) _ f in
    let (u, ok, e) = >>=-eq-returned (guard (evp.decrypt_init alg key v)) _ g in cc e

module _ (evp : Evp) (alg : Algorithm) (key bytes : List ℕ) where
  abbrev begun : ℕ → ℕ → Outcome (List ℕ × ℕ)
  begun n start = do
    iv ← bytes_from 0 n bytes
    guard (evp.decrypt_init alg key iv)
    returned (iv, start)

  begun-ne-fault : (n start : ℕ) → n ≤ length bytes → begun n start ≢ fault
  begun-ne-fault n start there =
      >>=-ne-fault (bytes_from 0 n bytes) _ (bytes_from-ne-fault 0 n bytes (omega arith)) (λ iv r.
        >>=-ne-fault (guard (evp.decrypt_init alg key iv)) _
          (guard-ne-fault (evp.decrypt_init alg key iv)) (λ u v w. cc w))

  init_decryption-ne-fault :
      (m : Mode) → IsReadableLength m (length bytes) → init_decryption evp m alg key bytes ≢ fault
  unfolding init_decryption get_ivi_size
  init_decryption-ne-fault ctr long = begun-ne-fault 16 16 long
  init_decryption-ne-fault gcm (long, other) =
      >>=-ne-fault (guard (evp.set_iv_len alg 12)) _ (guard-ne-fault (evp.set_iv_len alg 12))
        (λ u v. begun-ne-fault 12 28 long)

module _ (evp : Evp) (bounded : IsBounded evp) (alg : Algorithm) (key : List ℕ) where
  decrypt_text-ne-fault :
      (m : Mode) (iv bytes : List ℕ)
      → IsReadableLength m (length bytes)
      → decrypt_text evp m alg key iv (text_start m) bytes ≢ fault
  unfolding decrypt_text text_memory
  decrypt_text-ne-fault m iv bytes long =
      let left = data_left (text_start m) (length bytes) in
      let has = leb ((left + 1) % size_values) ptrdiff_max in
      >>=-ne-fault (guard has) _ (guard-ne-fault has) (λ u room.
        let there = memory-start m (length bytes) long (guard-true has u room) in
        >>=-ne-fault (bytes_from (text_start m) left bytes) _
          (bytes_from-ne-fault (text_start m) left bytes
            (left-fits (text_start m) (length bytes) there))
          (λ ciphertext read.
            >>=-ne-fault (require (evp.decrypt_update alg key iv ciphertext)) _
              (require-ne-fault (evp.decrypt_update alg key iv ciphertext))
              (λ text e.
                >>=-ne-fault (asserted (leb (length text) (length ciphertext))) _
                  (asserted-ne-fault _
                    (le→leb _ _ (bounded alg key iv ciphertext text (require-some _ text e))))
                  (λ w x. tagged m iv bytes ciphertext text there))))
    where
      tagged :
          (m : Mode) (iv bytes ciphertext text : List ℕ)
          → text_start m ≤ length bytes
          → (tag_at m bytes >>= λ tag. guard (evp.set_tag alg tag) >>= λ u.
              guard (evp.decrypt_final alg key iv tag ciphertext) >>= λ v. returned text)
            ≢ fault
      tagged m iv bytes ciphertext text there =
          >>=-ne-fault (tag_at m bytes) _ (tag_at-ne-fault m bytes there) (λ tag r.
            >>=-ne-fault (guard (evp.set_tag alg tag)) _ (guard-ne-fault (evp.set_tag alg tag))
              (λ u v.
                >>=-ne-fault (guard (evp.decrypt_final alg key iv tag ciphertext)) _
                  (guard-ne-fault (evp.decrypt_final alg key iv tag ciphertext)) (λ w x y. cc y)))

  decrypt-ne-fault :
      (m : Mode) (bytes : List ℕ)
      → IsReadableLength m (length bytes)
      → (init_decryption evp m alg key bytes >>= λ start.
          decrypt_text evp m alg key start.0 start.1 bytes)
        ≢ fault
  decrypt-ne-fault m bytes long =
      >>=-ne-fault (init_decryption evp m alg key bytes) _
        (init_decryption-ne-fault evp alg key bytes m long)
        (λ (iv, n) r.
          subst (λ k. decrypt_text evp m alg key iv k bytes ≢ fault)
            (sym (init_decryption-text_start evp m alg key bytes iv n r))
            (decrypt_text-ne-fault m iv bytes long))

-- Data in base64 is read within its memory, whatever it holds, under a key of at least the size of the
-- cipher, where OpenSSL gives no more bytes than it gets: in counter mode data of at least 16 bytes,
-- and in Galois counter mode of at least 12 bytes, but for 27 of them.
pub decrypt_aes-ne-fault :
    (evp : Evp) (alg : Algorithm) (input : CStr) (key bytes : List ℕ)
    → IsBounded evp
    → base64_decode input ≡ returned bytes
    → IsReadableLength alg.mode (length bytes)
    → alg.key_size ≤ length key
    → decrypt_aes evp alg (some input) key ≢ fault
unfolding decrypt_aes decoded_data decrypt_data
decrypt_aes-ne-fault evp alg input key bytes bounded decodes long sized e =
    >>=-ne-fault (bytes_from 0 alg.key_size key) _
      (bytes_from-ne-fault 0 alg.key_size key (omega arith))
      (λ k at_k. decrypt-ne-fault evp bounded alg k alg.mode bytes long)
      (sym (ap (λ o. decoded_data evp o >>= decrypt_data evp alg key) decodes) ∙ e)
