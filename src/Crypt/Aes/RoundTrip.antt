-- ===== src/Crypt/Aes/RoundTrip.antt =====
-- src/crypt/crypt.c: what a cipher encrypted it decrypts under the key, with an OpenSSL that does what
-- it documents.
use rsmp_gatewa.Common.{
  ◌≡◌, refl, sym, ap, ◌∙◌, ℕ, ◌+◌, ◌%◌, ◌<◌, ◌≤◌, arith, Bool, true, false, Option, none, some,
  List, [], ◌∷◌, ◌++◌, append_assoc, append-nil, length, length-append, take, leb, le→leb,
  All-append, CStr, IsBytes, returned, guard, ◌>>=◌, ◌>>◌,
}
use rsmp_gatewa.Crypt.Base64.{base64_encode}
use rsmp_gatewa.Crypt.Base64.Plain.{c_str-base64_encode}
use rsmp_gatewa.Crypt.Base64.RoundTrip.{base64_decode-base64_encode}
use rsmp_gatewa.Crypt.Aes.{
  Mode, ctr, gcm, Algorithm, Evp, get_ivi_size, tag_size, size_values, ptrdiff_max, bytes_from,
  init_encryption, tag_of, encrypt_under, encrypt_aes, init_decryption, tag_at, data_left,
  text_memory, decrypt_text, decoded_data, decrypt_data, decrypt_aes, algorithm_of, with_algorithm,
  cipher_encrypt, cipher_decrypt,
}
use rsmp_gatewa.Crypt.Aes.Layout.{
  sent_tag, IsTag, takes_tag, IsSealed, middle_append, bytes_from_append,
}
use rsmp_gatewa.Rsmp.Arrays.{drop}
use rsmp_gatewa.Rsmp.Values.{c_str}

-- The end of two parts.
bytes_from-end :
    (i : ℕ) (xs ys : List ℕ) → length xs ≡ i → bytes_from i (length ys) (xs ++ ys) ≡ returned ys
unfolding bytes_from
bytes_from-end i xs ys at =
    let there : leb (i + length ys) (length (xs ++ ys)) ≡ true =
      ground (arith, length-append xs ys) in
    rw there (
      ap (λ zs. returned (take (length ys) (drop i (xs ++ zs)))) (sym (append-nil ys))
      ∙ ap returned (middle_append i (length ys) xs ys [] at refl))

data_left-append :
    (i : ℕ) (xs ys : List ℕ) → length xs ≡ i → data_left i (length (xs ++ ys)) ≡ length ys
unfolding data_left
data_left-append i xs ys at =
    let there : leb i (length (xs ++ ys)) ≡ true = ground (arith, length-append xs ys) in
    rw there (omega (arith, length-append xs ys))

module _ (evp : Evp) (alg : Algorithm) (key iv : List ℕ) where
  -- The text that is decrypted, where the library takes the tag.
  decrypt_text-sealed :
      (m : Mode) (text before ciphertext : List ℕ) (tag : Option (List ℕ)) (start : ℕ)
      → length before ≡ start
      → length ciphertext < ptrdiff_max
      → evp.decrypt_update alg key iv ciphertext ≡ some text
      → length text ≤ length ciphertext
      → tag_at m (before ++ ciphertext) ≡ returned tag
      → evp.decrypt_final alg key iv tag ciphertext ≡ true
      → decrypt_text evp m alg key iv start (before ++ ciphertext)
        ≡ (guard (evp.set_tag alg tag) >> returned text)
  unfolding decrypt_text text_memory
  decrypt_text-sealed m text before ciphertext tag start at room decrypts fits tagged authentic =
      let there : leb ((length ciphertext + 1) % size_values) ptrdiff_max ≡ true = ground arith in
      rw (data_left-append start before ciphertext at) (
        rw (there, bytes_from-end start before ciphertext at)
          (rw decrypts (rw (le→leb _ _ fits) (rw tagged (rw authentic refl)))))

  tag_at-gcm :
      (tag ciphertext : List ℕ)
      → length iv ≡ 12
      → length tag ≡ tag_size
      → tag_at gcm (iv ++ (tag ++ ciphertext)) ≡ returned (some tag)
  unfolding tag_at get_ivi_size bytes_from
  tag_at-gcm tag ciphertext size tags =
      let there : leb (12 + 16) (length (iv ++ (tag ++ ciphertext))) ≡ true =
        ground (arith, length-append iv (tag ++ ciphertext), length-append tag ciphertext) in
      rw there (ap (λ t. returned (some t)) (middle_append 12 16 iv tag ciphertext size tags))

  -- The decryption of what is sent, with the key that is read.
  decrypted :
      (m : Mode) (text ciphertext tag : List ℕ)
      → length iv ≡ get_ivi_size m
      → evp.decrypt_init alg key iv ≡ true
      → length ciphertext < ptrdiff_max
      → evp.decrypt_update alg key iv ciphertext ≡ some text
      → length text ≤ length ciphertext
      → IsTag m evp alg key iv text ciphertext tag
      → (init_decryption evp m alg key (iv ++ (sent_tag m tag ++ ciphertext)) >>= λ start.
          decrypt_text evp m alg key start.0 start.1 (iv ++ (sent_tag m tag ++ ciphertext)))
        ≡ (guard (takes_tag m evp alg) >> returned text)
  unfolding init_decryption get_ivi_size tag_at
  decrypted ctr text ciphertext tag size inits room decrypts fits authentic =
      rw (bytes_from_append 16 iv ciphertext size) (
        rw inits (
          decrypt_text-sealed ctr text iv ciphertext none 16 size room decrypts fits refl
            authentic))
  decrypted gcm text ciphertext tag size inits room decrypts fits
        (tag_bytes, tags, set, gets, sets, authentic) =
      rw set (
        rw (bytes_from_append 12 iv (tag ++ ciphertext) size) (
          rw inits (
            ap (decrypt_text evp gcm alg key iv 28) (sym (append_assoc iv tag ciphertext))
            ∙ decrypt_text-sealed gcm text (iv ++ tag) ciphertext (some tag) 28
                (omega (arith, length-append iv tag)) room decrypts fits
                (ap (tag_at gcm) (append_assoc iv tag ciphertext)
                  ∙ tag_at-gcm tag ciphertext size tags)
                authentic
            ∙ ap (λ b. guard b >> returned text) sets)))

  init_encryption_lem :
      (m : Mode) (text ciphertext tag : List ℕ)
      → IsTag m evp alg key iv text ciphertext tag
      → evp.encrypt_init alg key iv ≡ true
      → (init_encryption evp m alg key iv ≡ returned tt)
        × (tag_of evp m alg key iv text ≡ returned (sent_tag m tag))
        × (IsBytes (sent_tag m tag))
  unfolding init_encryption tag_of
  init_encryption_lem ctr text ciphertext tag authentic inits = (rw inits refl, refl, tt)
  init_encryption_lem gcm text ciphertext tag (tag_bytes, tags, set, gets, sets, authentic) inits =
      (rw (set, inits) refl, rw gets refl, tag_bytes)

module _ (evp : Evp) (alg : Algorithm) (key iv text : List ℕ)
    (s : IsSealed evp alg key iv text) where
  abbrev sealed_data : List ℕ
  sealed_data = iv ++ (sent_tag alg.mode s.tag ++ (s.body ++ s.last))

  encrypt_under_lem : encrypt_under evp alg iv text key ≡ returned (base64_encode sealed_data)
  unfolding encrypt_under
  encrypt_under_lem =
      let (begun, tagged, bytes) =
        init_encryption_lem evp alg key iv alg.mode text (s.body ++ s.last) s.tag s.tagged
          s.encrypt_inits in
      rw begun (rw (s.updates, s.finishes) (rw tagged refl))

  decrypt_data_lem :
      (whole : List ℕ)
      → bytes_from 0 alg.key_size whole ≡ returned key
      → length iv ≡ get_ivi_size alg.mode
      → decrypt_data evp alg whole sealed_data
        ≡ (guard (takes_tag alg.mode evp alg) >> returned text)
  unfolding decrypt_data
  decrypt_data_lem whole reads size = rw reads (
      decrypted evp alg key iv alg.mode text (s.body ++ s.last) s.tag size s.decrypt_inits s.room
        s.decrypts s.fits s.tagged)

size-ne-zero : (m : Mode) → 0 < get_ivi_size m
unfolding get_ivi_size
size-ne-zero ctr = omega arith
size-ne-zero gcm = omega arith

-- The decryption of what is in base64 is that of its data.
decrypt_aes_lem :
    (evp : Evp) (alg : Algorithm) (bytes key : List ℕ)
    → IsBytes bytes
    → 0 < length bytes
    → decrypt_aes evp alg (some (base64_encode bytes)) key ≡ decrypt_data evp alg key bytes
unfolding decrypt_aes decoded_data
decrypt_aes_lem evp alg [] key h full = absurd (omega arith)
decrypt_aes_lem evp alg (b ∷ bs) key h full =
    ap (λ o. decoded_data evp o >>= decrypt_data evp alg key) (base64_decode-base64_encode b bs h)

decrypt_aes-encrypt_aes :
    (evp : Evp) (alg : Algorithm) (k key iv : List ℕ) (c : ℕ) (cs : List ℕ)
    → length iv ≡ get_ivi_size alg.mode
    → IsBytes iv
    → bytes_from 0 alg.key_size key ≡ returned k
    → IsSealed evp alg k iv (c ∷ cs)
    → (sealed : CStr) × (encrypt_aes evp alg iv (c ∷ cs) key ≡ returned sealed)
      × (c_str sealed ≡ sealed)
      × (decrypt_aes evp alg (some sealed) key
          ≡ (guard (takes_tag alg.mode evp alg) >> returned (c ∷ cs)))
unfolding encrypt_aes
decrypt_aes-encrypt_aes evp alg k key iv c cs size iv_bytes reads s =
    let packed : List ℕ = iv ++ (sent_tag alg.mode s.tag ++ (s.body ++ s.last)) in
    let (begun, tagged, tag_bytes) =
      init_encryption_lem evp alg k iv alg.mode (c ∷ cs) (s.body ++ s.last) s.tag s.tagged
        s.encrypt_inits in
    let bytes : IsBytes packed =
      All-append _ iv _ iv_bytes
        (All-append _ (sent_tag alg.mode s.tag) (s.body ++ s.last) tag_bytes s.pieces_IsBytes) in
    let full : 0 < length packed = omega (
      arith,
      length-append iv (sent_tag alg.mode s.tag ++ (s.body ++ s.last)),
      size-ne-zero alg.mode,
      size,
    ) in
    (
      base64_encode packed,
      ap (λ o. o >>= λ k'. encrypt_under evp alg iv (c ∷ cs) k') reads
          ∙ encrypt_under_lem evp alg k iv (c ∷ cs) s,
      c_str-base64_encode packed bytes,
      decrypt_aes_lem evp alg packed key bytes full
          ∙ decrypt_data_lem evp alg k iv (c ∷ cs) s key reads size,
    )

plain_text :
    (b : Bool) (text : CStr)
    → c_str text ≡ text
    → ((guard b >> returned text) >>= λ bytes. returned (c_str bytes)) ≡ (guard b >> returned text)
plain_text true text plain = ap returned plain
plain_text false text plain = refl

-- Each cipher by its name, with a vector of the size of its mode and a key of at least its size: it
-- encrypts a text that is not empty, without a NUL, into base64 without a NUL. Under the same key that
-- is decrypted into the text, where OpenSSL does what it documents for this text: in Galois counter
-- mode always, and in counter mode if the library takes a null tag, which decrypt_aes sets there
-- too, and otherwise the decryption fails.
pub cipher_decrypt-cipher_encrypt :
    (evp : Evp) (iv : Mode → List ℕ) (lib : CStr) (alg : Algorithm) (k key : List ℕ) (c : ℕ)
    (cs : CStr)
    → algorithm_of lib ≡ some alg
    → length (iv alg.mode) ≡ get_ivi_size alg.mode
    → IsBytes (iv alg.mode)
    → bytes_from 0 alg.key_size key ≡ returned k
    → IsSealed evp alg k (iv alg.mode) (c ∷ cs)
    → c_str (c ∷ cs) ≡ c ∷ cs
    → (sealed : CStr) × (cipher_encrypt evp iv lib key (c ∷ cs) ≡ returned sealed)
      × (c_str sealed ≡ sealed)
      × (cipher_decrypt evp iv lib key (some sealed)
          ≡ (guard (takes_tag alg.mode evp alg) >> returned (c ∷ cs)))
unfolding cipher_encrypt cipher_decrypt with_algorithm
cipher_decrypt-cipher_encrypt evp iv lib alg k key c cs named size bytes reads s plain =
    let (sealed, encrypted, text, decrypted) =
      decrypt_aes-encrypt_aes evp alg k key (iv alg.mode) c cs size bytes reads s in
    (
      sealed,
      ap (λ o. with_algorithm o (λ a. encrypt_aes evp a (iv a.mode) (c ∷ cs) key)) named
          ∙ encrypted,
      text,
      ap
            (λ o.
              with_algorithm o
                (λ a. decrypt_aes evp a (some sealed) key >>= λ bytes. returned (c_str bytes)))
            named
          ∙ ap (λ o. o >>= λ bytes. returned (c_str bytes)) decrypted
          ∙ plain_text (takes_tag alg.mode evp alg) (c ∷ cs) plain,
    )
