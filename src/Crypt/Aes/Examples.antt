-- ===== src/Crypt/Aes/Examples.antt =====
-- Texts on which the theorems about src/crypt/crypt.c apply.
use rsmp_gatewa.Common.{
  ℕ, ◌≡◌, ◌≢◌, refl, arith, some, List, [], ◌∷◌, replicate, CStr, codes, returned, failed, fault,
}
use rsmp_gatewa.Crypt.Base64.{base64_decode, decoded_length, decode_cells, place, padding, index_of}
use rsmp_gatewa.Crypt.Aes.{
  get_ivi_size, bytes_from, aes_128_ctr, aes_256_gcm, decrypt_aes, algorithm_of, cipher_encrypt,
  cipher_decrypt,
}
use rsmp_gatewa.Crypt.Aes.RoundTrip.{cipher_decrypt-cipher_encrypt}
use rsmp_gatewa.Crypt.Aes.Short.{IsBounded, decrypt_aes-ne-fault}
use rsmp_gatewa.Rsmp.Values.{c_str}
use rsmp_gatewa.Crypt.Aes.Sample.{
  replicate-IsBytes, plain, vector, key, message, plain-IsSealed, no_null_tag, no_null_tag-IsSealed,
}

cipher_decrypt-cipher_encrypt_example :
    (sealed : CStr) × (cipher_encrypt plain vector (codes "AES256GCM") key message
      ≡ returned sealed)
    × (c_str sealed ≡ sealed)
    × (cipher_decrypt plain vector (codes "AES256GCM") key (some sealed) ≡ returned message)
unfolding algorithm_of get_ivi_size bytes_from c_str
cipher_decrypt-cipher_encrypt_example =
    cipher_decrypt-cipher_encrypt plain vector (codes "AES256GCM") aes_256_gcm key key b'O'
      (b'h' ∷ []) refl refl (replicate-IsBytes 12 1 (omega arith)) refl
      (plain-IsSealed message (omega arith, (omega arith, tt)) (omega arith)) refl

-- In counter mode a library that refuses a null tag makes the decryption fail.
ctr_refused :
    (sealed : CStr) × (cipher_encrypt no_null_tag vector (codes "AES128CTR") key message
      ≡ returned sealed)
    × (c_str sealed ≡ sealed)
    × (cipher_decrypt no_null_tag vector (codes "AES128CTR") key (some sealed) ≡ failed)
unfolding algorithm_of get_ivi_size bytes_from c_str
ctr_refused =
    cipher_decrypt-cipher_encrypt no_null_tag vector (codes "AES128CTR") aes_128_ctr
      (replicate 16 7) key b'O' (b'h' ∷ []) refl refl (replicate-IsBytes 16 1 (omega arith)) refl
      (no_null_tag-IsSealed message (omega arith, (omega arith, tt)) (omega arith)) refl

abbrev sixteen : CStr
sixteen = codes "AQEBAQEBAQEBAQEBAQEBAQ=="

sixteen_decoded : base64_decode sixteen ≡ returned (replicate 16 1)
unfolding base64_decode decoded_length padding decode_cells place index_of
sixteen_decoded = refl

plain-IsBounded : IsBounded plain
plain-IsBounded alg k iv c text e = let same : c ≡ text = cc e in rw same (omega arith)

decrypt_aes-ne-fault_example : decrypt_aes plain aes_256_gcm (some sixteen) key ≢ fault
decrypt_aes-ne-fault_example =
    decrypt_aes-ne-fault plain aes_256_gcm sixteen key (replicate 16 1) plain-IsBounded
      sixteen_decoded (omega arith, refl) (omega arith)

abbrev twenty_seven : CStr
twenty_seven = codes "AQEBAQEBAQEBAQEBAQEBAQEBAQEBAQEBAQEB"

abbrev ones : List ℕ
ones = replicate 27 1
