-- ===== src/Crypt/Aes.antt =====
-- src/crypt/crypt.c: the three ciphers, in counter mode and in Galois counter mode, and the layout of
-- what they send: the vector, the tag, and the encrypted text, in base64. cipher_key_gen of
-- src/cipher/cipher.c derives their keys. OpenSSL is the parameter `Evp`. A length fits the int that
-- it becomes in a call of EVP_DecryptUpdate, but for one that has wrapped around.
pub mod Layout
pub mod RoundTrip
pub mod Short
pub mod Sample
mod Examples
use rsmp_gatewa.Common.{
  ℕ, ◌+◌, ◌-◌, ◌%◌, Bool, ◌||◌, Option, none, some, List, [], ◌∷◌, ◌++◌, length, take, leb, ◌==◌,
  CStr, codes, str_eq, if◌then◌else◌, Outcome, returned, failed, fault, guard, require, asserted,
  ◌>>=◌, ◌>>◌,
}
use rsmp_gatewa.Crypt.Base64.{base64_encode, base64_decode}
use rsmp_gatewa.Crypt.Bcd.{bcd_decode}
use rsmp_gatewa.Rsmp.Arrays.{drop}
use rsmp_gatewa.Rsmp.Values.{c_str}

-- EVP_CIPHER_mode
pub data Mode : Type 0 where
  ctr gcm : Mode

-- EVP_aes_128_ctr, EVP_aes_256_ctr and EVP_aes_256_gcm, with the bytes of a key that they read.
pub record Algorithm : Type 0 where
  pub mode : Mode
  pub key_size : ℕ

abbrev pub aes_128_ctr : Algorithm
aes_128_ctr = record { mode = ctr; key_size = 16 }

abbrev pub aes_256_ctr : Algorithm
aes_256_ctr = record { mode = ctr; key_size = 32 }

abbrev pub aes_256_gcm : Algorithm
aes_256_gcm = record { mode = gcm; key_size = 32 }

-- The calls of OpenSSL, each with the algorithm, the key, the vector and the text of its context;
-- `none` and `false` are its errors.
pub record Evp : Type 0 where
  pub set_iv_len : Algorithm → ℕ → Bool
  pub encrypt_init : Algorithm → List ℕ → List ℕ → Bool
  pub encrypt_update : Algorithm → List ℕ → List ℕ → List ℕ → Option (List ℕ)
  pub encrypt_final : Algorithm → List ℕ → List ℕ → List ℕ → Option (List ℕ)
  pub get_tag : Algorithm → List ℕ → List ℕ → List ℕ → Option (List ℕ)
  pub decrypt_init : Algorithm → List ℕ → List ℕ → Bool
  pub decrypt_update : Algorithm → List ℕ → List ℕ → List ℕ → Option (List ℕ)
  -- the tag is null in counter mode
  pub set_tag : Algorithm → Option (List ℕ) → Bool
  pub decrypt_final : Algorithm → List ℕ → List ℕ → Option (List ℕ) → List ℕ → Bool
  -- PKCS5_PBKDF2_HMAC: the source, the salt, the iterations, the length of the key
  pub pbkdf2 : List ℕ → List ℕ → ℕ → ℕ → Option (List ℕ)

unfoldable pub get_ivi_size : Mode → ℕ
get_ivi_size ctr = 16
get_ivi_size gcm = 12

-- TAG_SIZE
abbrev pub tag_size : ℕ
tag_size = 16

-- The values of a size_t, and the greatest ptrdiff_t.
abbrev pub size_values : ℕ
size_values = 18446744073709551616

abbrev pub ptrdiff_max : ℕ
ptrdiff_max = 9223372036854775807

-- The bytes that a call reads from a position on.
unfoldable pub bytes_from : ℕ → ℕ → List ℕ → Outcome (List ℕ)
bytes_from i n bytes =
    if leb (i + n) (length bytes) then returned (take n (drop i bytes)) else fault

-- The pointer of the tag is null in counter mode.
unfoldable pub tag_at : Mode → List ℕ → Outcome (Option (List ℕ))
unfolding get_ivi_size bytes_from
tag_at ctr bytes = returned none
tag_at gcm bytes = bytes_from (get_ivi_size gcm) tag_size bytes >>= λ tag. returned (some tag)

-- The size_t that is left of the length behind the start of the text: it wraps around.
unfoldable pub data_left : ℕ → ℕ → ℕ
data_left start n = if leb start n then n - start else size_values - (start - n)

-- malloc has no object for more bytes than a ptrdiff_t counts.
unfoldable pub text_memory : ℕ → Outcome (Unit {0})
text_memory n = guard (leb ((n + 1) % size_values) ptrdiff_max)

module _ (evp : Evp) where
  unfoldable pub init_encryption : Mode → Algorithm → List ℕ → List ℕ → Outcome (Unit {0})
  unfolding get_ivi_size
  init_encryption ctr alg key iv = guard (evp.encrypt_init alg key iv)
  init_encryption gcm alg key iv =
      guard (evp.set_iv_len alg (get_ivi_size gcm)) >> guard (evp.encrypt_init alg key iv)

  unfoldable pub tag_of : Mode → Algorithm → List ℕ → List ℕ → List ℕ → Outcome (List ℕ)
  tag_of ctr alg key iv input = returned []
  tag_of gcm alg key iv input = require (evp.get_tag alg key iv input)

  -- The vector that RAND_bytes draws is an argument.
  unfoldable pub encrypt_under : Algorithm → List ℕ → List ℕ → List ℕ → Outcome CStr
  unfolding init_encryption tag_of
  encrypt_under alg iv input key = do
    init_encryption alg.mode alg key iv
    body ← require (evp.encrypt_update alg key iv input)
    last ← require (evp.encrypt_final alg key iv input)
    tag ← tag_of alg.mode alg key iv input
    returned (base64_encode (iv ++ (tag ++ (body ++ last))))

  unfoldable pub encrypt_aes : Algorithm → List ℕ → List ℕ → List ℕ → Outcome CStr
  unfolding encrypt_under bytes_from
  encrypt_aes alg iv [] key = fault
  encrypt_aes alg iv (c ∷ cs) key =
      bytes_from 0 alg.key_size key >>= λ k. encrypt_under alg iv (c ∷ cs) k

  -- The vector that is read, and where the text begins; `key` is what the library reads of it.
  unfoldable pub init_decryption : Mode → Algorithm → List ℕ → List ℕ → Outcome (List ℕ × ℕ)
  unfolding get_ivi_size bytes_from
  init_decryption ctr alg key bytes = do
    iv ← bytes_from 0 (get_ivi_size ctr) bytes
    guard (evp.decrypt_init alg key iv)
    returned (iv, get_ivi_size ctr)
  init_decryption gcm alg key bytes = do
    guard (evp.set_iv_len alg (get_ivi_size gcm))
    iv ← bytes_from 0 (get_ivi_size gcm) bytes
    guard (evp.decrypt_init alg key iv)
    returned (iv, get_ivi_size gcm + tag_size)

  -- The memory for the text has one byte more than what was encrypted.
  unfoldable pub decrypt_text : Mode → Algorithm → List ℕ → List ℕ → ℕ → List ℕ → Outcome (List ℕ)
  unfolding bytes_from tag_at data_left text_memory
  decrypt_text m alg key iv start bytes = do
    text_memory (data_left start (length bytes))
    ciphertext ← bytes_from start (data_left start (length bytes)) bytes
    text ← require (evp.decrypt_update alg key iv ciphertext)
    asserted (leb (length text) (length ciphertext))
    tag ← tag_at m bytes
    guard (evp.set_tag alg tag)
    guard (evp.decrypt_final alg key iv tag ciphertext)
    returned text

  -- base64_decode leaves its pointer without a value where it fails, and that is used.
  unfoldable pub decoded_data : Outcome (List ℕ) → Outcome (List ℕ)
  decoded_data (returned bytes) = returned bytes
  decoded_data failed = fault
  decoded_data fault = fault

  -- The key is as long as the cipher needs, where cipher_key_gen derived it.
  unfoldable pub decrypt_data : Algorithm → List ℕ → List ℕ → Outcome (List ℕ)
  unfolding bytes_from init_decryption decrypt_text
  decrypt_data alg key bytes = do
    k ← bytes_from 0 alg.key_size key
    start ← init_decryption alg.mode alg k bytes
    decrypt_text alg.mode alg k start.0 start.1 bytes

  unfoldable pub decrypt_aes : Algorithm → Option CStr → List ℕ → Outcome (List ℕ)
  unfolding decoded_data decrypt_data base64_decode
  decrypt_aes alg none key = fault
  decrypt_aes alg (some input) key = decoded_data (base64_decode input) >>= decrypt_data alg key

  abbrev pub salt_text : CStr
  salt_text = codes "13BAC1F20AF1A5F08F9E962CD632B19B"

  -- The salt is decoded once; its assertion holds.
  unfoldable pub cipher_key_gen : List ℕ → ℕ → ℕ → Outcome (List ℕ)
  unfolding bcd_decode
  cipher_key_gen source iterations key_len =
      bcd_decode (some salt_text) >>= λ salt. require (evp.pbkdf2 source salt iterations key_len)

  unfoldable pub cipher_aes_key_gen : List ℕ → ℕ → ℕ → Outcome (List ℕ)
  unfolding cipher_key_gen
  cipher_aes_key_gen source iterations key_len =
      asserted (key_len == 16 || key_len == 32) >> cipher_key_gen source iterations key_len

-- The ciphers by the name of their library.
unfoldable pub algorithm_of : CStr → Option Algorithm
unfolding str_eq
algorithm_of lib =
    if str_eq lib (codes "AES128CTR")
    then some aes_128_ctr
    else if str_eq lib (codes "AES256CTR")
    then some aes_256_ctr
    else if str_eq lib (codes "AES256GCM")
    then some aes_256_gcm
    else none

-- The cipher of a name is there.
unfoldable pub with_algorithm :
    {A : Type 0} → Option Algorithm → (Algorithm → Outcome A) → Outcome A
with_algorithm none f = fault
with_algorithm (some alg) f = f alg

-- What a cipher_t does under its name, as src/coder/coder.c calls it: the decrypted bytes are read as
-- a string.
module _ (evp : Evp) (iv : Mode → List ℕ) where
  unfoldable pub cipher_encrypt : CStr → List ℕ → CStr → Outcome CStr
  unfolding encrypt_aes algorithm_of with_algorithm
  cipher_encrypt lib key input =
      with_algorithm (algorithm_of lib) (λ alg. encrypt_aes evp alg (iv alg.mode) input key)

  unfoldable pub cipher_decrypt : CStr → List ℕ → Option CStr → Outcome CStr
  unfolding decrypt_aes algorithm_of with_algorithm c_str
  cipher_decrypt lib key input =
      with_algorithm (algorithm_of lib)
        (λ alg. decrypt_aes evp alg input key >>= λ bytes. returned (c_str bytes))

  unfoldable pub derive_key : ℕ → CStr → List ℕ → Outcome (List ℕ)
  unfolding cipher_aes_key_gen algorithm_of with_algorithm
  derive_key iterations lib source =
      with_algorithm (algorithm_of lib)
        (λ alg. cipher_aes_key_gen evp source iterations alg.key_size)
