-- ===== src/Coder/Container/Ciphered.antt =====
-- src/coder/coder.c over src/crypt/crypt.c: a text that OpenSSL encrypts and decrypts goes through the
-- container of encrypted texts.
use rsmp_gatewa.Common.{
  ◌≡◌, refl, sym, ap, ◌∙◌, ℕ, some, List, ◌∷◌, CStr, IsBytes, length, returned, true, guard, ◌>>◌,
}
use rsmp_gatewa.Coder.Secrets.{Backend, Class}
use rsmp_gatewa.Coder.Container.{Opening, ptxt_is_valid}
use rsmp_gatewa.Coder.Container.Carried.{IsText, IsCarried, as_json, ptxt_object, some_ptxt}
use rsmp_gatewa.Crypt.Aes.{
  Mode, Algorithm, Evp, get_ivi_size, bytes_from, algorithm_of, cipher_encrypt, cipher_decrypt,
}
use rsmp_gatewa.Crypt.Aes.Layout.{IsSealed, takes_tag}
use rsmp_gatewa.Crypt.Aes.RoundTrip.{cipher_decrypt-cipher_encrypt}
use rsmp_gatewa.Rsmp.Values.{c_str}

-- The libraries with the ciphers of src/crypt/crypt.c.
abbrev pub with_encrypt : Evp → (Mode → List ℕ) → Backend → Backend
with_encrypt evp iv backend = record backend { encrypt = cipher_encrypt evp iv }

abbrev pub with_decrypt : Evp → (Mode → List ℕ) → Opening → Opening
with_decrypt evp iv op = record op { decrypt = cipher_decrypt evp iv }

-- What json-c and the clock have to do for a text, and what it prints.
pub record IsPrinted (op : Opening) (backend : Backend) (i ts : ℕ) (original : CStr) (kind : Class)
    (c : ℕ) (cs : CStr) : Type 0 where
  pub prints : backend.print (ptxt_object backend ts original kind) ≡ c ∷ cs
  pub printed_is_text : IsText (c ∷ cs)
  pub original_is_text : IsText original
  pub reparses : op.parse (c ∷ cs) ≡ some (as_json (ptxt_object backend ts original kind))
  pub rereads : op.read_time (c_str (backend.time_text ts)) ≡ some ts
  pub valid : ptxt_is_valid op.window (op.delta_ms i ts) (some_ptxt ts original kind) ≡ returned tt

-- A text that json-c prints and reads back and that is valid, under a key of at least the size of one
-- of the three ciphers and a vector of the size of its mode, is carried from a site to its peer by
-- that cipher, where OpenSSL does what it documents for what is printed and takes the tag.
pub cipher_encrypt-IsCarried :
    (op : Opening) (backend : Backend) (evp : Evp) (iv : Mode → List ℕ) (lib : CStr)
    (alg : Algorithm) (k key : List ℕ) (i ts : ℕ) (original : CStr) (kind : Class) (c : ℕ)
    (cs : CStr)
    → algorithm_of lib ≡ some alg
    → length (iv alg.mode) ≡ get_ivi_size alg.mode
    → IsBytes (iv alg.mode)
    → bytes_from 0 alg.key_size key ≡ returned k
    → IsPrinted op backend i ts original kind c cs
    → IsSealed evp alg k (iv alg.mode) (c ∷ cs)
    → takes_tag alg.mode evp alg ≡ true
    → IsCarried
        (with_decrypt evp iv op)
        (with_encrypt evp iv backend)
        lib
        key
        i
        (some_ptxt ts original kind)
cipher_encrypt-IsCarried op backend evp iv lib alg k key i ts original kind c cs named size bytes
      reads p s takes =
    let (sealed, encrypted, plain, decrypted) =
      cipher_decrypt-cipher_encrypt evp iv lib alg k key c cs named size bytes reads s
        p.printed_is_text in
    record {
      original = original;
      kind = kind;
      is_ptxt = refl;
      is_text = p.original_is_text;
      reparses = ap op.parse p.prints ∙ p.reparses;
      rereads = p.rereads;
      sealed = sealed;
      sealed_is_text = plain;
      encrypts = ap (cipher_encrypt evp iv lib key) p.prints ∙ encrypted;
      decrypts =
          decrypted ∙ ap (λ b. guard b >> returned (c ∷ cs)) takes ∙ ap returned (sym p.prints);
      is_valid = p.valid;
    }
