-- ===== src/Crypt/Aes/Sample.antt =====
-- src/crypt/crypt.c over a library that does not encrypt, to run the model.
use rsmp_gatewa.Common.{
  All-append, append-nil, length, length-append, ap, refl, ℕ, arith, true, false, none, some, List,
  [], replicate, zero, suc, ◌<◌, IsBytes, CStr, codes,
}
use rsmp_gatewa.Crypt.Aes.{Mode, ctr, gcm, Evp, get_ivi_size, aes_128_ctr, aes_256_gcm}
use rsmp_gatewa.Crypt.Aes.Layout.{IsSealed}

pub replicate-IsBytes : (n x : ℕ) → x < 256 → IsBytes (replicate n x)
replicate-IsBytes zero x h = tt
replicate-IsBytes (suc n) x h = (h, replicate-IsBytes n x h)

abbrev pub tag : List ℕ
tag = replicate 16 9

abbrev pub plain : Evp
plain = record {
  set_iv_len = λ alg n. true;
  encrypt_init = λ alg k iv. true;
  encrypt_update = λ alg k iv t. some t;
  encrypt_final = λ alg k iv t. some [];
  get_tag = λ alg k iv t. some tag;
  decrypt_init = λ alg k iv. true;
  decrypt_update = λ alg k iv c. some c;
  set_tag = λ alg t. true;
  decrypt_final = λ alg k iv t c. true;
  pbkdf2 = λ s salt n len. some (replicate len 7);
}

abbrev pub vector : Mode → List ℕ
vector ctr = replicate 16 1
vector gcm = replicate 12 1

abbrev pub key : List ℕ
key = replicate 32 7

abbrev pub message : CStr
message = codes "Oh"

pub plain-IsSealed :
    (text : List ℕ)
    → IsBytes text
    → length text < 4096
    → IsSealed plain aes_256_gcm key (vector gcm) text
unfolding get_ivi_size
plain-IsSealed text bytes small = record {
  body = text;
  last = [];
  tag = tag;
  pieces_IsBytes = All-append _ text [] bytes tt;
  encrypt_inits = refl;
  updates = refl;
  finishes = refl;
  decrypt_inits = refl;
  decrypts = ap some (append-nil text);
  fits = omega (arith, length-append text []);
  room = omega (arith, small, length-append text []);
  tagged = (replicate-IsBytes 16 9 (omega arith), refl, refl, refl, refl, refl);
}

-- The same for counter mode, with a library that refuses a null tag.
abbrev pub no_null_tag : Evp
no_null_tag = record plain { set_tag = λ alg given. elim given [ none ↦ false | some t ↦ true ] }

pub no_null_tag-IsSealed :
    (text : List ℕ)
    → IsBytes text
    → length text < 4096
    → IsSealed no_null_tag aes_128_ctr (replicate 16 7) (vector ctr) text
no_null_tag-IsSealed text bytes small = record {
  body = text;
  last = [];
  tag = [];
  pieces_IsBytes = All-append _ text [] bytes tt;
  encrypt_inits = refl;
  updates = refl;
  finishes = refl;
  decrypt_inits = refl;
  decrypts = ap some (append-nil text);
  fits = omega (arith, length-append text []);
  room = omega (arith, small, length-append text []);
  tagged = refl;
}
