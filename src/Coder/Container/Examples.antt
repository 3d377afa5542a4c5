-- ===== src/Coder/Container/Examples.antt =====
-- The theorems about the container of encrypted texts at concrete inputs.
use rsmp_gatewa.Common.{
  ◌≡◌, inl, refl, arith, some, [], ◌∷◌, codes, returned, fault, ◌>>=◌, append_ldc, str_eq,
}
use rsmp_gatewa.Coder.Secrets.{to_encrypt, to_decrypt}
use rsmp_gatewa.Coder.Container.{object_get_ex, member_value}
use rsmp_gatewa.Coder.Container.Seal.{encrypted_encode}
use rsmp_gatewa.Coder.Container.Open.{encrypted_decode}
use rsmp_gatewa.Coder.Container.Open.{Container, read_container}
use rsmp_gatewa.Coder.Container.Accepts.{IsKnown, encrypted_decode-AreItems}
use rsmp_gatewa.Coder.Container.Items.{AreItems}
use rsmp_gatewa.Coder.Container.RoundTrip.{encrypted_decode-encrypted_encode}
use rsmp_gatewa.Coder.Container.Crashes.{Members6, encrypted_decode_null}
use rsmp_gatewa.Rsmp.Values.{Json, member, end, nothing, text, object, array, nil, cons, c_str}
use rsmp_gatewa.Coder.Container.Sample.{
  lib, backend, sent, parse, opening, mate, store_of, no_secret, key, key-derived, carried, at_a,
  at_b, reparsed, decoded_once,
}

encrypted_decode-encrypted_encode_example :
    ((encrypted_encode backend append_ldc lib
        (codes "A")
        (codes "u")
        (some (codes "a"))
        (some (codes "B"))
        (sent ∷ [])
        (store_of (codes "to") (codes "B"))).1
      >>= λ payload.
          (encrypted_decode
            (opening parse)
            backend
            append_ldc
            lib
            (codes "B")
            (some payload)
            9
            (store_of (codes "from") (codes "A"))).result)
    ≡ returned (sent ∷ [])
unfolding c_str
encrypted_decode-encrypted_encode_example =
    encrypted_decode-encrypted_encode (opening parse) backend append_ldc lib (codes "A") (codes "B")
      (codes "u") (codes "a") key (mate (codes "to") (codes "B")) (mate (codes "from") (codes "A"))
      (store_of (codes "to") (codes "B")) (store_of (codes "from") (codes "A")) sent [] 9 refl refl
      refl (omega arith) at_a at_b refl refl (refl, (refl, refl)) refl
      (no_secret (codes "to") (codes "B") to_encrypt (codes "A"))
      (no_secret (codes "from") (codes "A") to_decrypt (codes "B")) key-derived (carried, tt)
      reparsed

encrypted_decode-AreItems_example :
    (v : Json) × (c : Container) × (parse [] ≡ some v)
    × (read_container (λ w. []) v ≡ returned c)
    × IsKnown c.login c.s_id (store_of (codes "from") (codes "A"))
    × AreItems (opening parse) lib 0 c.items (sent ∷ [])
encrypted_decode-AreItems_example =
    encrypted_decode-AreItems (opening parse) backend append_ldc lib (codes "B") [] 9
      (store_of (codes "from") (codes "A")) (sent ∷ []) decoded_once

abbrev untyped : Json
untyped = object (
    member (codes "mType") nothing (
      member (codes "type") (text (codes "Encrypted")) (
        member (codes "mId") (text (codes "u")) (
          member (codes "login") (text (codes "a")) (
            member (codes "sId") (text (codes "A"))
              (member (codes "data") (array (cons (text (codes "p")) nil)) end))))))

untyped-Members6 : Members6 untyped
unfolding object_get_ex member_value str_eq
untyped-Members6 = record {
  m_type = nothing;
  type = text (codes "Encrypted");
  m_id = text (codes "u");
  login = text (codes "a");
  s_id = text (codes "A");
  jdata = array (cons (text (codes "p")) nil);
  has_m_type = refl;
  has_type = refl;
  has_m_id = refl;
  has_login = refl;
  has_s_id = refl;
  has_data = refl;
}

encrypted_decode_null_example :
    (encrypted_decode
      (opening (λ s. some untyped))
      backend
      append_ldc
      lib
      (codes "B")
      (some (codes "x"))
      1
      []).result
    ≡ fault
unfolding untyped-Members6
encrypted_decode_null_example =
    encrypted_decode_null (opening (λ s. some untyped)) backend append_ldc lib (codes "B")
      (codes "x") 1 [] untyped untyped-Members6 (omega arith) refl (inl refl)
