-- ===== src/Coder/Container/RoundTrip.antt =====
-- src/coder/coder.c: what Encrypted_encode sends to a peer, Encrypted_decode opens there.
use rsmp_gatewa.Common.{
  ◌≡◌, ℕ, suc, refl, sym, ap, ◌∙◌, true, Option, none, some, List, [], ◌∷◌, ltb, arith, CStr,
  str_eq, Ldc, returned, ◌>>=◌, ◌<◌,
}
use rsmp_gatewa.Auth.Entry.{Key, Auth}
use rsmp_gatewa.Auth.Store.{Store, lookup}
use rsmp_gatewa.Coder.Secrets.{Backend, to_encrypt, to_decrypt}
use rsmp_gatewa.Coder.Container.{Opening, Ptxt, object_get_ex, member_value}
use rsmp_gatewa.Coder.Container.Seal.{encode_items, container, encrypted_encode}
use rsmp_gatewa.Coder.Container.Open.{
  read_container, coder_cipher_decrypt, decode_items, json_string, text_is, is_empty,
  encrypted_decode, open_container, collect,
}
use rsmp_gatewa.Rsmp.Values.{Json, text, c_str, array_items}
use rsmp_gatewa.Coder.Container.Carried.{
  as_items, as_json, IsText, ptxt_object, AreCarried, accept-IsCarried, sealed_text-IsCarried,
}
use rsmp_gatewa.Coder.Container.Steps.{
  HasKeyTo, HasKeyFrom, decode-step, encode-step, encrypted-once, decrypted-once,
}
use rsmp_gatewa.Auth.Store.{lookup}
use rsmp_gatewa.Auth.Rotation.{to_db_id}
use rsmp_gatewa.Coder.Container.{from_db_id}
use rsmp_gatewa.Coder.Container.Open.{if_some}
use rsmp_gatewa.Coder.Secrets.Agree.{AreMates, IsCoherent, derived, passphrase-agree}
use rsmp_gatewa.Coder.Secrets.{get_current_passphrase, get_passphrase_for_pwd}

abbrev login_or : CStr → CStr → List Ptxt → CStr
login_or current l [] = current
login_or current l (p ∷ ps) = l

login_or_same : (l : CStr) (ps : List Ptxt) → login_or l l ps ≡ l
login_or_same l [] = refl
login_or_same l (p ∷ ps) = refl

module _ (op : Opening) (backend : Backend) (ldc : Ldc) (lib a_site b_site l : CStr) (key : List ℕ)
    (context : op.context_new lib ≡ true) where
  -- The loops: from the item of any number, with any login before.
  items-round :
      (i : ℕ) (current : CStr) (ps : List Ptxt) (auth : Option Key) (sa sb : Store)
      → AreCarried op backend lib key i ps
      → HasKeyTo op backend ldc lib a_site b_site l key context sa
      → HasKeyFrom op backend ldc lib a_site b_site l key context sb
      → (texts : List CStr) × ((encode_items backend ldc lib a_site
            (some l)
            (some b_site)
            current
            ps
            sa).1
          ≡ returned (login_or current l ps, texts))
        × ((decode_items op backend ldc lib b_site
              (some l)
              (some a_site)
              i
              (as_items texts)
              auth
              sb).result
            ≡ returned ps)
  unfolding encode_items decode_items collect json_string
  items-round i current [] auth sa sb h ka kb = ([], refl, refl)
  items-round i current (p ∷ ps) auth sa sb (h, hs) ka kb =
      let input : CStr = backend.print (ptxt_object backend p.timestamp h.original h.kind) in
      let (sa', enc, ka') =
        encrypted-once op backend ldc lib a_site b_site l key context sa input h.sealed ka
          h.encrypts in
      let (sb', k, dec, kb') =
        decrypted-once op backend ldc lib a_site b_site l key context sb (some h.sealed) kb in
      let (texts, encs, decs) = items-round (suc i) l ps k sa' sb' hs ka' kb' in
      (
        h.sealed ∷ texts,
        rw
            (
              encode-step op backend ldc lib a_site b_site l key context current input l h.sealed p
                  ps sa sa' (sealed_text-IsCarried op backend lib key i p h) enc,
              encs,
              login_or_same l ps,
            )
            refl,
        rw
            (
              decode-step op backend ldc lib b_site (some l) (some a_site) i (text h.sealed)
                  (as_items texts) auth sb
                  (record {
                    store = sb';
                    auth = k;
                    result = coder_cipher_decrypt op lib key (some h.sealed);
                  })
                  (rw h.sealed_is_text dec),
              accept-IsCarried op backend lib key i p h context,
              decs,
            )
            refl,
      )

  container-read :
      (text_of : Json → CStr) (uuid s : CStr) (ss : List CStr)
      → IsText a_site
      → IsText l
      → read_container text_of (as_json (container backend ldc lib a_site uuid l (s ∷ ss)))
        ≡ returned (record { login = some l; s_id = some a_site; items = as_items (s ∷ ss) })
  unfolding read_container object_get_ex member_value json_string str_eq c_str array_items is_empty
      text_is
  container-read text_of uuid s ss a t = rw (a, t) refl

  -- A container with these items, as it is printed, gives what the loop over the items gives.
  decode-container :
      (uuid : CStr) (texts : List CStr) (p : Ptxt) (ps : List Ptxt) (len : ℕ) (sb : Store)
      → IsText a_site
      → IsText l
      → 0 < len
      → op.parse (backend.print (container backend ldc lib a_site uuid l texts))
        ≡ some (as_json (container backend ldc lib a_site uuid l texts))
      → (decode_items op backend ldc lib b_site
          (some l)
          (some a_site)
          0
          (as_items texts)
          none
          sb).result
        ≡ returned (p ∷ ps)
      → (encrypted_decode op backend ldc lib b_site
          (some (backend.print (container backend ldc lib a_site uuid l texts)))
          len
          sb).result
        ≡ returned (p ∷ ps)
  unfolding encrypted_decode open_container decode_items if_some
  decode-container uuid [] p ps len sb a t pos parses decs = cc decs
  decode-container uuid (s ∷ ss) p ps len sb a t pos parses decs =
      let sent : ltb 0 len ≡ true = ground arith in
      rw (sent, parses)
        (ap (λ c. (open_container op backend ldc lib b_site sb c).result)
            (container-read op.text_of uuid s ss a t)
          ∙ rw decs refl)

-- The keys of two peers.
derived-agree :
    (backend : Backend) (lib a_site b_site : CStr) (a b : Auth)
    → AreMates a_site a b_site b
    → a.pwd ≡ b.pwd
    → derived backend lib a_site a to_encrypt ≡ derived backend lib b_site b to_decrypt
unfolding derived get_current_passphrase
derived-agree backend lib a_site b_site a b mates same =
    ap (λ o. o >>= λ source. backend.key_gen lib source)
      (passphrase-agree a_site b_site a b a.pwd mates
        ∙ ap (get_passphrase_for_pwd b_site b to_decrypt) same)

-- Two peers have active entries about each other with one password, and keep no secrets but those
-- of their passwords. What one puts in a container, and the libraries carry, the other takes out of
-- it, all texts in their order, where the site and the login have no NUL and json-c reads back the
-- container that it printed.
pub encrypted_decode-encrypted_encode :
    (op : Opening) (backend : Backend) (ldc : Ldc) (lib a_site b_site uuid l : CStr)
    → (key : List ℕ) (a b : Auth) (sa sb : Store) (p : Ptxt) (ps : List Ptxt) (len : ℕ)
    → op.context_new lib ≡ true
    → IsText a_site
    → IsText l
    → 0 < len
    → lookup sa to_db_id b_site l ≡ some a
    → lookup sb from_db_id a_site l ≡ some b
    → a.active ≡ true
    → b.active ≡ true
    → AreMates a_site a b_site b
    → a.pwd ≡ b.pwd
    → IsCoherent backend lib a_site a to_encrypt
    → IsCoherent backend lib b_site b to_decrypt
    → derived backend lib a_site a to_encrypt ≡ returned key
    → AreCarried op backend lib key 0 (p ∷ ps)
    → ((items : List CStr)
        → (encode_items backend ldc lib a_site (some l) (some b_site) [] (p ∷ ps) sa).1
          ≡ returned (l, items)
        → op.parse (backend.print (container backend ldc lib a_site uuid l items))
          ≡ some (as_json (container backend ldc lib a_site uuid l items)))
    → ((encrypted_encode backend ldc lib a_site uuid (some l) (some b_site) (p ∷ ps) sa).1
        >>= λ payload. (encrypted_decode op backend ldc lib b_site (some payload) len sb).result)
      ≡ returned (p ∷ ps)
unfolding encrypted_encode
encrypted_decode-encrypted_encode op backend ldc lib a_site b_site uuid l key a b sa sb p ps len
      context at_site at_login pos at_a at_b live_a live_b mates same coherent_a coherent_b gives
      carried parses =
    let gives_b : derived backend lib b_site b to_decrypt ≡ returned key =
      sym (derived-agree backend lib a_site b_site a b mates same) ∙ gives in
    let (texts, encs, decs) =
      items-round op backend ldc lib a_site b_site l key context 0 [] (p ∷ ps) none sa sb carried
        (a, at_a, (live_a, (gives, coherent_a))) (b, at_b, (live_b, (gives_b, coherent_b))) in
    rw encs (
      decode-container op backend ldc lib a_site b_site l key context uuid texts p ps len sb at_site
        at_login pos (parses texts encs) decs)
