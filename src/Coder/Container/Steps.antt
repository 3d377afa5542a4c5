-- ===== src/Coder/Container/Steps.antt =====
-- src/coder/coder.c: one round of the loops of Encrypted_encode and of Encrypted_decode.
use rsmp_gatewa.Common.{
  ◌≡◌, ℕ, suc, refl, ap, ◌∙◌, true, Option, some, List, ◌∷◌, CStr, Ldc, Outcome, returned, ◌>>=◌,
  on,
}
use rsmp_gatewa.Auth.Entry.{Key}
use rsmp_gatewa.Auth.Store.{Store}
use rsmp_gatewa.Coder.Secrets.{Backend, to_encrypt, to_decrypt}
use rsmp_gatewa.Coder.Container.{Opening, Ptxt, coder_auth_get}
use rsmp_gatewa.Coder.Container.Keys.{HasKey, secret_for, secret_for-HasKey}
use rsmp_gatewa.Coder.Container.Seal.{sealed_text, secret_to, coder_encrypt, encode_items}
use rsmp_gatewa.Coder.Container.Open.{
  Opened, coder_cipher_decrypt, accept, path_from, secret_from, coder_decrypt, decode_items,
  json_string, collect,
}
use rsmp_gatewa.Rsmp.Values.{Json, Items, cons}

-- The round of an item that coder_decrypt gives this for.
pub decode-step :
    (op : Opening) (backend : Backend) (ldc : Ldc) (lib local : CStr) (login s_id : Option CStr)
    → (i : ℕ) (v : Json) (vs : Items) (auth : Option Key) (s : Store) (o : Opened CStr)
    → coder_decrypt op backend ldc lib local login s_id (json_string op.text_of v) s ≡ o
    → decode_items op backend ldc lib local login s_id i (cons v vs) auth s
      ≡ collect
          (accept op i o.result)
          (decode_items op backend ldc lib local login s_id (suc i) vs o.auth o.store)
unfolding decode_items
decode-step op backend ldc lib local login s_id i v vs auth s o dec =
    ap
      (λ q.
        collect (accept op i q.result)
          (decode_items op backend ldc lib local login s_id (suc i) vs q.auth q.store))
      dec

module _ (op : Opening) (backend : Backend) (ldc : Ldc) (lib a_site b_site l : CStr) (key : List ℕ)
    (context : op.context_new lib ≡ true) where
  abbrev pub HasKeyTo : Store → Type 0
  HasKeyTo = HasKey backend ldc lib a_site to_encrypt b_site l key

  abbrev pub HasKeyFrom : Store → Type 0
  HasKeyFrom = HasKey backend ldc lib b_site to_decrypt a_site l key

  pub encrypted-once :
      (s : Store) (input sealed : CStr)
      → HasKeyTo s
      → backend.encrypt lib key input ≡ returned sealed
      → (s' : Store) × (coder_encrypt backend ldc lib a_site (some l) (some b_site) input s
          ≡ (s', returned (l, sealed)))
        × HasKeyTo s'
  unfolding coder_encrypt secret_to
  encrypted-once s input sealed h e =
      let (b, gets, login, h') =
        secret_for-HasKey backend ldc lib a_site to_encrypt b_site l key s h in
      (
        (secret_for backend ldc lib a_site to_encrypt b_site l s).0,
        rw (coder_encrypt, gets, e, login) refl,
        h',
      )

  pub decrypted-once :
      (s : Store) (input : Option CStr)
      → HasKeyFrom s
      → (s' : Store) × (k : Option Key) × (coder_decrypt op backend ldc lib b_site
            (some l)
            (some a_site)
            input
            s
          ≡ record { store = s'; auth = k; result = coder_cipher_decrypt op lib key input })
        × HasKeyFrom s'
  unfolding coder_decrypt secret_from
  decrypted-once s input h =
      let (b, gets, login, h') =
        secret_for-HasKey backend ldc lib b_site to_decrypt a_site l key s h in
      (
        (secret_for backend ldc lib b_site to_decrypt a_site l s).0,
        path_from (some a_site) (coder_auth_get s (some l) (some a_site) to_decrypt).0,
        rw (coder_decrypt, gets) refl,
        h',
      )

  pub encode-step :
      (current input login sealed : CStr) (p : Ptxt) (ps : List Ptxt) (s s' : Store)
      → sealed_text backend p.original p.class p.timestamp ≡ returned input
      → coder_encrypt backend ldc lib a_site (some l) (some b_site) input s
        ≡ (s', returned (login, sealed))
      → (encode_items backend ldc lib a_site (some l) (some b_site) current (p ∷ ps) s).1 ≡ (
          (encode_items backend ldc lib a_site (some l) (some b_site) login ps s').1 >>= λ q.
          returned (q.0, sealed ∷ q.1))
  unfolding encode_items on
  encode-step current input login sealed p ps s s' sealing enc =
      let after : Store × Outcome (CStr × CStr) → Store × Outcome (CStr × List CStr) = λ z.
        on z.0 z.1 (λ r.
          let (s'', rest) = encode_items backend ldc lib a_site (some l) (some b_site) r.0 ps z.0 in
          (s'', rest >>= λ q. returned (q.0, r.1 ∷ q.1))) in
      ap
        (λ o.
          (on s o (λ i. after (coder_encrypt backend ldc lib a_site (some l) (some b_site) i s))).1)
        sealing
      ∙ ap (λ z. (after z).1) enc
