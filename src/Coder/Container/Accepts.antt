-- ===== src/Coder/Container/Accepts.antt =====
-- src/coder/coder.c: which texts Encrypted_decode delivers, and which payloads stop it.
use rsmp_gatewa.Common.{
  returned_inj, require-some, ◌≡◌, ◌≢◌, subst, ◌⊎◌, inl, inr, ℕ, suc, refl, sym, ap, ◌∙◌, true,
  Option, none, some, List, [], ◌∷◌, ltb, arith, CStr, Ldc, Outcome, returned, failed, fault, guard,
  require, ◌>>=◌, >>=-eq-returned,
}
use rsmp_gatewa.Auth.Entry.{Key, Auth}
use rsmp_gatewa.Auth.Store.{Store, lookup, auth_find_by_key}
use rsmp_gatewa.Coder.Secrets.{coder_secret_get, Backend, to_decrypt}
use rsmp_gatewa.Auth.Rotation.{from_db_id}
use rsmp_gatewa.Coder.Container.{Opening, Ptxt, coder_auth_get, auth_for, if_active, keep}
use rsmp_gatewa.Coder.Container.Open.{
  Container, Opened, read_container, accept, collect, if_some, coder_decrypt, secret_from,
  coder_cipher_decrypt, decode_items, json_string, path_from, encrypted_decode, open_container,
}
use rsmp_gatewa.Rsmp.Values.{Json, Items, nil, cons}
use rsmp_gatewa.Coder.Container.Items.{AreItems, items-AreItems}

-- There is an active entry for that login and that site.
abbrev pub IsKnown : Option CStr → Option CStr → Store → Type 0
IsKnown login s_id s =
    (l : CStr) × (i : CStr) × (login ≡ some l)
    × (s_id ≡ some i)
    × ((a : Auth) × (lookup s from_db_id i l ≡ some a) × (a.active ≡ true))

if_active_live : (b c : Auth) → if_active b ≡ returned c → b.active ≡ true
unfolding if_active
if_active_live b c h = ground arith

active_found :
    (s : Store) (login s_id : Option CStr) (a : Auth)
    → (coder_auth_get s login s_id to_decrypt).1 ≡ returned a
    → IsKnown login s_id s
unfolding coder_auth_get auth_for auth_find_by_key
active_found s none none a h = cc h
active_found s (some l) none a h = cc h
active_found s none (some i) a h = cc h
active_found s (some l) (some i) a h =
    let (b, found, live) = >>=-eq-returned (require (lookup s from_db_id i l)) if_active h in
    (l, i, refl, refl, (b, require-some (lookup s from_db_id i l) b found, if_active_live b a live))

Outcome-cases :
    {A : Type 0} (o : Outcome A) → ((a : A) × (o ≡ returned a)) ⊎ ((o ≡ failed) ⊎ (o ≡ fault))
Outcome-cases (returned a) = inl (a, refl)
Outcome-cases failed = inr (inl refl)
Outcome-cases fault = inr (inr refl)

keep_failed :
    (s_id : Option CStr) (s : Store)
    → (keep to_decrypt s_id s failed ≡ (s, failed)) ⊎ (keep to_decrypt s_id s failed ≡ (s, fault))
unfolding keep
keep_failed none s = inr refl
keep_failed (some i) s = inl refl

keep_fault : (s_id : Option CStr) (s : Store) → keep to_decrypt s_id s fault ≡ (s, fault)
unfolding keep
keep_fault none s = refl
keep_fault (some i) s = refl

module _ (op : Opening) (backend : Backend) (ldc : Ldc) (lib local : CStr)
    (login s_id : Option CStr) where
  -- Without an entry, coder_decrypt leaves the store as it is.
  abbrev IsUnknown : Option CStr → Store → Type 0
  IsUnknown input s =
      ((k : Option Key) × (coder_decrypt op backend ldc lib local login s_id input s
          ≡ record { store = s; auth = k; result = failed }))
      ⊎ ((coder_decrypt op backend ldc lib local login s_id input s).result ≡ fault)

  kept-IsUnknown :
      (input : Option CStr) (s : Store)
      → (secret_from op backend ldc lib local login s_id s ≡ (s, failed))
        ⊎ (secret_from op backend ldc lib local login s_id s ≡ (s, fault))
      → IsUnknown input s
  unfolding coder_decrypt
  kept-IsUnknown input s (inl e) = inl (
    path_from s_id (coder_auth_get s login s_id to_decrypt).0,
    ap
        (λ z. record {
          store = z.0;
          auth = path_from s_id (coder_auth_get s login s_id to_decrypt).0;
          result = z.1 >>= λ r. coder_cipher_decrypt op lib r.1 input;
        })
        e,
  )
  kept-IsUnknown input s (inr e) =
      inr (ap (λ z. z.1 >>= λ r. coder_cipher_decrypt op lib r.1 input) e)

  secret_from-eq :
      (s : Store) (o : Outcome Auth)
      → (coder_auth_get s login s_id to_decrypt).1 ≡ o
      → secret_from op backend ldc lib local login s_id s
        ≡ keep to_decrypt s_id s (o >>= λ a. coder_secret_get backend ldc lib a local to_decrypt)
  unfolding secret_from
  secret_from-eq s o e =
      ap
        (λ q.
          keep to_decrypt s_id s (q >>= λ a. coder_secret_get backend ldc lib a local to_decrypt))
        e

  decrypt-IsUnknown :
      (input : Option CStr) (s : Store)
      → ((coder_auth_get s login s_id to_decrypt).1 ≡ failed)
        ⊎ ((coder_auth_get s login s_id to_decrypt).1 ≡ fault)
      → IsUnknown input s
  decrypt-IsUnknown input s (inr e) =
      kept-IsUnknown input s (inr (secret_from-eq s fault e ∙ keep_fault s_id s))
  decrypt-IsUnknown input s (inl e) = elim (keep_failed s_id s) [
    | inl kept ↦ kept-IsUnknown input s (inl (secret_from-eq s failed e ∙ kept))
    | inr kept ↦ kept-IsUnknown input s (inr (secret_from-eq s failed e ∙ kept))
  ]

  -- After an item that nothing was found for, the texts are those of the rest.
  unknown-rest :
      (i : ℕ) (o : Opened CStr) (s : Store) (rest : Opened (List Ptxt)) (ps : List Ptxt)
      → (o.result ≡ failed) ⊎ (o.result ≡ fault)
      → (collect (accept op i o.result) rest).result ≡ returned ps
      → (o.result ≡ failed) × (rest.result ≡ returned ps)
  unfolding accept collect
  unknown-rest i o s rest ps (inl e) h =
      (e, ap (λ q. (collect (accept op i q) rest).result) (sym e) ∙ h)
  unknown-rest i o s rest ps (inr e) h =
      let bad : fault ≡ returned ps = ap (λ q. (collect (accept op i q) rest).result) (sym e) ∙ h in
      cc bad

  items-IsKnown :
      (i : ℕ) (vs : Items) (auth : Option Key) (s : Store) (p : Ptxt) (ps : List Ptxt)
      → (decode_items op backend ldc lib local login s_id i vs auth s).result ≡ returned (p ∷ ps)
      → IsKnown login s_id s
  unfolding decode_items
  items-IsKnown i nil auth s p ps h = cc h
  items-IsKnown i (cons v vs) auth s p ps h =
      let o : Opened CStr =
        coder_decrypt op backend ldc lib local login s_id (json_string op.text_of v) s in
      let rest : Opened CStr → Opened (List Ptxt) =
        λ q. decode_items op backend ldc lib local login s_id (suc i) vs q.auth q.store in
      let unknown : ((coder_auth_get s login s_id to_decrypt).1 ≡ failed)
            ⊎ ((coder_auth_get s login s_id to_decrypt).1 ≡ fault)
          → IsKnown login s_id s =
        λ e. elim (decrypt-IsUnknown (json_string op.text_of v) s e) [
          | inl (k, same) ↦
              items-IsKnown (suc i) vs k s p ps
                (unknown-rest i (record { store = s; auth = k; result = failed }) s
                  (rest (record { store = s; auth = k; result = failed })) (p ∷ ps) (inl refl)
                  (ap (λ q. (collect (accept op i q.result) (rest q)).result) (sym same) ∙ h)).1
          | inr bad ↦ absurd (failed_fault (unknown-rest i o s (rest o) (p ∷ ps) (inr bad) h).0 bad)
        ] in
      elim (Outcome-cases (coder_auth_get s login s_id to_decrypt).1) [
        | inl (a, e) ↦ active_found s login s_id a e
        | inr e ↦ unknown e
      ]
    where
      failed_fault : {A : Type 0} {q : Outcome A} → q ≡ failed → q ≢ fault
      failed_fault e e' = cc (e, e')

  if_some_inv :
      (o : Outcome (List Ptxt)) (ps : List Ptxt)
      → (o >>= if_some) ≡ returned ps
      → (p : Ptxt) × (qs : List Ptxt) × (p ∷ qs ≡ ps) × (o ≡ returned (p ∷ qs))
  unfolding if_some
  if_some_inv (returned []) ps h = cc h
  if_some_inv (returned (p ∷ qs)) ps h = (p, qs, returned_inj (p ∷ qs) ps h, refl)
  if_some_inv failed ps h = cc h
  if_some_inv fault ps h = cc h

pub open_container_inv :
    (op : Opening) (backend : Backend) (ldc : Ldc) (lib local : CStr) (s : Store)
    → (o : Outcome Container) (ps : List Ptxt)
    → (open_container op backend ldc lib local s o).result ≡ returned ps
    → (c : Container) × (o ≡ returned c)
      × (((decode_items op backend ldc lib local c.login c.s_id 0 c.items none s).result
            >>= if_some)
          ≡ returned ps)
unfolding open_container
open_container_inv op backend ldc lib local s failed ps h = cc h
open_container_inv op backend ldc lib local s fault ps h = cc h
open_container_inv op backend ldc lib local s (returned c) ps h = (c, refl, h)

-- What Encrypted_decode delivers was in a container of the right header, from a login and a site
-- that the store has an active entry for; the texts come from the items in their order, each
-- decrypted under a key of the cipher, with a mark, and in the window of time.
pub encrypted_decode-AreItems :
    (op : Opening) (backend : Backend) (ldc : Ldc) (lib local : CStr) (buf : CStr) (len : ℕ)
    → (s : Store) (ps : List Ptxt)
    → (encrypted_decode op backend ldc lib local (some buf) len s).result ≡ returned ps
    → (v : Json) × (c : Container) × (op.parse buf ≡ some v)
      × (read_container op.text_of v ≡ returned c)
      × IsKnown c.login c.s_id s
      × AreItems op lib 0 c.items ps
unfolding encrypted_decode
encrypted_decode-AreItems op backend ldc lib local buf len s ps h =
    let o : Outcome Container =
      guard (ltb 0 len) >>= λ _. require (op.parse buf) >>= read_container op.text_of in
    let (c, e, decs) = open_container_inv op backend ldc lib local s o ps h in
    let (sent, e', h') =
      >>=-eq-returned (guard (ltb 0 len))
        (λ _. require (op.parse buf) >>= read_container op.text_of) e in
    let (v, parses, reads) =
      >>=-eq-returned (require (op.parse buf)) (read_container op.text_of) h' in
    let (p, qs, same, decs') =
      if_some_inv op backend ldc lib local c.login c.s_id
        (decode_items op backend ldc lib local c.login c.s_id 0 c.items none s).result ps decs in
    (
      v,
      c,
      require-some (op.parse buf) v parses,
      reads,
      items-IsKnown op backend ldc lib local c.login c.s_id 0 c.items none s p qs decs',
      subst (AreItems op lib 0 c.items) same
          (items-AreItems op backend ldc lib local c.login c.s_id 0 c.items none s (p ∷ qs) decs'),
    )
