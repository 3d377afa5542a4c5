-- ===== src/Coder/Container/Items.antt =====
-- src/coder/coder.c: the texts of a container come from its items.
use rsmp_gatewa.Common.{
  returned_inj, ◌≡◌, not, subst, ◌⊎◌, inl, inr, ℕ, suc, refl, ap, ◌∙◌, Bool, true, false, Option,
  none, some, List, [], ◌∷◌, arith, CStr, Ldc, Outcome, returned, failed, fault, guard, ◌>>=◌,
  >>=-eq-returned,
}
use rsmp_gatewa.Auth.Entry.{Key}
use rsmp_gatewa.Auth.Store.{Store}
use rsmp_gatewa.Coder.Secrets.{Backend, Class}
use rsmp_gatewa.Coder.Container.{
  Opening, Ptxt, ptxt_deserial, ptxt_is_valid, is_classed, is_marked, is_outdated,
}
use rsmp_gatewa.Coder.Container.Open.{
  Opened, accept, collect, coder_decrypt, secret_from, coder_cipher_decrypt, decode_items,
  json_string,
}
use rsmp_gatewa.Rsmp.Values.{Json, Items, nil, cons}

-- The text has one of the marks, and its time is in the window, if there is one, when it is read as
-- the item of this number.
abbrev pub IsFresh : Opening → ℕ → Ptxt → Type 0
IsFresh op i p =
    (original : CStr) × (p.original ≡ some original)
    × (is_marked original ≡ true)
    × (is_outdated op.window (op.delta_ms i p.timestamp) ≡ false)

-- The text was in the item, under a key of the cipher.
abbrev pub IsItem : Opening → CStr → ℕ → Json → Ptxt → Type 0
IsItem op lib i v p =
    (key : List ℕ) × (payload : CStr) × (op.decrypt lib key (json_string op.text_of v)
      ≡ returned payload)
    × (ptxt_deserial op payload ≡ returned p)
    × IsFresh op i p

-- The texts come from the items in their order, at most one from each.
abbrev pub AreItems : Opening → CStr → ℕ → Items → List Ptxt → Type 0
AreItems op lib i nil [] = Unit {0}
AreItems op lib i nil (p ∷ ps) = false ≡ true
AreItems op lib i (cons v vs) [] = Unit {0}
AreItems op lib i (cons v vs) (p ∷ ps) =
    (IsItem op lib i v p × AreItems op lib (suc i) vs ps) ⊎ AreItems op lib (suc i) vs (p ∷ ps)

guards_pass :
    (x y : Bool) → (guard (not x) >>= λ _. guard y) ≡ returned tt → (x ≡ false) × (y ≡ true)
guards_pass false true h = (refl, refl)
guards_pass false false h = cc h
guards_pass true y h = cc h

fresh_of :
    (window delta ts : ℕ) (o : Option CStr) (class : Option Class)
    → ptxt_is_valid window delta (record { original = o; class = class; timestamp = ts })
      ≡ returned tt
    → (original : CStr) × (o ≡ some original)
      × (is_marked original ≡ true)
      × (is_outdated window delta ≡ false)
unfolding ptxt_is_valid is_classed
fresh_of window delta ts none class h = cc h
fresh_of window delta ts (some original) none h = cc h
fresh_of window delta ts (some original) (some class) h =
    let (fresh, marked) = guards_pass (is_outdated window delta) (is_marked original) h in
    (original, refl, marked, fresh)

valid_kept :
    (op : Opening) (i : ℕ) (q p : Ptxt)
    → (ptxt_is_valid op.window (op.delta_ms i q.timestamp) q >>= λ _. returned q) ≡ returned p
    → (q ≡ p) × IsFresh op i p
valid_kept op i q p h =
    let (t, valid, e) =
      >>=-eq-returned (ptxt_is_valid op.window (op.delta_ms i q.timestamp) q) (λ _. returned q) h in
    let same : q ≡ p = returned_inj q p e in
    (
      same,
      subst (IsFresh op i) same
          (fresh_of op.window (op.delta_ms i q.timestamp) q.timestamp q.original q.class valid),
    )

accept-IsFresh :
    (op : Opening) (i : ℕ) (o : Outcome CStr) (p : Ptxt)
    → accept op i o ≡ returned p
    → (payload : CStr) × (o ≡ returned payload)
      × (ptxt_deserial op payload ≡ returned p)
      × IsFresh op i p
unfolding accept
accept-IsFresh op i o p h =
    let (payload, e, h1) =
      >>=-eq-returned o
        (λ t. ptxt_deserial op t >>= λ q.
          ptxt_is_valid op.window (op.delta_ms i q.timestamp) q >>= λ _. returned q)
        h in
    let (q, e1, h2) =
      >>=-eq-returned (ptxt_deserial op payload)
        (λ q. ptxt_is_valid op.window (op.delta_ms i q.timestamp) q >>= λ _. returned q) h1 in
    let (same, fresh) = valid_kept op i q p h2 in (payload, e, e1 ∙ ap returned same, fresh)

decrypted_under :
    (op : Opening) (lib : CStr) (key : List ℕ) (input : Option CStr) (t : CStr)
    → coder_cipher_decrypt op lib key input ≡ returned t
    → op.decrypt lib key input ≡ returned t
unfolding coder_cipher_decrypt
decrypted_under op lib key input t h = ground arith

-- What a collection of an item and of the rest is made of.
collect_inv :
    (o : Outcome Ptxt) (rest : Opened (List Ptxt)) (ps : List Ptxt)
    → (collect o rest).result ≡ returned ps
    → ((p : Ptxt) × (qs : List Ptxt) × (o ≡ returned p)
        × (rest.result ≡ returned qs)
        × (p ∷ qs ≡ ps))
      ⊎ (rest.result ≡ returned ps)
unfolding collect
collect_inv failed rest ps h = inr h
collect_inv fault rest ps h = cc h
collect_inv (returned p) rest ps h =
    let (qs, e, e') = >>=-eq-returned rest.result (λ qs. returned (p ∷ qs)) h in
    inl (p, qs, refl, e, returned_inj (p ∷ qs) ps e')

skipped :
    (op : Opening) (lib : CStr) (i : ℕ) (v : Json) (vs : Items) (ps : List Ptxt)
    → AreItems op lib (suc i) vs ps
    → AreItems op lib i (cons v vs) ps
skipped op lib i v vs [] h = tt
skipped op lib i v vs (p ∷ ps) h = inr h

module _ (op : Opening) (backend : Backend) (ldc : Ldc) (lib local : CStr)
    (login s_id : Option CStr) where
  accept-IsItem :
      (i : ℕ) (v : Json) (s : Store) (p : Ptxt)
      → accept op i
          (coder_decrypt op backend ldc lib local login s_id (json_string op.text_of v) s).result
        ≡ returned p
      → IsItem op lib i v p
  unfolding coder_decrypt
  accept-IsItem i v s p h =
      let (payload, e, reads, fresh) =
        accept-IsFresh op i
          (coder_decrypt op backend ldc lib local login s_id (json_string op.text_of v) s).result p
          h in
      let (r, e', dec) =
        >>=-eq-returned (secret_from op backend ldc lib local login s_id s).1
          (λ r. coder_cipher_decrypt op lib r.1 (json_string op.text_of v)) e in
      (
        r.1,
        payload,
        decrypted_under op lib r.1 (json_string op.text_of v) payload dec,
        reads,
        fresh,
      )

  pub items-AreItems :
      (i : ℕ) (vs : Items) (auth : Option Key) (s : Store) (ps : List Ptxt)
      → (decode_items op backend ldc lib local login s_id i vs auth s).result ≡ returned ps
      → AreItems op lib i vs ps
  unfolding decode_items
  items-AreItems i nil auth s [] h = tt
  items-AreItems i nil auth s (p ∷ ps) h = cc h
  items-AreItems i (cons v vs) auth s ps h =
      let o : Opened CStr =
        coder_decrypt op backend ldc lib local login s_id (json_string op.text_of v) s in
      let rest : Opened (List Ptxt) =
        decode_items op backend ldc lib local login s_id (suc i) vs o.auth o.store in
      elim (collect_inv (accept op i o.result) rest ps h) [
        | inl (p, qs, accepted, others, same) ↦ subst (AreItems op lib i (cons v vs)) same (
            inl
              (accept-IsItem i v s p accepted, items-AreItems (suc i) vs o.auth o.store qs others))
        | inr others ↦ skipped op lib i v vs ps (items-AreItems (suc i) vs o.auth o.store ps others)
      ]
