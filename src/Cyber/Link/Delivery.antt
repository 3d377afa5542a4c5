-- ===== src/Cyber/Link/Delivery.antt =====
-- src/cyber/cyber.c: where cyber_receive puts what it deciphers, and how a message goes from cyber_send
-- of one connection to the application of its peer.
use rsmp_gatewa.Common.{
  returned_inj, ◌≡◌, refl, ap, ◌∙◌, subst, ℕ, false, Option, some, List, [], ◌∷◌, ◌++◌, All, inl,
  inr, CStr, codes, suc, if◌then◌else◌, Ldc, returned, require, >>=-eq-returned,
}
use rsmp_gatewa.Auth.Store.{Store}
use rsmp_gatewa.Cipher.{Cipher}
use rsmp_gatewa.Coder.Secrets.{Backend, Class, internal, external}
use rsmp_gatewa.Coder.Container.{
  Opening, Ptxt, ptxt_deserial, read_ptxt, ptxt_extract_timestamp, ptxt_extract_class,
  ptxt_json_extract_field,
}
use rsmp_gatewa.Coder.Container.Items.{AreItems}
use rsmp_gatewa.Coder.Container.Open.{Container, Opened, encrypted_decode}
use rsmp_gatewa.Coder.Container.Accepts.{encrypted_decode-AreItems, open_container_inv}
use rsmp_gatewa.Rsmp.Values.{Items, nil, cons}
use rsmp_gatewa.Cyber.State.{AuthRef}
use rsmp_gatewa.Cyber.Link.{
  Clock, Pending, queue_entry, Link, arrived, check_timeout, container_of, auth_of, push_ptxt,
  push_ptxts, push_decoded, after_decode, decode_payload, on_arrival, receive_round,
}

-- A text that has its pointers.
abbrev pub IsWhole : Ptxt → Type 0
IsWhole p = (s : CStr) × (c : Class) × (p.original ≡ some s) × (p.class ≡ some c)

-- The texts of a class, in their order.
abbrev texts_of_class : Class → Option Class → Option CStr → List CStr → List CStr
texts_of_class internal (some internal) (some s) rest = s ∷ rest
texts_of_class external (some external) (some s) rest = s ∷ rest
texts_of_class _ _ _ rest = rest

unfoldable pub texts_of : Class → List Ptxt → List CStr
texts_of c [] = []
texts_of c (p ∷ ps) = texts_of_class c p.class p.original (texts_of c ps)

unfoldable pub insert_all : Ldc → Option AuthRef → List CStr → List Pending → List Pending
insert_all ldc attrib [] q = q
insert_all ldc attrib (s ∷ ss) q = insert_all ldc attrib ss (ldc.insert (queue_entry s attrib) q)

unfoldable pub terminated : List CStr → List CStr
terminated [] = []
terminated (s ∷ ss) = (s ++ 0 ∷ []) ∷ terminated ss

-- The connection with these texts in its queues.
abbrev pub with_texts : Ldc → Option AuthRef → List Ptxt → Link → Link
with_texts ldc attrib ps l = record l {
  internal_q = insert_all ldc attrib (texts_of internal ps) l.internal_q;
  external_q = insert_all ldc attrib (terminated (texts_of external ps)) l.external_q;
}

push_ptxts_lem :
    (ldc : Ldc) (attrib : Option AuthRef) (ps : List Ptxt) (l : Link)
    → All IsWhole ps
    → push_ptxts ldc ps attrib l ≡ returned (with_texts ldc attrib ps l)
unfolding push_ptxts push_ptxt texts_of insert_all terminated
push_ptxts_lem ldc attrib [] l whole = refl
push_ptxts_lem ldc attrib (p ∷ ps) l ((s, internal, at, class), others) =
    rw (at, class) (push_ptxts_lem ldc attrib ps _ others)
push_ptxts_lem ldc attrib (p ∷ ps) l ((s, external, at, class), others) =
    rw (at, class) (push_ptxts_lem ldc attrib ps _ others)

ptxt_deserial-IsWhole :
    (op : Opening) (payload : CStr) (p : Ptxt) → ptxt_deserial op payload ≡ returned p → IsWhole p
unfolding ptxt_deserial read_ptxt
ptxt_deserial-IsWhole op payload p h =
    let (v, parses, reads) = >>=-eq-returned (require (op.parse payload)) (read_ptxt op) h in
    let (ts, at_ts, reads') = >>=-eq-returned (ptxt_extract_timestamp op v) _ reads in
    let (class, at_class, reads'') = >>=-eq-returned (ptxt_extract_class v) _ reads' in
    let (original, at_original, last) =
      >>=-eq-returned (ptxt_json_extract_field v (codes "original")) _ reads'' in
    subst IsWhole (returned_inj _ p last) (original, class, refl, refl)

AreItems-IsWhole :
    (op : Opening) (lib : CStr) (i : ℕ) (vs : Items) (ps : List Ptxt)
    → AreItems op lib i vs ps
    → All IsWhole ps
AreItems-IsWhole op lib i nil [] h = tt
AreItems-IsWhole op lib i nil (p ∷ ps) h = absurd (cc h)
AreItems-IsWhole op lib i (cons v vs) [] h = tt
AreItems-IsWhole op lib i (cons v vs) (p ∷ ps) (inl ((key, payload, dec, deserial, fresh), rest)) =
    (ptxt_deserial-IsWhole op payload p deserial, AreItems-IsWhole op lib (suc i) vs ps rest)
AreItems-IsWhole op lib i (cons v vs) (p ∷ ps) (inr rest) =
    AreItems-IsWhole op lib (suc i) vs (p ∷ ps) rest

container_of_returned :
    (op : Opening) (backend : Backend) (ldc : Ldc) (lib local : CStr) (payload : CStr) (len : ℕ)
    → (s : Store) (ps : List Ptxt)
    → (encrypted_decode op backend ldc lib local (some payload) len s).result ≡ returned ps
    → (c : Container) × (container_of op payload len ≡ returned c)
unfolding encrypted_decode container_of
container_of_returned op backend ldc lib local payload len s ps h =
    let (c, reads, rest) =
      open_container_inv op backend ldc lib local s (container_of op payload len) ps h in
    (c, reads)

module _ (ldc : Ldc) (backend : Backend) (clock : Clock) where
  -- What receive_round makes of a payload for a connection that runs with a cipher.
  receive_round_lem :
      (payload : CStr) (len now : ℕ) (op : Opening) (l : Link) (c : Cipher) (local : CStr)
      → l.exchange.stop ≡ false
      → l.exchange.cipher ≡ some c
      → l.exchange.s_id_local ≡ some local
      → receive_round ldc backend clock
          (record { arrival = arrived payload len; now = now; opening = op })
          l
        ≡ after_decode ldc
            (container_of op payload len)
            (encrypted_decode op backend ldc c.lib local (some payload) len l.exchange.store)
            (record l { last_rxed = now })
  unfolding receive_round on_arrival decode_payload
  receive_round_lem payload len now op l c local running cipher site =
      ap
        (λ b.
          if b
          then returned (check_timeout clock now l)
          else decode_payload ldc backend op payload len l.exchange.cipher l.exchange.s_id_local
              (record l { last_rxed = now }))
        running
      ∙ ap
          (λ o.
            decode_payload ldc backend op payload len o l.exchange.s_id_local
              (record l { last_rxed = now }))
          cipher
      ∙ ap
          (λ o. decode_payload ldc backend op payload len (some c) o (record l { last_rxed = now }))
          site

  -- A payload from which Encrypted_decode takes texts, at a connection that runs: the texts for the
  -- exchange go to its queue, those for the application to the other with a NUL at the end, each in
  -- their order and with the entry of the peer, and the call never crashes.
  pub receive_round-with_texts :
      (payload : CStr) (len now : ℕ) (op : Opening) (l : Link) (c : Cipher) (local : CStr)
      (ps : List Ptxt)
      → l.exchange.stop ≡ false
      → l.exchange.cipher ≡ some c
      → l.exchange.s_id_local ≡ some local
      → (encrypted_decode op backend ldc c.lib local (some payload) len l.exchange.store).result
        ≡ returned ps
      → let o = encrypted_decode op backend ldc c.lib local (some payload) len l.exchange.store in
        receive_round ldc backend clock
          (record { arrival = arrived payload len; now = now; opening = op })
          l
        ≡ returned (
            with_texts ldc
              (auth_of o.auth)
              ps
              (record l { exchange = record l.exchange { store = o.store }; last_rxed = now }))
  unfolding after_decode push_decoded
  receive_round-with_texts payload len now op l c local ps running cipher site decs =
      let o : Opened (List Ptxt) =
        encrypted_decode op backend ldc c.lib local (some payload) len l.exchange.store in
      let l' : Link = record l {
        exchange = record l.exchange { store = o.store };
        last_rxed = now;
      } in
      let (k, reads) =
        container_of_returned op backend ldc c.lib local payload len l.exchange.store ps decs in
      let (v, k', parses, header, known, items) =
        encrypted_decode-AreItems op backend ldc c.lib local payload len l.exchange.store ps decs in
      receive_round_lem payload len now op l c local running cipher site
      ∙ ap (λ x. after_decode ldc x o (record l { last_rxed = now })) reads
      ∙ ap (λ x. push_decoded ldc x (auth_of o.auth) l') decs
      ∙ push_ptxts_lem ldc (auth_of o.auth) ps l' (AreItems-IsWhole op c.lib 0 k'.items ps items)
