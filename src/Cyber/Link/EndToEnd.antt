-- ===== src/Cyber/Link/EndToEnd.antt =====
-- src/cyber/cyber.c with src/coder/coder.c: a message from cyber_send of a connection to the application
-- behind its peer.
use rsmp_gatewa.Common.{
  ◌≡◌, refl, ap, ◌∙◌, ℕ, ◌<◌, Bool, true, false, Option, some, List, [], ◌∷◌, ◌++◌, CStr, Ldc,
  returned, >>=-eq-returned,
}
use rsmp_gatewa.Auth.Entry.{Auth}
use rsmp_gatewa.Auth.Rotation.{to_db_id, from_db_id}
use rsmp_gatewa.Auth.Store.{lookup}
use rsmp_gatewa.Cipher.{Cipher}
use rsmp_gatewa.Coder.Secrets.{Backend, to_encrypt, to_decrypt, external, ptxt_class}
use rsmp_gatewa.Coder.Secrets.Agree.{AreMates, IsCoherent, derived}
use rsmp_gatewa.Coder.Container.{Opening, Ptxt}
use rsmp_gatewa.Coder.Container.Carried.{IsText, AreCarried, as_json, some_ptxt}
use rsmp_gatewa.Coder.Container.Seal.{container, encode_items, encrypted_encode}
use rsmp_gatewa.Coder.Container.Open.{Opened, encrypted_decode}
use rsmp_gatewa.Coder.Container.RoundTrip.{encrypted_decode-encrypted_encode}
use rsmp_gatewa.Cyber.State.{AuthRef, Queued, Cyber}
use rsmp_gatewa.Cyber.Link.{Clock, Pending, queue_entry, Link, arrived, auth_of, receive_round}
use rsmp_gatewa.Cyber.Link.Tasks.{
  write_classed, encrypted_write, written_payload, send_first, send_round, Wake, got,
  wait_for_message_external,
}
use rsmp_gatewa.Cyber.Link.Delivery.{
  texts_of, insert_all, terminated, with_texts, receive_round-with_texts,
}

insert-nil : {A : Type 0} (ldc : Ldc) (x : A) → ldc.insert x [] ≡ x ∷ []
insert-nil ldc x =
    let (pre, post, split, inserted) = ldc.insert_splits x [] in inserted ∙ around pre post split
  where
    around : {A : Type 0} {x : A} (pre post : List A) → [] ≡ pre ++ post → pre ++ x ∷ post ≡ x ∷ []
    around [] [] e = refl
    around [] (y ∷ ys) e = cc e
    around (y ∷ ys) post e = cc e

-- A site with a cipher and its peer, and the entry of the login on both sides.
pub record AreLinked (op : Opening) (backend : Backend) (c : Cipher) (a_site b_site l : CStr)
    (key : List ℕ) (ca cb : Cyber) : Type 0 where
  pub a_cipher : ca.cipher ≡ some c
  pub b_cipher : cb.cipher ≡ some c
  pub a_local : ca.s_id_local ≡ some a_site
  pub a_remote : ca.s_id_remote ≡ some b_site
  pub b_local : cb.s_id_local ≡ some b_site
  pub context : op.context_new c.lib ≡ true
  pub site_text : IsText a_site
  pub login_text : IsText l
  pub a : Auth
  pub b : Auth
  pub at_a : lookup ca.store to_db_id b_site l ≡ some a
  pub at_b : lookup cb.store from_db_id a_site l ≡ some b
  pub a_active : a.active ≡ true
  pub b_active : b.active ≡ true
  pub mates : AreMates a_site a b_site b
  pub same_pwd : a.pwd ≡ b.pwd
  pub a_coherent : IsCoherent backend c.lib a_site a to_encrypt
  pub b_coherent : IsCoherent backend c.lib b_site b to_decrypt
  pub derives : derived backend c.lib a_site a to_encrypt ≡ returned key

module _ (op : Opening) (backend : Backend) (ldc : Ldc) (clock : Clock) (c : Cipher)
    (a_site b_site l uuid : CStr) (key : List ℕ) (ts now len : ℕ) (payload : CStr) where
  abbrev pub the_ptxt : Ptxt
  the_ptxt = some_ptxt ts payload external

  send_first_lem :
      (qs : List Queued) (ca cb : Cyber)
      → AreLinked op backend c a_site b_site l key ca cb
      → ptxt_class payload ≡ returned external
      → (send_first backend ldc uuid ts
          (record { payload = payload; flag_do_encrypt = true; login = some l } ∷ qs)
          ca).1
        ≡ (encrypted_encode backend ldc c.lib a_site uuid
            (some l)
            (some b_site)
            (the_ptxt ∷ [])
            ca.store).1
  unfolding send_first written_payload encrypted_write
  send_first_lem qs ca cb k class =
      ap
        (λ o.
          (encrypted_write backend ldc uuid ts o ca.s_id_local (some l) ca.s_id_remote payload
            ca.store).1)
        k.a_cipher
      ∙ ap
          (λ o.
            (encrypted_write backend ldc uuid ts (some c) o (some l) ca.s_id_remote payload
              ca.store).1)
          k.a_local
      ∙ ap
          (λ o.
            (encrypted_write backend ldc uuid ts (some c) (some a_site) (some l) o payload
              ca.store).1)
          k.a_remote
      ∙ ap
          (λ o.
            (write_classed backend ldc uuid ts c.lib a_site (some l) b_site payload ca.store o).1)
          class

  woken :
      (ws : List Wake) (to_sec start : ℕ) (p : Pending) (q : List Pending) (halted : Bool)
      → q ≡ p ∷ []
      → wait_for_message_external clock to_sec start
          (record { queue = q; stop = halted; now = now } ∷ ws)
        ≡ got p []
  unfolding wait_for_message_external
  woken ws to_sec start p q halted e = rw e refl

  -- A message of the application that heads the queue of a site goes into a container for the peer,
  -- which shares a password and a cipher with it; when it arrives there, where the application has
  -- taken every earlier message, waitForMessage_external gives the bytes of the message with a NUL.
  pub wait_for_message_external-send_round :
      (qs : List Queued) (ca : Cyber) (lb : Link) (ws : List Wake) (to_sec start : ℕ)
      → AreLinked op backend c a_site b_site l key ca lb.exchange
      → ca.send_q ≡ record { payload = payload; flag_do_encrypt = true; login = some l } ∷ qs
      → lb.exchange.stop ≡ false
      → lb.external_q ≡ []
      → 0 < len
      → ptxt_class payload ≡ returned external
      → AreCarried op backend c.lib key 0 (the_ptxt ∷ [])
      → ((items : List CStr)
          → (encode_items backend ldc c.lib a_site
              (some l)
              (some b_site)
              []
              (the_ptxt ∷ [])
              ca.store).1
            ≡ returned (l, items)
          → op.parse (backend.print (container backend ldc c.lib a_site uuid l items))
            ≡ some (as_json (container backend ldc c.lib a_site uuid l items)))
      → (request : CStr) × (attrib : Option AuthRef) × (lb' : Link) × ((send_round backend ldc uuid
            ts ca).1
          ≡ returned request)
        × (receive_round ldc backend clock
              (record { arrival = arrived request len; now = now; opening = op })
              lb
            ≡ returned lb')
        × (wait_for_message_external clock to_sec start
              (record { queue = lb'.external_q; stop = lb'.exchange.stop; now = now } ∷ ws)
            ≡ got (queue_entry (payload ++ 0 ∷ []) attrib) [])
  unfolding send_round texts_of insert_all terminated
  wait_for_message_external-send_round qs ca lb ws to_sec start k queue running empty pos class
        carried parses =
      let (request, sealed, opened) =
        >>=-eq-returned
          (encrypted_encode backend ldc c.lib a_site uuid (some l) (some b_site) (the_ptxt ∷ [])
            ca.store).1
          (λ text.
            (encrypted_decode op backend ldc c.lib b_site (some text) len lb.exchange.store).result)
          (encrypted_decode-encrypted_encode op backend ldc c.lib a_site b_site uuid l key k.a k.b
            ca.store lb.exchange.store the_ptxt [] len k.context k.site_text k.login_text pos k.at_a
            k.at_b k.a_active k.b_active k.mates k.same_pwd k.a_coherent k.b_coherent k.derives
            carried parses) in
      let o : Opened (List Ptxt) =
        encrypted_decode op backend ldc c.lib b_site (some request) len lb.exchange.store in
      let lb' : Link =
        with_texts ldc (auth_of o.auth) (the_ptxt ∷ [])
          (record lb { exchange = record lb.exchange { store = o.store }; last_rxed = now }) in
      (
        request,
        auth_of o.auth,
        lb',
        ap (λ q. (send_first backend ldc uuid ts q ca).1) queue
            ∙ send_first_lem qs ca lb.exchange k class
            ∙ sealed,
        receive_round-with_texts ldc backend clock request len now op lb c b_site (the_ptxt ∷ [])
            running k.b_cipher k.b_local opened,
        woken ws to_sec start _ _ lb'.exchange.stop (
            ap (ldc.insert (queue_entry (payload ++ 0 ∷ []) (auth_of o.auth))) empty
            ∙ insert-nil ldc (queue_entry (payload ++ 0 ∷ []) (auth_of o.auth))),
      )
