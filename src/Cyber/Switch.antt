-- ===== src/Cyber/Switch.antt =====
-- src/cyber/cyber.c: what the two ends of a challenge write into the store of entries.
use rsmp_gatewa.Common.{
  ◌≡◌, refl, ap, ◌∙◌, ℕ, ◌<◌, Bool, true, false, Option, none, some, List, arith, CStr, not, ◌||◌,
  Bool-cases, inl, inr, ltb, if◌then◌else◌, Ldc, length, Outcome, returned, failed, fault, IsBytes,
}
use rsmp_gatewa.Crypt.Base64.{base64_encode}
use rsmp_gatewa.Auth.Pwd.{pwd_of}
use rsmp_gatewa.Auth.Entry.{Auth, auth_secret_delete}
use rsmp_gatewa.Auth.Store.{Store, lookup, auth_secret_delete_by_key}
use rsmp_gatewa.Auth.Store.Map.{same_path, lookup-auth_update}
use rsmp_gatewa.Auth.Store.Assign.{lookup-login, lookup-assign}
use rsmp_gatewa.Auth.Rotation.{auth_to_is, auth_from_is}
use rsmp_gatewa.Auth.Rotation.Agree.{
  with_new_pwd, switched, auth_switch_to_new_pwd_lem, auth_set_pwd_b64_lem,
}
use rsmp_gatewa.Cipher.{Cipher}
use rsmp_gatewa.Coder.Message.{message_check_fields, change_pwd_response}
use rsmp_gatewa.Coder.Secrets.{Backend}
use rsmp_gatewa.Cyber.State.{
  AuthRef, deref, assign, Cyber, ok, ◌then_do◌, has_challenge, send_optional_encryption, push_text,
  send_message,
}
use rsmp_gatewa.Cyber.Challenge.{Inputs}
use rsmp_gatewa.Cyber.Handle.{
  purge_secret, store_switched, switch_found, switch_entry, change_pwd_of, change_found,
  set_received, answer_change, has_free_login, handle_change_pwd_request,
}

-- The store after the entry was written and its secret for the cipher deleted.
abbrev pub rewritten : AuthRef → CStr → Auth → Store → Store
rewritten r lib a s = auth_secret_delete_by_key r.db_id r.s_id r.login lib (assign r a s)

lookup-rewritten :
    (r : AuthRef) (lib : CStr) (old a : Auth) (s : Store) (e j m : CStr)
    → deref s r ≡ some old
    → a.login ≡ r.login
    → lookup (rewritten r lib a s) e j m ≡ (
        if same_path r.db_id r.s_id r.login e j m
        then some (auth_secret_delete lib a)
        else lookup s e j m)
unfolding auth_secret_delete_by_key
lookup-rewritten r lib old a s e j m found k =
    lookup-auth_update (assign r a s) r.db_id r.s_id r.login e j m (auth_secret_delete lib)
      (unfold auth_secret_delete in λ x. refl)
    ∙ ground (arith, lookup-assign s r.db_id r.s_id r.login e j m old a found k)

switch_entry_lem :
    (backend : Backend) (ldc : Ldc) (inp : Inputs) (r : AuthRef) (a : Auth) (bs : List ℕ)
    (c : Cipher) (cy : Cyber)
    → deref cy.store r ≡ some (with_new_pwd bs a)
    → a.active ≡ true
    → auth_to_is a ≡ true
    → 0 < length bs
    → cy.cipher ≡ some c
    → switch_entry backend ldc inp (some r) cy
      ≡ (record cy { store = rewritten r c.lib (switched inp.now bs a) cy.store }, ok)
unfolding switch_entry switch_found store_switched purge_secret
switch_entry_lem backend ldc inp r a bs c cy found active to full cipher =
    ap (λ o. switch_found backend ldc inp r o cy) found
    ∙ ap (λ o. store_switched backend ldc inp r o cy)
        (auth_switch_to_new_pwd_lem inp.now a bs active to full)
    ∙ ap (λ o. purge_secret o r (record cy { store = assign r (switched inp.now bs a) cy.store }))
        cipher

-- At the answer to a challenge whose entry is active, of "to" and has the new password pending, the
-- entry in the store gets that password and loses its secret for the cipher, and no other entry changes.
pub switch_entry-lookup :
    (backend : Backend) (ldc : Ldc) (inp : Inputs) (r : AuthRef) (a : Auth) (bs : List ℕ)
    (c : Cipher) (cy : Cyber) (e j m : CStr)
    → deref cy.store r ≡ some (with_new_pwd bs a)
    → a.active ≡ true
    → auth_to_is a ≡ true
    → 0 < length bs
    → cy.cipher ≡ some c
    → ((switch_entry backend ldc inp (some r) cy).1 ≡ ok)
      × (lookup (switch_entry backend ldc inp (some r) cy).0.store e j m ≡ (
          if same_path r.db_id r.s_id r.login e j m
          then some (auth_secret_delete c.lib (switched inp.now bs a))
          else lookup cy.store e j m))
switch_entry-lookup backend ldc inp r a bs c cy e j m found active to full cipher =
    let same = switch_entry_lem backend ldc inp r a bs c cy found active to full cipher in
    (
      ap (λ x. x.1) same,
      ap (λ x. lookup x.0.store e j m) same
          ∙ lookup-rewritten r c.lib (with_new_pwd bs a) (switched inp.now bs a) cy.store e j m
              found (lookup-login cy.store r.db_id r.s_id r.login (with_new_pwd bs a) found),
    )

-- The sending of a message does not touch the store.
push_text-store :
    (ldc : Ldc) (o : Outcome CStr) (attrib : Option CStr) (cy : Cyber)
    → (push_text ldc o attrib cy).0.store ≡ cy.store
unfolding push_text send_optional_encryption
push_text-store ldc (returned payload) attrib cy = elim (Bool-cases (ltb 0 (length payload))) [
  | inl full ↦ rw full refl
  | inr empty ↦ rw empty refl
]
push_text-store ldc failed attrib cy = refl
push_text-store ldc fault attrib cy = refl

answer_change-store :
    (backend : Backend) (ldc : Ldc) (inp : Inputs) (m_id : CStr) (status : Bool) (cy : Cyber)
    → (answer_change backend ldc inp m_id status cy).0.store ≡ cy.store
unfolding answer_change send_message
answer_change-store backend ldc inp m_id status cy =
    elim (Bool-cases (
      message_check_fields
        (record { m_id = inp.answer_id; fields = change_pwd_response status m_id }))) [
          | inl checked ↦ rw checked (push_text-store ldc _ none cy)
          | inr refused ↦ rw refused refl
        ]

change_pwd_of_lem :
    (backend : Backend) (ldc : Ldc) (inp : Inputs) (r : AuthRef) (b : Auth) (bs : List ℕ)
    (c : Cipher) (m_id : CStr) (cy : Cyber)
    → deref cy.store r ≡ some b
    → b.active ≡ true
    → auth_from_is b ≡ true
    → 0 < length bs
    → IsBytes bs
    → cy.cipher ≡ some c
    → change_pwd_of backend ldc inp (some r) m_id (base64_encode bs) cy
      ≡ answer_change backend ldc inp m_id true (record cy {
        store = rewritten r c.lib (record b { pwd = pwd_of bs; timestamp = inp.now }) cy.store;
      })
unfolding change_pwd_of change_found set_received purge_secret ◌then_do◌
change_pwd_of_lem backend ldc inp r b bs c m_id cy found active from full bytes cipher =
    ap (λ o. change_found backend ldc inp r o m_id (base64_encode bs) cy) found
    ∙ ap (λ o. set_received backend ldc inp r m_id o cy)
        (auth_set_pwd_b64_lem inp.now b bs active from full bytes)
    ∙ ap
        (λ o.
          purge_secret o r (record cy {
            store = assign r (record b { pwd = pwd_of bs; timestamp = inp.now }) cy.store;
          })
          then_do answer_change backend ldc inp m_id true)
        cipher

-- A ChangePwdRequest with a password in base 64, deciphered with an active entry of "from", while no
-- challenge is active here: the entry in the store gets that password and loses its secret for the
-- cipher, and no other entry changes.
pub handle_change_pwd_request-lookup :
    (backend : Backend) (ldc : Ldc) (inp : Inputs) (r : AuthRef) (b : Auth) (bs : List ℕ)
    (c : Cipher) (m_id : CStr) (cy : Cyber) (e j m : CStr)
    → has_challenge cy.challenge ≡ false
    → deref cy.store r ≡ some b
    → b.active ≡ true
    → auth_from_is b ≡ true
    → 0 < length bs
    → IsBytes bs
    → cy.cipher ≡ some c
    → lookup
        (handle_change_pwd_request backend ldc inp (some r) m_id (base64_encode bs) cy).0.store
        e
        j
        m
      ≡ (if same_path r.db_id r.s_id r.login e j m
          then some (auth_secret_delete c.lib (record b { pwd = pwd_of bs; timestamp = inp.now }))
          else lookup cy.store e j m)
unfolding handle_change_pwd_request
handle_change_pwd_request-lookup backend ldc inp r b bs c m_id cy e j m idle found active from full
      bytes cipher =
    let stored : Auth = record b { pwd = pwd_of bs; timestamp = inp.now } in
    ap
      (λ x.
        lookup
          (if not x || has_free_login cy.store cy.s_id_remote
            then change_pwd_of backend ldc inp (some r) m_id (base64_encode bs) cy
            else answer_change backend ldc inp m_id false cy).0.store
          e j m)
      idle
    ∙ ap (λ x. lookup x.0.store e j m)
        (change_pwd_of_lem backend ldc inp r b bs c m_id cy found active from full bytes cipher)
    ∙ ap (λ s. lookup s e j m) (answer_change-store backend ldc inp m_id true _)
    ∙ lookup-rewritten r c.lib b stored cy.store e j m found
        (lookup-login cy.store r.db_id r.s_id r.login b found)
