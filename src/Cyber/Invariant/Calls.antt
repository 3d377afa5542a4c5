-- ===== src/Cyber/Invariant/Calls.antt =====
-- Every call of src/cyber/cyber.c keeps the exchange valid.
use rsmp_gatewa.Common.{
  ◌≡◌, refl, Bool, true, false, Option, none, some, arith, CStr, if◌then◌else◌, Bool-cases, inl,
  inr, ltb, length, Ldc, Outcome, returned, failed, fault,
}
use rsmp_gatewa.Auth.Store.{Store}
use rsmp_gatewa.Coder.Message.{Message, message_check_fields, serialize_message}
use rsmp_gatewa.Coder.Secrets.{Backend}
use rsmp_gatewa.Cyber.State.{
  AuthRef, Challenge, Cyber, ok, ◌then_do◌, Event, trigger_event, open_if, send_optional_encryption,
  push_text, send_message,
}
use rsmp_gatewa.Cyber.Challenge.{
  Inputs, send_all_clear, launch, launch_encoded, send_challenge_for, send_challenge,
  next_challenge, initiate_challenge,
}
use rsmp_gatewa.Cyber.Invariant.{
  IsSound, announces, IsOpenedByBoth, IsValid, Holds, then_do-Holds, if-Holds, announced-append,
}
use rsmp_gatewa.Cyber.Invariant.Encode.{IsEncoded, challenge_encode-IsEncoded}
use rsmp_gatewa.Cyber.Invariant.Search.{search_challenge-IsValid}

pub send_optional_encryption-IsValid :
    (ldc : Ldc) (payload : CStr) (flag : Bool) (attrib : Option CStr) (cy : Cyber)
    → IsValid cy
    → Holds IsValid (send_optional_encryption ldc payload flag attrib cy)
unfolding send_optional_encryption
send_optional_encryption-IsValid ldc payload flag attrib cy h =
    elim (Bool-cases (ltb 0 (length payload))) [ inl full ↦ rw full h | inr empty ↦ rw empty tt ]

push_text-IsValid :
    (ldc : Ldc) (o : Outcome CStr) (attrib : Option CStr) (cy : Cyber)
    → IsValid cy
    → Holds IsValid (push_text ldc o attrib cy)
unfolding push_text
push_text-IsValid ldc (returned payload) attrib cy h =
    send_optional_encryption-IsValid ldc payload true attrib cy h
push_text-IsValid ldc failed attrib cy h = h
push_text-IsValid ldc fault attrib cy h = tt

pub send_message-IsValid :
    (backend : Backend) (ldc : Ldc) (msg : Message) (attrib : Option CStr) (cy : Cyber)
    → IsValid cy
    → Holds IsValid (send_message backend ldc msg attrib cy)
unfolding send_message
send_message-IsValid backend ldc msg attrib cy h = elim (Bool-cases (message_check_fields msg)) [
  | inl checked ↦
      rw checked (push_text-IsValid ldc (serialize_message backend.print msg) attrib cy h)
  | inr refused ↦ rw refused h
]

-- Another event than the one that opens the exchange.
pub trigger_event-IsValid :
    (e : Event) (cy : Cyber) → announces e ≡ false → IsValid cy → IsValid (trigger_event e cy)
unfolding trigger_event
trigger_event-IsValid e cy quiet (sound, opened) =
    (sound, λ a. opened (ground (arith, announced-append cy.events e)))

-- The event that opens it, where one flag is set now and the other decides.
pub open_if-IsValid :
    (flag : Bool) (cy : Cyber)
    → (flag ≡ true → (cy.all_clear_rxed ≡ true) × (cy.all_clear_sent ≡ true))
    → IsValid cy
    → IsValid (open_if flag cy)
unfolding open_if trigger_event
open_if-IsValid true cy both (sound, opened) = (sound, λ a. both refl)
open_if-IsValid false cy both h = h

idle_before_send : (c : Challenge) → IsSound (some c) → c.to_send ≡ true → c.running ≡ false
idle_before_send c sound to_send = elim (Bool-cases c.running) [
  | inl running ↦ absurd (cc ((sound running).0, to_send))
  | inr idle ↦ idle
]

module _ (backend : Backend) (ldc : Ldc) (inp : Inputs) where
  send_all_clear-IsValid :
      (cy : Cyber) → IsValid cy → Holds IsValid (send_all_clear backend ldc inp cy)
  unfolding send_all_clear
  send_all_clear-IsValid cy h =
      then_do-Holds IsValid _ _ (send_message-IsValid backend ldc _ none cy h) λ cy (sound, opened).
        open_if-IsValid cy.all_clear_rxed _ (λ rxed. (rxed, refl))
          (sound, λ a. ((opened a).0, refl))

  launch_encoded-IsValid :
      (login : CStr) (r : (Challenge × Store) × Outcome CStr) (cy : Cyber)
      → IsEncoded r
      → IsOpenedByBoth cy
      → Holds IsValid (launch_encoded backend ldc inp login r cy)
  unfolding launch_encoded launch send_optional_encryption ◌then_do◌
  launch_encoded-IsValid login ((c, st), returned payload) cy e opened =
      elim (Bool-cases (ltb 0 (length payload))) [
        | inl full ↦ rw full ((λ running. (refl, e)), opened)
        | inr empty ↦ rw empty tt
      ]
  launch_encoded-IsValid login ((c, st), failed) cy e opened =
      ((λ running. absurd (cc (running, e))), opened)
  launch_encoded-IsValid login ((c, st), fault) cy e opened = tt

  send_challenge_for-IsValid :
      (r : Option AuthRef) (c : Challenge) (cy : Cyber)
      → c.running ≡ false
      → IsValid cy
      → Holds IsValid (send_challenge_for backend ldc inp r c cy)
  unfolding send_challenge_for
  send_challenge_for-IsValid none c cy idle h = tt
  send_challenge_for-IsValid (some r) c cy idle h =
      launch_encoded-IsValid r.login _ cy
        (challenge_encode-IsEncoded backend ldc inp cy.cipher cy.s_id_local r.login cy.s_id_remote c
          cy.store idle)
        h.1

  all_clear_unless_sent-IsValid :
      (cy : Cyber)
      → IsValid cy
      → Holds IsValid (if cy.all_clear_sent then (cy, ok) else send_all_clear backend ldc inp cy)
  all_clear_unless_sent-IsValid cy h =
      if-Holds IsValid cy.all_clear_sent (cy, ok) (send_all_clear backend ldc inp cy) (λ sent. h)
        (λ unsent. send_all_clear-IsValid cy h)

  next_challenge-IsValid :
      (o : Option Challenge) (cy : Cyber)
      → IsSound o
      → IsValid cy
      → Holds IsValid (next_challenge backend ldc inp o cy)
  unfolding next_challenge send_challenge
  next_challenge-IsValid none cy sound h = all_clear_unless_sent-IsValid cy h
  next_challenge-IsValid (some c) cy sound h =
      if-Holds IsValid _ _ _
        (λ active.
          if-Holds IsValid c.to_send (send_challenge backend ldc inp c cy) (cy, ok)
            (λ to_send. send_challenge_for-IsValid c.auth c cy (idle_before_send c sound to_send) h)
            (λ sent. h))
        (λ ended. all_clear_unless_sent-IsValid cy h)

  pub initiate_challenge-IsValid :
      (cy : Cyber) → IsValid cy → Holds IsValid (initiate_challenge backend ldc inp cy)
  unfolding initiate_challenge
  initiate_challenge-IsValid cy h =
      let found = search_challenge-IsValid backend ldc inp cy h in
      next_challenge-IsValid _ _ found.0 found
