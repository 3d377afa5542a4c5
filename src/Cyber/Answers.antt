-- ===== src/Cyber/Answers.antt =====
-- What single calls of src/cyber/cyber.c do: answers that are refused, answers that are sent, the
-- sending of a message of the application, and the stop.
pub mod Ping
use rsmp_gatewa.Common.{
  ◌≡◌, refl, ap, ◌∙◌, ◌<◌, Bool, true, false, not, ◌&&◌, Option, none, some, arith, CStr,
  if◌then◌else◌, Ldc, length, lt→ltb, str_eq, Bool-cases, Option-cases, inl, inr, ◌⊎◌,
}
use rsmp_gatewa.Coder.Message.{change_pwd_response, pong}
use rsmp_gatewa.Coder.Secrets.{Backend}
use rsmp_gatewa.Cyber.State.{
  AuthRef, Challenge, Cyber, Code, ok, error, is_running_challenge, stop_exchange, trigger_event,
  cyber_lost, cyber_is_available, cyber_is_running, stop_timer_of, send_optional_encryption,
}
use rsmp_gatewa.Cyber.Challenge.{Inputs}
use rsmp_gatewa.Cyber.Handle.{
  if_named, for_running, accept_response, accept_pong, handle_pong, handle_change_pwd_response,
  process_fields, cyber_process_internal_msg, login_for_send, send_under, send,
}

-- No challenge runs, or the one that runs has another identifier.
abbrev pub IsUnexpected : Option Challenge → CStr → (Challenge → Option CStr) → Type 0
IsUnexpected none o f = Unit
IsUnexpected (some c) o f =
    (c.running ≡ false) ⊎ ((m_id : CStr) × ((f c ≡ some m_id) × (str_eq o m_id ≡ false)))

both_branches : {A : Type 0} (b : Bool) (x y z : A) → x ≡ z → y ≡ z → (if b then x else y) ≡ z
both_branches true x y z e f = e
both_branches false x y z e f = f

if_named_other :
    (backend : Backend) (ldc : Ldc) (inp : Inputs) (named : Option CStr) (o m_id : CStr)
    (next : Cyber → Cyber × Code) (cy : Cyber)
    → named ≡ some m_id
    → str_eq o m_id ≡ false
    → if_named backend ldc inp named o next cy ≡ (cy, error)
unfolding if_named
if_named_other backend ldc inp named o m_id next cy e h = rw (e, h) refl

for_running_unexpected :
    (backend : Backend) (ldc : Ldc) (inp : Inputs) (f : Challenge → Option CStr) (o : CStr)
    (next : Challenge → Cyber → Cyber × Code) (ctxt : Option Challenge) (cy : Cyber)
    → IsUnexpected ctxt o f
    → for_running backend ldc inp f o next ctxt cy ≡ (cy, error)
unfolding for_running
for_running_unexpected backend ldc inp f o next none cy h = refl
for_running_unexpected backend ldc inp f o next (some c) cy (inl idle) =
    ap (λ b. if b then if_named backend ldc inp (f c) o (next c) cy else (cy, error)) idle
for_running_unexpected backend ldc inp f o next (some c) cy (inr (m_id, (named, other))) =
    both_branches c.running _ _ (cy, error)
      (if_named_other backend ldc inp (f c) o m_id (next c) cy named other) refl

-- A Pong that comes while no challenge runs, or that names another message than the Ping of the
-- challenge that runs, is refused with an error, and the exchange stays as it was.
pub cyber_process_internal_msg_pong :
    (backend : Backend) (ldc : Ldc) (inp : Inputs) (from : Option AuthRef) (m_id o : CStr)
    (padding : Option CStr) (cy : Cyber)
    → IsUnexpected cy.challenge o (λ c. c.m_id_ping)
    → cyber_process_internal_msg backend ldc inp from
        (record { m_id = m_id; fields = pong o padding })
        cy
      ≡ (cy, error)
unfolding cyber_process_internal_msg process_fields handle_pong
cyber_process_internal_msg_pong backend ldc inp from m_id o padding cy h =
    both_branches _ _ _ (cy, error)
      (for_running_unexpected backend ldc inp (λ c. c.m_id_ping) o (accept_pong backend ldc inp)
        cy.challenge cy h)
      refl

-- The same for a ChangePwdResponse and the ChangePwdRequest of the challenge that runs.
pub cyber_process_internal_msg_response :
    (backend : Backend) (ldc : Ldc) (inp : Inputs) (from : Option AuthRef) (m_id o : CStr)
    (status : Bool) (cy : Cyber)
    → IsUnexpected cy.challenge o (λ c. c.m_id_change_pwd_request)
    → cyber_process_internal_msg backend ldc inp from
        (record { m_id = m_id; fields = change_pwd_response status o })
        cy
      ≡ (cy, error)
unfolding cyber_process_internal_msg process_fields handle_change_pwd_response
cyber_process_internal_msg_response backend ldc inp from m_id o status cy h =
    both_branches _ _ _ (cy, error)
      (for_running_unexpected backend ldc inp (λ c. c.m_id_change_pwd_request) o
        (λ c. accept_response backend ldc inp c status) cy.challenge cy h)
      refl

-- The state with one more message to send.
abbrev pub with_queued : Ldc → CStr → Option CStr → Cyber → Cyber
with_queued ldc payload login cy = record cy {
  send_q =
      ldc.insert (record { payload = payload; flag_do_encrypt = true; login = login }) cy.send_q;
}

pub send_full :
    (ldc : Ldc) (payload : CStr) (login : Option CStr) (cy : Cyber)
    → 0 < length payload
    → send_optional_encryption ldc payload true login cy ≡ (with_queued ldc payload login cy, ok)
unfolding send_optional_encryption
send_full ldc payload login cy h = rw (lt→ltb 0 (length payload) h) refl

send_under_full :
    (ldc : Ldc) (payload l : CStr) (cy : Cyber)
    → 0 < length payload
    → send_under ldc payload (some l) cy ≡ (with_queued ldc payload (some l) cy, ok)
unfolding send_under
send_under_full ldc payload l cy h = send_full ldc payload (some l) cy h

-- A message of the application that is not empty is either refused, and the exchange stays as it was,
-- or both AllClear were exchanged and it is queued, to be encrypted under the login that was found
-- for it.
pub send_gate :
    (ldc : Ldc) (payload : CStr) (login : Option CStr) (cy : Cyber)
    → 0 < length payload
    → (send ldc payload login cy ≡ (cy, error))
      ⊎ ((cy.all_clear_rxed ≡ true)
          × ((cy.all_clear_sent ≡ true)
              × ((l : CStr) × ((login_for_send cy login ≡ some l)
                    × (send ldc payload login cy ≡ (with_queued ldc payload (some l) cy, ok))))))
unfolding send
send_gate ldc payload login cy h = elim (Bool-cases (cy.all_clear_rxed && cy.all_clear_sent)) [
  | inr shut ↦ inl (
      ap (λ b. if b then send_under ldc payload (login_for_send cy login) cy else (cy, error)) shut)
  | inl opened ↦ elim (Option-cases (login_for_send cy login)) [
    | inl missing ↦ inl (
        ap (λ b. if b then send_under ldc payload (login_for_send cy login) cy else (cy, error))
          opened
        ∙ ap (λ o. send_under ldc payload o cy) missing
        ∙ unfold send_under in refl)
    | inr (l, found) ↦ inr (
      ground arith,
      (
        ground arith,
        (
          l,
          (
            found,
            ap (λ b. if b then send_under ldc payload (login_for_send cy login) cy else (cy, error))
                  opened
                ∙ ap (λ o. send_under ldc payload o cy) found
                ∙ send_under_full ldc payload l cy h,
          ),
        ),
      ),
    )
  ]
]

stop_set :
    (b : Bool) (cy new : Cyber)
    → cy.stop ≡ b
    → new.stop ≡ true
    → (if b then cy else new).stop ≡ true
stop_set true cy new e f = e
stop_set false cy new e f = f

stop_exchange-stop : (cy : Cyber) → (stop_exchange cy).stop ≡ true
unfolding stop_exchange trigger_event
stop_exchange-stop cy = stop_set cy.stop cy _ refl refl

stop_exchange_again : (cy : Cyber) → cy.stop ≡ true → stop_exchange cy ≡ cy
unfolding stop_exchange
stop_exchange_again cy h =
    ap
      (λ b.
        if b
        then cy
        else trigger_event cyber_lost
            (record cy { stop = true; challenge = stop_timer_of cy.challenge }))
      h

-- After _stop the exchange neither runs nor is available, and a second _stop does nothing.
pub stop_exchange_final :
    (cy : Cyber)
    → (cyber_is_running (stop_exchange cy) ≡ false)
      × ((cyber_is_available (stop_exchange cy) ≡ false)
          × (stop_exchange (stop_exchange cy) ≡ stop_exchange cy))
stop_exchange_final cy =
    let stopped = stop_exchange-stop cy in
    (
      unfold cyber_is_running in ap not stopped,
      (
        unfold cyber_is_available in
            ap
              (λ b.
                not b
                && ((stop_exchange cy).all_clear_rxed
                    && ((stop_exchange cy).all_clear_sent
                        && not (is_running_challenge (stop_exchange cy).challenge))))
              stopped,
        stop_exchange_again (stop_exchange cy) stopped,
      ),
    )
