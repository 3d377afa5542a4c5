-- ===== src/Cyber/State.antt =====
-- src/cyber/cyber.c and challenge_ctxt.c: the state of an exchange, the steps that the handlers share,
-- and the small operations on the state. A pointer to an entry of the store is the path of its keys;
-- `crashed` is a null pointer followed, a failed assertion or an access outside an object.
use rsmp_gatewa.Common.{
  ℕ, Bool, true, false, not, ◌&&◌, ◌||◌, Option, none, some, List, [], ◌∷◌, ◌++◌, length, ltb, CStr,
  if◌then◌else◌, Ldc, Outcome, returned, failed, fault,
}
use rsmp_gatewa.Auth.Entry.{Auth}
use rsmp_gatewa.Auth.Store.{Store, lookup, auth_update}
use rsmp_gatewa.Cipher.{Cipher}
use rsmp_gatewa.Coder.Message.{Message, message_check_fields, serialize_message}
use rsmp_gatewa.Coder.Secrets.{Backend}

-- auth_t *
pub record AuthRef : Type 0 where
  pub db_id : CStr
  pub s_id : CStr
  pub login : CStr

abbrev pub ref_to : Auth → AuthRef
ref_to a = record { db_id = a.db_id; s_id = a.s_id; login = a.login }

abbrev pub deref : Store → AuthRef → Option Auth
deref s r = lookup s r.db_id r.s_id r.login

-- The entry at the pointer becomes this one.
abbrev pub assign : AuthRef → Auth → Store → Store
assign r a s = auth_update r.db_id r.s_id r.login (λ old. a) s

-- enum ChallengeResponse
pub data Response : Type 0 where
  no_response success busy timed_out : Response

-- ChallengeContext_t; the timer is there or not.
pub record Challenge : Type 0 where
  pub auth : Option AuthRef
  pub to_send : Bool
  pub running : Bool
  pub timer : Bool
  pub timestamp : ℕ
  pub m_id_change_pwd_request : Option CStr
  pub m_id_ping : Option CStr
  pub pad : Option CStr
  pub response : Response

abbrev pub challenge_ctxt_new : Challenge
challenge_ctxt_new = record {
  auth = none;
  to_send = false;
  running = false;
  timer = false;
  timestamp = 0;
  m_id_change_pwd_request = none;
  m_id_ping = none;
  pad = none;
  response = no_response;
}

abbrev pub free_challenge_context_members : Challenge → Challenge
free_challenge_context_members c = record c {
  auth = none;
  m_id_change_pwd_request = none;
  m_id_ping = none;
  pad = none;
}

-- EventType, those that the exchange triggers
pub data Event : Type 0 where
  challenge_processing all_clear_exchanged cyber_lost : Event

-- queue_msg_t in the queue of the sending thread
pub record Queued : Type 0 where
  pub payload : CStr
  pub flag_do_encrypt : Bool
  pub login : Option CStr

-- cyber_t and cyber_priv_t, with the events that were triggered, in order, and the store of entries,
-- which is global in the program.
pub record Cyber : Type 0 where
  pub cipher : Option Cipher
  pub s_id_local : Option CStr
  pub s_id_remote : Option CStr
  pub challenge : Option Challenge
  pub all_clear_rxed : Bool
  pub all_clear_sent : Bool
  pub stop : Bool
  pub send_q : List Queued
  pub events : List Event
  pub store : Store

-- What a call returns.
pub data Code : Type 0 where
  ok error crashed : Code

-- `next` runs only after a call that returned without error.
infixl 4 ◌then_do◌
unfoldable pub ◌then_do◌ : Cyber × Code → (Cyber → Cyber × Code) → Cyber × Code
(cy, ok) then_do next = next cy
(cy, error) then_do next = (cy, error)
(cy, crashed) then_do next = (cy, crashed)

unfoldable pub trigger_event : Event → Cyber → Cyber
trigger_event e cy = record cy { events = cy.events ++ e ∷ [] }

-- The event that opens the exchange, if the other AllClear was there before.
unfoldable pub open_if : Bool → Cyber → Cyber
open_if true cy = trigger_event all_clear_exchanged cy
open_if false cy = cy

unfoldable pub stop_timer_response : Challenge → Challenge
stop_timer_response c = record c { timer = false }

abbrev pub is_active : Challenge → Bool
is_active c = c.to_send || c.running

-- `challenge_ctxt && (toSend || running)`
unfoldable pub has_challenge : Option Challenge → Bool
has_challenge none = false
has_challenge (some c) = is_active c

abbrev pub is_running_challenge : Option Challenge → Bool
is_running_challenge none = false
is_running_challenge (some c) = c.running

unfoldable pub cyber_is_available : Cyber → Bool
cyber_is_available cy =
    not cy.stop
    && (cy.all_clear_rxed && (cy.all_clear_sent && not (is_running_challenge cy.challenge)))

unfoldable pub cyber_is_running : Cyber → Bool
cyber_is_running cy = not cy.stop

-- A site is set once.
unfoldable pub set_once : Option CStr → Cyber → Cyber → Cyber × Code
set_once none new cy = (new, ok)
set_once (some old) new cy = (cy, error)

unfoldable pub cyber_set_site_id_local : CStr → Cyber → Cyber × Code
cyber_set_site_id_local s cy = set_once cy.s_id_local (record cy { s_id_local = some s }) cy

unfoldable pub cyber_set_site_id_remote : CStr → Cyber → Cyber × Code
cyber_set_site_id_remote s cy = set_once cy.s_id_remote (record cy { s_id_remote = some s }) cy

abbrev pub stop_timer_of : Option Challenge → Option Challenge
stop_timer_of none = none
stop_timer_of (some c) = some (stop_timer_response c)

-- _stop; the threads and the transport are not modelled.
unfoldable pub stop_exchange : Cyber → Cyber
unfolding trigger_event
stop_exchange cy =
    if cy.stop
    then cy
    else trigger_event cyber_lost
        (record cy { stop = true; challenge = stop_timer_of cy.challenge })

unfoldable pub handler_timeout_challenge : Cyber → Cyber
unfolding stop_exchange
handler_timeout_challenge cy = if is_running_challenge cy.challenge then stop_exchange cy else cy

unfoldable pub send_optional_encryption : Ldc → CStr → Bool → Option CStr → Cyber → Cyber × Code
send_optional_encryption ldc payload flag attrib cy =
    if ltb 0 (length payload)
    then (
      record cy {
        send_q =
            ldc.insert (record { payload = payload; flag_do_encrypt = flag; login = attrib })
              cy.send_q;
      },
      ok,
    )
    else (cy, crashed)

unfoldable pub push_text : Ldc → Outcome CStr → Option CStr → Cyber → Cyber × Code
push_text ldc (returned payload) attrib cy = send_optional_encryption ldc payload true attrib cy
push_text ldc failed attrib cy = (cy, error)
push_text ldc fault attrib cy = (cy, crashed)

-- _sendMessage
unfoldable pub send_message : Backend → Ldc → Message → Option CStr → Cyber → Cyber × Code
unfolding push_text
send_message backend ldc msg attrib cy =
    if message_check_fields msg
    then push_text ldc (serialize_message backend.print msg) attrib cy
    else (cy, error)
