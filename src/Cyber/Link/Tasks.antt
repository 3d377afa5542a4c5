-- ===== src/Cyber/Link/Tasks.antt =====
-- src/cyber/cyber.c: the threads beside the receiving one. cyber_receive_internal handles the messages
-- of the exchange, cyber_send and Encrypted_write put messages on the wire, and
-- waitForMessage_external gives a message to the application. An error of a handler is only logged.
use rsmp_gatewa.Common.{
  ℕ, Bool, not, ◌&&◌, Option, none, some, List, [], ◌∷◌, ltb, CStr, if◌then◌else◌, Ldc, Outcome,
  returned, failed, fault, require, ◌>>=◌,
}
use rsmp_gatewa.Auth.Store.{Store}
use rsmp_gatewa.Cipher.{Cipher}
use rsmp_gatewa.Coder.Message.{Object, Message, deserialize_message}
use rsmp_gatewa.Coder.Secrets.{Backend, Class, ptxt_class}
use rsmp_gatewa.Coder.Container.Seal.{encrypted_encode}
use rsmp_gatewa.Cyber.State.{AuthRef, Queued, Cyber, Code, ok, error, crashed}
use rsmp_gatewa.Cyber.Challenge.{Inputs, initiate_challenge}
use rsmp_gatewa.Cyber.Handle.{cyber_process_internal_msg}
use rsmp_gatewa.Cyber.Link.{Clock, Pending, Link}

unfoldable pub state_of : Cyber × Code → Outcome Cyber
state_of (cy, ok) = returned cy
state_of (cy, error) = returned cy
state_of (cy, crashed) = fault

-- What the calls draw: those for the message, and those for the challenge after it.
module _ (parse : CStr → Option Object) (backend : Backend) (ldc : Ldc) (inp next : Inputs) where
  -- A message that is not read is dropped.
  unfoldable pub process_read : Option AuthRef → Outcome Message → Cyber → Outcome Cyber
  unfolding state_of cyber_process_internal_msg
  process_read from failed cy = returned cy
  process_read from fault cy = fault
  process_read from (returned msg) cy =
      state_of (cyber_process_internal_msg backend ldc inp from msg cy)

  -- deserializeMessage refuses a null buffer.
  unfoldable pub process_pending : Pending → Cyber → Outcome Cyber
  unfolding process_read deserialize_message
  process_pending p cy =
      process_read p.attrib (require p.buf >>= λ buf. deserialize_message parse buf) cy

  unfoldable pub pull_internal : List Pending → Link → Outcome Link
  unfolding process_pending
  pull_internal [] l = returned l
  pull_internal (p ∷ ps) l =
      process_pending p l.exchange >>= λ cy. returned (record l { exchange = cy; internal_q = ps })

  -- A round of cyber_receive_internal.
  unfoldable pub internal_round : Link → Outcome Link
  unfolding pull_internal state_of initiate_challenge
  internal_round l = pull_internal l.internal_q l >>= λ l'.
      state_of (initiate_challenge backend ldc next l'.exchange) >>= λ cy.
      returned (record l' { exchange = cy })

-- What waitForMessage_external finds each time the wait on the condition ends: the queue, whether
-- the exchange was stopped, and the clock.
pub record Wake : Type 0 where
  pub queue : List Pending
  pub stop : Bool
  pub now : ℕ

-- A message and the queue without it, the end by the time limit or the stop, or still in the loop.
pub data Waited : Type 0 where
  got : Pending → List Pending → Waited
  gave_up still_waiting : Waited

-- The seconds from now to the start, as an unsigned number, are compared with the limit.
unfoldable pub wait_for_message_external : Clock → ℕ → ℕ → List Wake → Waited
wait_for_message_external clock to_sec start [] = still_waiting
wait_for_message_external clock to_sec start (w ∷ ws) =
    let rest = wait_for_message_external clock to_sec start ws in
    elim w.queue [
      | p ∷ ps ↦ got p ps
      | [] ↦ if not w.stop && ltb (clock.diff start w.now) to_sec then rest else gave_up
    ]

module _ (backend : Backend) (ldc : Ldc) (uuid : CStr) (now : ℕ) where
  -- One text in a container, with the class and the clock that ptxt_set gives it.
  unfoldable pub write_classed :
      CStr → CStr → Option CStr → CStr → CStr → Store → Outcome Class → Store × Outcome CStr
  unfolding encrypted_encode
  write_classed lib local login remote buf s (returned class) =
      encrypted_encode backend ldc lib local uuid login (some remote)
        (record { original = some buf; class = some class; timestamp = now } ∷ []) s
  write_classed lib local login remote buf s failed = (s, failed)
  write_classed lib local login remote buf s fault = (s, fault)

  unfoldable pub encrypted_write :
      Option Cipher → Option CStr → Option CStr → Option CStr → CStr → Store → Store × Outcome CStr
  unfolding ptxt_class write_classed
  encrypted_write cipher none login remote buf s = (s, fault)
  encrypted_write none (some local) login remote buf s = (s, failed)
  encrypted_write (some c) (some local) login none buf s = (s, failed)
  encrypted_write (some c) (some local) login (some remote) buf s =
      write_classed c.lib local login remote buf s (ptxt_class buf)

  -- The store, and what goes to transport->send: a message that is in its container already goes as
  -- it is.
  unfoldable pub written_payload : Queued → Cyber → Store × Outcome CStr
  unfolding encrypted_write
  written_payload q cy =
      if q.flag_do_encrypt
      then encrypted_write cy.cipher cy.s_id_local q.login cy.s_id_remote q.payload cy.store
      else (cy.store, returned q.payload)

  unfoldable pub send_first : List Queued → Cyber → Cyber × Outcome CStr
  unfolding written_payload
  send_first [] cy = (cy, failed)
  send_first (q ∷ qs) cy =
      let (s, o) = written_payload q cy in (record cy { send_q = qs; store = s }, o)

  -- A round of cyber_send: the payload that it sends, `failed` for none.
  unfoldable pub send_round : Cyber → Cyber × Outcome CStr
  unfolding send_first
  send_round cy = send_first cy.send_q cy
