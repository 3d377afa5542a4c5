-- ===== src/Cyber/Invariant/Handlers.antt =====
-- Every case of cyber_process_internal_msg, in src/cyber/cyber.c, keeps the exchange valid.
use rsmp_gatewa.Common.{
  refl, Bool, true, false, Option, none, some, CStr, Ldc, str_eq, Outcome, returned, failed, fault,
}
use rsmp_gatewa.Auth.Entry.{Auth}
use rsmp_gatewa.Cipher.{Cipher}
use rsmp_gatewa.Coder.Message.{
  Message, Fields, encrypted, all_clear, change_pwd_request, change_pwd_response, ping, pong,
  message_check_fields,
}
use rsmp_gatewa.Coder.Secrets.{Backend}
use rsmp_gatewa.Cyber.State.{
  AuthRef, Challenge, Response, success, busy, Cyber, Code, error, challenge_processing,
  stop_timer_response,
}
use rsmp_gatewa.Cyber.Challenge.{Inputs}
use rsmp_gatewa.Cyber.Handle.{
  purge_secret, handle_all_clear, answer_change, set_received, handle_change_pwd_request,
  store_switched, switch_found, switch_entry, change_found, change_pwd_of, finish_challenge,
  accept_response, accept_pong, if_named, for_running, handle_change_pwd_response, handle_pong,
  handle_ping, process_fields, cyber_process_internal_msg,
}
use rsmp_gatewa.Cyber.Invariant.{
  IsSound, announces, IsOpenedByBoth, IsValid, Holds, then_do-Holds, if-Holds,
}
use rsmp_gatewa.Cyber.Invariant.Calls.{
  send_message-IsValid, trigger_event-IsValid, open_if-IsValid, initiate_challenge-IsValid,
}

module _ (backend : Backend) (ldc : Ldc) (inp : Inputs) where
  handle_all_clear-IsValid :
      (cy : Cyber) → IsValid cy → Holds IsValid (handle_all_clear backend ldc inp cy)
  unfolding handle_all_clear
  handle_all_clear-IsValid cy (sound, opened) =
      open_if-IsValid cy.all_clear_sent _ (λ sent. (refl, sent)) (sound, λ a. (refl, (opened a).1))

  purge_secret-IsValid :
      (c : Option Cipher) (r : AuthRef) (cy : Cyber)
      → IsValid cy
      → Holds IsValid (purge_secret c r cy)
  unfolding purge_secret
  purge_secret-IsValid none r cy h = tt
  purge_secret-IsValid (some c) r cy h = h

  answer_change-IsValid :
      (m_id : CStr) (status : Bool) (cy : Cyber)
      → IsValid cy
      → Holds IsValid (answer_change backend ldc inp m_id status cy)
  unfolding answer_change
  answer_change-IsValid m_id status cy h = send_message-IsValid backend ldc _ none cy h

  set_received-IsValid :
      (r : AuthRef) (m_id : CStr) (o : Outcome Auth) (cy : Cyber)
      → IsValid cy
      → Holds IsValid (set_received backend ldc inp r m_id o cy)
  unfolding set_received
  set_received-IsValid r m_id (returned a) cy h =
      then_do-Holds IsValid _ _ (purge_secret-IsValid cy.cipher r _ h)
        (λ cy h. answer_change-IsValid m_id true cy h)
  set_received-IsValid r m_id failed cy h = answer_change-IsValid m_id false cy h
  set_received-IsValid r m_id fault cy h = tt

  change_found-IsValid :
      (r : AuthRef) (o : Option Auth) (m_id pwd : CStr) (cy : Cyber)
      → IsValid cy
      → Holds IsValid (change_found backend ldc inp r o m_id pwd cy)
  unfolding change_found
  change_found-IsValid r none m_id pwd cy h = tt
  change_found-IsValid r (some a) m_id pwd cy h = set_received-IsValid r m_id _ cy h

  change_pwd_of-IsValid :
      (from : Option AuthRef) (m_id pwd : CStr) (cy : Cyber)
      → IsValid cy
      → Holds IsValid (change_pwd_of backend ldc inp from m_id pwd cy)
  unfolding change_pwd_of
  change_pwd_of-IsValid none m_id pwd cy h = tt
  change_pwd_of-IsValid (some r) m_id pwd cy h = change_found-IsValid r _ m_id pwd cy h

  handle_change_pwd_request-IsValid :
      (from : Option AuthRef) (m_id pwd : CStr) (cy : Cyber)
      → IsValid cy
      → Holds IsValid (handle_change_pwd_request backend ldc inp from m_id pwd cy)
  unfolding handle_change_pwd_request
  handle_change_pwd_request-IsValid from m_id pwd cy h =
      if-Holds IsValid _ _ _ (λ free. change_pwd_of-IsValid from m_id pwd cy h)
        (λ taken. answer_change-IsValid m_id false cy h)

  store_switched-IsValid :
      (r : AuthRef) (o : Outcome Auth) (cy : Cyber)
      → IsValid cy
      → Holds IsValid (store_switched backend ldc inp r o cy)
  unfolding store_switched
  store_switched-IsValid r (returned a) cy h = purge_secret-IsValid cy.cipher r _ h
  store_switched-IsValid r failed cy h = h
  store_switched-IsValid r fault cy h = tt

  switch_found-IsValid :
      (r : AuthRef) (o : Option Auth) (cy : Cyber)
      → IsValid cy
      → Holds IsValid (switch_found backend ldc inp r o cy)
  unfolding switch_found
  switch_found-IsValid r none cy h = tt
  switch_found-IsValid r (some a) cy h = store_switched-IsValid r _ cy h

  switch_entry-IsValid :
      (r : Option AuthRef) (cy : Cyber)
      → IsValid cy
      → Holds IsValid (switch_entry backend ldc inp r cy)
  unfolding switch_entry
  switch_entry-IsValid none cy h = tt
  switch_entry-IsValid (some r) cy h = switch_found-IsValid r _ cy h

  finish_challenge-IsValid :
      (c : Challenge) (result : Response) (cy : Cyber)
      → IsOpenedByBoth cy
      → Holds IsValid (finish_challenge backend ldc inp c result cy)
  unfolding finish_challenge
  finish_challenge-IsValid c result cy opened = initiate_challenge-IsValid backend ldc inp _ (
      trigger_event-IsValid challenge_processing _ (unfold announces in refl)
        ((λ running. absurd (cc running)), opened))

  accept_response-IsValid :
      (c : Challenge) (status : Bool) (cy : Cyber)
      → IsSound (some c)
      → IsValid cy
      → Holds IsValid (accept_response backend ldc inp c status cy)
  unfolding accept_response stop_timer_response
  accept_response-IsValid c true cy sound (s, opened) =
      then_do-Holds IsValid _ _ (switch_entry-IsValid c.auth _ (sound, opened))
        λ cy h. finish_challenge-IsValid _ success cy h.1
  accept_response-IsValid c false cy sound (s, opened) = finish_challenge-IsValid _ busy cy opened

  accept_pong-IsValid :
      (c : Challenge) (cy : Cyber)
      → IsSound (some c)
      → IsValid cy
      → Holds IsValid (accept_pong backend ldc inp c cy)
  unfolding accept_pong stop_timer_response
  accept_pong-IsValid c cy sound (s, opened) =
      then_do-Holds IsValid _ _ (switch_entry-IsValid c.auth _ (sound, opened))
        λ cy h. finish_challenge-IsValid _ success cy h.1

  if_named-IsValid :
      (m_id : Option CStr) (o_m_id : CStr) (next : Cyber → Cyber × Code) (cy : Cyber)
      → Holds IsValid (next cy)
      → IsValid cy
      → Holds IsValid (if_named backend ldc inp m_id o_m_id next cy)
  unfolding if_named
  if_named-IsValid none o_m_id next cy h valid = tt
  if_named-IsValid (some m_id) o_m_id next cy h valid =
      if-Holds IsValid (str_eq o_m_id m_id) (next cy) (cy, error) (λ same. h) (λ other. valid)

  for_running-IsValid :
      (m_id_of : Challenge → Option CStr) (o_m_id : CStr) (next : Challenge → Cyber → Cyber × Code)
      (o : Option Challenge) (cy : Cyber)
      → ((c : Challenge) → IsSound (some c) → Holds IsValid (next c cy))
      → IsSound o
      → IsValid cy
      → Holds IsValid (for_running backend ldc inp m_id_of o_m_id next o cy)
  unfolding for_running
  for_running-IsValid m_id_of o_m_id next none cy h sound valid = valid
  for_running-IsValid m_id_of o_m_id next (some c) cy h sound valid =
      if-Holds IsValid c.running (if_named backend ldc inp (m_id_of c) o_m_id (next c) cy)
        (cy, error) (λ running. if_named-IsValid (m_id_of c) o_m_id (next c) cy (h c sound) valid)
        (λ idle. valid)

  process_fields-IsValid :
      (from : Option AuthRef) (m_id : CStr) (fields : Fields) (cy : Cyber)
      → IsValid cy
      → Holds IsValid (process_fields backend ldc inp from m_id fields cy)
  unfolding process_fields handle_change_pwd_response handle_pong handle_ping
  process_fields-IsValid from m_id (encrypted s_id login items) cy h = h
  process_fields-IsValid from m_id all_clear cy h = handle_all_clear-IsValid cy h
  process_fields-IsValid from m_id (change_pwd_request none) cy h = h
  process_fields-IsValid from m_id (change_pwd_request (some pwd)) cy h =
      handle_change_pwd_request-IsValid from m_id pwd cy h
  process_fields-IsValid from m_id (change_pwd_response status o_m_id) cy h =
      for_running-IsValid _ o_m_id _ cy.challenge cy
        (λ c sound. accept_response-IsValid c status cy sound h) h.0 h
  process_fields-IsValid from m_id (ping padding) cy h =
      send_message-IsValid backend ldc _ none cy h
  process_fields-IsValid from m_id (pong o_m_id padding) cy h =
      for_running-IsValid _ o_m_id _ cy.challenge cy (λ c sound. accept_pong-IsValid c cy sound h)
        h.0 h

  pub cyber_process_internal_msg-IsValid :
      (from : Option AuthRef) (msg : Message) (cy : Cyber)
      → IsValid cy
      → Holds IsValid (cyber_process_internal_msg backend ldc inp from msg cy)
  unfolding cyber_process_internal_msg
  cyber_process_internal_msg-IsValid from msg cy h =
      if-Holds IsValid (message_check_fields msg)
        (process_fields backend ldc inp from msg.m_id msg.fields cy) (cy, error)
        (λ checked. process_fields-IsValid from msg.m_id msg.fields cy h) (λ refused. h)
