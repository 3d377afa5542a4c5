-- ===== src/Cyber/Handle.antt =====
-- src/cyber/cyber.c: cyber_process_internal_msg, one definition for each case of its switch, and the
-- sending of a message of the application, _send. `from` is the entry of the database "from" with
-- which the message was deciphered, null for none.
use rsmp_gatewa.Common.{
  Bool, true, false, not, ◌&&◌, ◌||◌, Option, none, some, CStr, str_eq, if◌then◌else◌, Ldc, Outcome,
  returned, failed, fault,
}
use rsmp_gatewa.Auth.Entry.{Auth, Key}
use rsmp_gatewa.Auth.Store.{Store, lookup, auth_secret_delete_by_key}
use rsmp_gatewa.Auth.Store.Walk.{auth_get_first, auth_get_next_from_auth}
use rsmp_gatewa.Auth.Rotation.{to_db_id, auth_set_pwd_b64, auth_switch_to_new_pwd}
use rsmp_gatewa.Cipher.{Cipher}
use rsmp_gatewa.Coder.Message.{
  Message, Fields, encrypted, all_clear, change_pwd_request, change_pwd_response, ping, pong,
  message_check_fields,
}
use rsmp_gatewa.Coder.Secrets.{Backend}
use rsmp_gatewa.Cyber.State.{
  AuthRef, deref, assign, Challenge, Response, success, busy, Cyber, Code, ok, error, crashed,
  ◌then_do◌, trigger_event, open_if, challenge_processing, has_challenge, stop_timer_response,
  send_optional_encryption, send_message,
}
use rsmp_gatewa.Cyber.Challenge.{Inputs, initiate_challenge}

abbrev pub to_key : Option CStr → Option CStr → Key
to_key login s_id = record { db_id = some to_db_id; login = login; s_id = s_id }

abbrev pub is_free : Option Auth → Bool
is_free none = false
is_free (some a) = not a.new_pwd_pending

-- Whether a login for the answer has no new password pending: the first one or the next.
unfoldable pub has_free_login : Store → Option CStr → Bool
has_free_login s s_id = elim (auth_get_first s (to_key none s_id)) [
  | none ↦ false
  | some a ↦ if a.new_pwd_pending then is_free (auth_get_next_from_auth s a) else true
]

-- The entry and its secret for the cipher after a new password; `cipher->lib` follows the pointer.
unfoldable pub purge_secret : Option Cipher → AuthRef → Cyber → Cyber × Code
purge_secret none r cy = (cy, crashed)
purge_secret (some c) r cy =
    (record cy { store = auth_secret_delete_by_key r.db_id r.s_id r.login c.lib cy.store }, ok)

module _ (backend : Backend) (ldc : Ldc) (inp : Inputs) where
  unfoldable pub handle_all_clear : Cyber → Cyber × Code
  handle_all_clear cy = (open_if cy.all_clear_sent (record cy { all_clear_rxed = true }), ok)

  unfoldable pub answer_change : CStr → Bool → Cyber → Cyber × Code
  answer_change m_id status cy =
      send_message backend ldc
        (record { m_id = inp.answer_id; fields = change_pwd_response status m_id }) none cy

  unfoldable pub set_received : AuthRef → CStr → Outcome Auth → Cyber → Cyber × Code
  set_received r m_id (returned a) cy =
      purge_secret cy.cipher r (record cy { store = assign r a cy.store })
      then_do answer_change m_id true
  set_received r m_id failed cy = answer_change m_id false cy
  set_received r m_id fault cy = (cy, crashed)

  unfoldable pub change_found : AuthRef → Option Auth → CStr → CStr → Cyber → Cyber × Code
  change_found r none m_id pwd cy = (cy, crashed)
  change_found r (some a) m_id pwd cy = set_received r m_id (auth_set_pwd_b64 inp.now a pwd) cy

  unfoldable pub change_pwd_of : Option AuthRef → CStr → CStr → Cyber → Cyber × Code
  change_pwd_of none m_id pwd cy = (cy, crashed)
  change_pwd_of (some r) m_id pwd cy = change_found r (deref cy.store r) m_id pwd cy

  unfoldable pub handle_change_pwd_request : Option AuthRef → CStr → CStr → Cyber → Cyber × Code
  handle_change_pwd_request from m_id pwd cy =
      if not (has_challenge cy.challenge) || has_free_login cy.store cy.s_id_remote
      then change_pwd_of from m_id pwd cy
      else answer_change m_id false cy

  -- auth_switch_to_new_pwd and the purge of the secret, for the entry of the challenge.
  unfoldable pub store_switched : AuthRef → Outcome Auth → Cyber → Cyber × Code
  store_switched r (returned a) cy =
      purge_secret cy.cipher r (record cy { store = assign r a cy.store })
  store_switched r failed cy = (cy, error)
  store_switched r fault cy = (cy, crashed)

  unfoldable pub switch_found : AuthRef → Option Auth → Cyber → Cyber × Code
  switch_found r none cy = (cy, crashed)
  switch_found r (some a) cy = store_switched r (auth_switch_to_new_pwd inp.now a) cy

  unfoldable pub switch_entry : Option AuthRef → Cyber → Cyber × Code
  switch_entry none cy = (cy, crashed)
  switch_entry (some r) cy = switch_found r (deref cy.store r) cy

  -- The end of a challenge: the event, and the next one.
  unfoldable pub finish_challenge : Challenge → Response → Cyber → Cyber × Code
  finish_challenge c result cy = initiate_challenge backend ldc inp (
      trigger_event challenge_processing
        (record cy { challenge = some (record c { running = false; response = result }) }))

  unfoldable pub accept_response : Challenge → Bool → Cyber → Cyber × Code
  accept_response c true cy =
      let c' = record (stop_timer_response c) { response = success } in
      switch_entry c.auth (record cy { challenge = some c' }) then_do finish_challenge c' success
  accept_response c false cy = finish_challenge (stop_timer_response c) busy cy

  unfoldable pub accept_pong : Challenge → Cyber → Cyber × Code
  accept_pong c cy =
      let c' = stop_timer_response c in
      switch_entry c.auth (record cy { challenge = some c' }) then_do finish_challenge c' success

  -- The tests of an answer: a challenge runs, and the message names its request.
  unfoldable pub if_named : Option CStr → CStr → (Cyber → Cyber × Code) → Cyber → Cyber × Code
  if_named none o_m_id next cy = (cy, crashed)
  if_named (some m_id) o_m_id next cy = if str_eq o_m_id m_id then next cy else (cy, error)

  unfoldable pub for_running :
      (Challenge → Option CStr)
      → CStr
      → (Challenge → Cyber → Cyber × Code)
      → Option Challenge
      → Cyber
      → Cyber × Code
  for_running m_id_of o_m_id next none cy = (cy, error)
  for_running m_id_of o_m_id next (some c) cy =
      if c.running then if_named (m_id_of c) o_m_id (next c) cy else (cy, error)

  unfoldable pub handle_change_pwd_response : CStr → Bool → Cyber → Cyber × Code
  handle_change_pwd_response o_m_id status cy =
      for_running (λ c. c.m_id_change_pwd_request) o_m_id (λ c. accept_response c status)
        cy.challenge cy

  unfoldable pub handle_pong : CStr → Cyber → Cyber × Code
  handle_pong o_m_id cy = for_running (λ c. c.m_id_ping) o_m_id accept_pong cy.challenge cy

  unfoldable pub handle_ping : CStr → Option CStr → Cyber → Cyber × Code
  handle_ping m_id padding =
      send_message backend ldc (record { m_id = inp.answer_id; fields = pong m_id padding }) none

  unfoldable pub process_fields : Option AuthRef → CStr → Fields → Cyber → Cyber × Code
  process_fields from m_id (encrypted s_id login items) cy = (cy, error)
  process_fields from m_id all_clear cy = handle_all_clear cy
  -- messageCheckFields refuses a null password
  process_fields from m_id (change_pwd_request none) cy = (cy, error)
  process_fields from m_id (change_pwd_request (some pwd)) cy =
      handle_change_pwd_request from m_id pwd cy
  process_fields from m_id (change_pwd_response status o_m_id) cy =
      handle_change_pwd_response o_m_id status cy
  process_fields from m_id (ping padding) cy = handle_ping m_id padding cy
  process_fields from m_id (pong o_m_id padding) cy = handle_pong o_m_id cy

  unfoldable pub cyber_process_internal_msg : Option AuthRef → Message → Cyber → Cyber × Code
  cyber_process_internal_msg from msg cy =
      if message_check_fields msg then process_fields from msg.m_id msg.fields cy else (cy, error)

-- isAuthToAvailableForLogin; a null remote site finds nothing.
unfoldable pub is_auth_to_available : Store → CStr → Option CStr → Bool
is_auth_to_available s login none = false
is_auth_to_available s login (some i) = elim (lookup s to_db_id i login) [
  | none ↦ false
  | some a ↦ true
]

abbrev pub is_challenged : Option Challenge → Auth → Bool
is_challenged none a = false
is_challenged (some c) a = elim c.auth [
  | none ↦ false
  | some r ↦
      (str_eq r.db_id a.db_id && (str_eq r.s_id a.s_id && str_eq r.login a.login))
      && (c.running || c.to_send)
]

-- The login that _send takes where the caller gives none.
unfoldable pub automatic_login : Cyber → Auth → Option CStr
automatic_login cy a =
    if is_challenged cy.challenge a
    then elim (auth_get_next_from_auth cy.store a) [
      | none ↦ none
      | some b ↦ if b.new_pwd_pending then none else some b.login
    ]
    else some a.login

-- The login under which a message goes out, none where it is refused.
unfoldable pub login_for_send : Cyber → Option CStr → Option CStr
login_for_send cy none = elim (auth_get_first cy.store (to_key none cy.s_id_remote)) [
  | none ↦ none
  | some a ↦ automatic_login cy a
]
login_for_send cy (some login) =
    if is_auth_to_available cy.store login cy.s_id_remote
    then (if is_free (auth_get_first cy.store (to_key (some login) cy.s_id_remote))
        then some login
        else none)
    else none

unfoldable pub send_under : Ldc → CStr → Option CStr → Cyber → Cyber × Code
send_under ldc payload none cy = (cy, error)
send_under ldc payload (some l) cy = send_optional_encryption ldc payload true (some l) cy

unfoldable pub send : Ldc → CStr → Option CStr → Cyber → Cyber × Code
send ldc payload login cy =
    if cy.all_clear_rxed && cy.all_clear_sent
    then send_under ldc payload (login_for_send cy login) cy
    else (cy, error)
