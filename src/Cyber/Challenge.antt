-- ===== src/Cyber/Challenge.antt =====
-- The start of a challenge: searchLoginForChallenge, sendAllClear and initiateChallenge of
-- src/cyber/cyber.c and Challenge_encode of src/coder/coder.c. `Inputs` are what a call draws: the
-- clock, in seconds, the results of rand and of uuid_generate. The random wait before a challenge and
-- the switch of TEST_ENABLED that turns challenges off are not modelled; a null `*payload` that is
-- measured is `fault`.
use rsmp_gatewa.Common.{
  on, ℕ, zero, suc, ◌+◌, ◌*◌, ◌/◌, ◌%◌, Bool, true, false, not, ◌||◌, Option, none, some, List, [],
  ◌∷◌, length, ltb, CStr, if◌then◌else◌, Ldc, Outcome, returned, failed, fault, guard, require,
}
use rsmp_gatewa.Auth.Entry.{Auth}
use rsmp_gatewa.Auth.Store.{Store, lookup}
use rsmp_gatewa.Auth.Store.Walk.{auth_foreach}
use rsmp_gatewa.Auth.Rotation.{to_db_id, auth_get_new_pwd_b64}
use rsmp_gatewa.Cipher.{Cipher}
use rsmp_gatewa.Coder.Message.{encrypted, all_clear, change_pwd_request, ping, serialize_message}
use rsmp_gatewa.Coder.Secrets.{
  Backend, to_encrypt, coder_secret_get, compute_new_secret_auth_to, challenge_encode_data,
}
use rsmp_gatewa.Cyber.State.{
  AuthRef, ref_to, assign, Challenge, challenge_ctxt_new, free_challenge_context_members, Cyber,
  Code, ok, error, crashed, ◌then_do◌, open_if, is_active, has_challenge, send_optional_encryption,
  send_message,
}

pub record Inputs : Type 0 where
  pub now : ℕ
  pub draws : ℕ → ℕ
  pub pad_draws : ℕ → ℕ
  pub request_id : CStr
  pub ping_id : CStr
  pub container_id : CStr
  pub answer_id : CStr
  pub all_clear_id : CStr

-- triggerPeriod_sec
abbrev pub trigger_period_sec : ℕ
trigger_period_sec = 135 * 3 / 4

-- A password is renewed when a new one is pending or the current one is old.
unfoldable pub is_due : ℕ → Auth → Bool
is_due now auth = auth.new_pwd_pending || ltb (auth.timestamp + trigger_period_sec) now

abbrev pub or_new : Option Challenge → Challenge
or_new none = challenge_ctxt_new
or_new (some c) = c

-- The context for an entry that is due.
unfoldable pub chosen : ℕ → Option Challenge → Auth → Option Challenge
unfolding is_due
chosen now ctxt auth =
    if is_due now auth
    then some (record (or_new ctxt) { auth = some (ref_to auth); to_send = true })
    else ctxt

-- With the entry of the context: a challenge that has ended is freed first.
unfoldable pub search_beside : ℕ → Challenge → Option AuthRef → Auth → Option Challenge × Bool
search_beside now c none auth = (chosen now (some c) auth, true)
search_beside now c (some r) auth =
    if is_active c then (some c, false) else (chosen now none auth, true)

-- The callback: the context and whether the walk goes on.
unfoldable pub search_login_for_challenge :
    ℕ → Option Challenge → CStr → Auth → Option Challenge × Bool
search_login_for_challenge now none db_id auth = (chosen now none auth, true)
search_login_for_challenge now (some c) db_id auth = search_beside now c c.auth auth

-- A `char` that is set to the length: it is signed (on x86 and under -fsigned-char), and not negative
-- below 128.
unfoldable pub pad_len : CStr → Outcome ℕ
pad_len pwd_b64 = let n = (length pwd_b64 + 12) % 256 in if ltb n 128 then returned n else fault

unfoldable pub pad_chars : (ℕ → ℕ) → ℕ → CStr
pad_chars draws zero = []
pad_chars draws (suc n) = (draws 0 % 94 + 33) ∷ pad_chars (λ i. draws (suc i)) n

module _ (backend : Backend) (ldc : Ldc) (inp : Inputs) where
  -- From the second Challenge_encode_data on, with the secrets and the first encrypted item.
  unfoldable pub encode_ping :
      CStr
      → CStr
      → CStr
      → CStr
      → List ℕ
      → CStr
      → Challenge × Store
      → (Challenge × Store) × Outcome CStr
  encode_ping lib local login pwd new_secret first (c, st) =
      on (c, st) (pad_len pwd)
        λ n.
          let pad = pad_chars inp.pad_draws n in
          let c' = record c { pad = some pad; m_id_ping = some inp.ping_id } in
          on (c', st)
            (challenge_encode_data backend lib inp.now
              (record { m_id = inp.ping_id; fields = ping (some pad) }) new_secret)
            λ second.
              on (c', st)
                (serialize_message backend.print (record {
                  m_id = inp.container_id;
                  fields = encrypted (some local) (some login) (some first ∷ some second ∷ []);
                }))
                λ payload. ((record c' { running = true }, st), returned payload)

  -- With the entry, which is active.
  unfoldable pub encode_for :
      CStr → CStr → AuthRef → Auth → Challenge × Store → (Challenge × Store) × Outcome CStr
  encode_for lib local r auth (c, st) =
      on (c, st) (auth_get_new_pwd_b64 inp.draws auth)
        λ (auth1, pwd).
          on (c, assign r auth1 st) (coder_secret_get backend ldc lib auth1 local to_encrypt)
            λ (auth2, secret).
              let st2 = assign r auth2 (assign r auth1 st) in
              on (c, st2) (compute_new_secret_auth_to backend lib local auth2)
                λ new_secret.
                  let c' = record c {
                    m_id_change_pwd_request = some inp.request_id;
                    timestamp = inp.now;
                  } in
                  on (c', st2)
                    (challenge_encode_data backend lib inp.now
                      (record { m_id = inp.request_id; fields = change_pwd_request (some pwd) })
                      secret)
                    λ first. encode_ping lib local auth2.login pwd new_secret first (c', st2)

  unfoldable pub challenge_encode :
      Option Cipher
      → Option CStr
      → CStr
      → Option CStr
      → Challenge × Store
      → (Challenge × Store) × Outcome CStr
  challenge_encode cipher s_id_local login s_id_remote (c, st) =
      on (c, st) (require cipher)
        λ cipher.
          on (c, st) (require s_id_local)
            λ local.
              on (c, st) (require s_id_remote)
                λ remote.
                  on (c, st) (guard (not c.running))
                    λ u.
                      let freed = free_challenge_context_members c in
                      on (freed, st) (require (lookup st to_db_id remote login))
                        λ auth.
                          let r : AuthRef = record {
                            db_id = to_db_id;
                            s_id = remote;
                            login = login;
                          } in
                          let c' = record freed { auth = some r } in
                          on (c', st) (guard auth.active)
                            λ v. encode_for cipher.lib local r auth (c', st)

  unfoldable pub send_all_clear : Cyber → Cyber × Code
  send_all_clear cy =
      send_message backend ldc (record { m_id = inp.all_clear_id; fields = all_clear }) none cy
      then_do λ cy. (open_if cy.all_clear_rxed (record cy { all_clear_sent = true }), ok)

  -- The payload goes out, the challenge runs, the timer is armed.
  unfoldable pub launch : Challenge → CStr → CStr → Cyber → Cyber × Code
  launch c login payload cy =
      send_optional_encryption ldc payload false (some login) cy then_do λ cy. (
        record cy { challenge = some (record c { running = true; to_send = false; timer = true }) },
        ok,
      )

  unfoldable pub launch_encoded : CStr → (Challenge × Store) × Outcome CStr → Cyber → Cyber × Code
  launch_encoded login ((c, st), returned payload) cy =
      launch c login payload (record cy { challenge = some c; store = st })
  launch_encoded login ((c, st), failed) cy = (record cy { challenge = some c; store = st }, error)
  launch_encoded login ((c, st), fault) cy = (record cy { challenge = some c; store = st }, crashed)

  unfoldable pub send_challenge_for : Option AuthRef → Challenge → Cyber → Cyber × Code
  send_challenge_for none c cy = (cy, crashed)
  send_challenge_for (some r) c cy =
      launch_encoded r.login
        (challenge_encode cy.cipher cy.s_id_local r.login cy.s_id_remote (c, cy.store)) cy

  unfoldable pub send_challenge : Challenge → Cyber → Cyber × Code
  send_challenge c cy = send_challenge_for c.auth c cy

  -- The search, where no challenge is active.
  unfoldable pub search_challenge : Cyber → Cyber
  search_challenge cy = if has_challenge cy.challenge then cy else record cy {
    challenge =
        (auth_foreach (search_login_for_challenge inp.now) cy.challenge (some to_db_id)
          cy.s_id_remote cy.store).0;
  }

  unfoldable pub next_challenge : Option Challenge → Cyber → Cyber × Code
  next_challenge none cy = if cy.all_clear_sent then (cy, ok) else send_all_clear cy
  next_challenge (some c) cy =
      if is_active c
      then (if c.to_send then send_challenge c cy else (cy, ok))
      else if cy.all_clear_sent
      then (cy, ok)
      else send_all_clear cy

  unfoldable pub initiate_challenge : Cyber → Cyber × Code
  initiate_challenge cy = let found = search_challenge cy in next_challenge found.challenge found
