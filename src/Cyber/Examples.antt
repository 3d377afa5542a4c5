-- ===== src/Cyber/Examples.antt =====
-- Exchanges on which the theorems about src/cyber apply.
use rsmp_gatewa.Auth.Rotation.{auth_to_is}
mod Stored
use rsmp_gatewa.Common.{
  update_by, str_eq, find_by, ◌≡◌, ◌⊎◌, inl, refl, ℕ, true, false, none, some, [], ◌∷◌, arith,
  codes, CStr, replicate, append_ldc, returned,
}
use rsmp_gatewa.Auth.Pwd.{pwd_of, pwd_null}
use rsmp_gatewa.Auth.Entry.{Auth}
use rsmp_gatewa.Auth.Store.{
  auth_s_id_search, auth_db_search, sites_of, logins_of, Store, auth_insert, lookup,
}
use rsmp_gatewa.Cipher.{cipher_get_by_str, Cipher, Table}
use rsmp_gatewa.Coder.Message.{pong}
use rsmp_gatewa.Coder.Secrets.{Backend}
use rsmp_gatewa.Cyber.Negotiate.{
  accept_site, Agreement, Peer, enabled_names, choose, cyber_exchange_leader,
  cyber_exchange_follower, follower_offer,
}
use rsmp_gatewa.Cyber.Negotiate.Agree.{negotiate-agree}
use rsmp_gatewa.Cyber.State.{challenge_ctxt_new, Cyber, ok, error}
use rsmp_gatewa.Cyber.Challenge.{Inputs, challenge_encode}
use rsmp_gatewa.Cyber.Handle.{cyber_process_internal_msg, send, login_for_send}
use rsmp_gatewa.Cyber.Reach.{cyber_new}
use rsmp_gatewa.Cyber.Answers.{cyber_process_internal_msg_pong, send_gate, with_queued}
use rsmp_gatewa.Cyber.LongPassword.{IsUnsent, challenge_encode-IsUnsent}

abbrev aes128 : Cipher
aes128 = record { lib = codes "AES128CTR"; enabled = true }

abbrev aes256 : Cipher
aes256 = record { lib = codes "AES256CTR"; enabled = true }

abbrev leader_table : Table
leader_table = aes128 ∷ record { lib = codes "AES256CTR"; enabled = false } ∷ []

abbrev follower_table : Table
follower_table = aes128 ∷ aes256 ∷ []

abbrev leader : Peer
leader = record { s_id_local = codes "L"; s_id_remote = none; cipher = none }

abbrev follower : Peer
follower = record { s_id_local = codes "F"; s_id_remote = some (codes "L"); cipher = none }

negotiate-agree_example :
    (d : Cipher) × (answer : Agreement) × ((cyber_exchange_leader leader_table
          (returned (follower_offer follower_table follower))
          leader
        ≡ (
          record { s_id_local = codes "L"; s_id_remote = some (codes "F"); cipher = some aes128 },
          returned answer,
        ))
      × ((cyber_exchange_follower follower_table (returned answer) follower ≡ (
        record { s_id_local = codes "F"; s_id_remote = some (codes "L"); cipher = some d },
        returned tt,
      ))
          × ((codes "AES128CTR" ≡ d.lib) × ((true ≡ true) × (d.enabled ≡ true)))))
unfolding find_by str_eq accept_site choose enabled_names cipher_get_by_str
negotiate-agree_example =
    negotiate-agree leader_table follower_table leader follower
      (record leader { s_id_remote = some (codes "F") }) follower aes128 (refl, (refl, tt)) refl
      refl refl

-- A backend without OpenSSL and json-c.
abbrev plain : Backend
plain = record {
  key_gen = λ lib source. returned source;
  encrypt = λ lib key text. returned text;
  print = λ o. codes "\"eRMsg\"";
  time_text = λ t. codes "now";
}

abbrev id_of : ℕ → CStr
id_of c = replicate 36 c

abbrev inputs : Inputs
inputs = record {
  now = 1000;
  draws = λ i. i;
  pad_draws = λ i. i;
  request_id = id_of 65;
  ping_id = id_of 66;
  container_id = id_of 67;
  answer_id = id_of 68;
  all_clear_id = id_of 69;
}

abbrev fresh : Cyber
fresh = cyber_new []

cyber_process_internal_msg_pong_example :
    cyber_process_internal_msg plain append_ldc inputs none
      (record { m_id = id_of 70; fields = pong (id_of 66) (some (codes "pad")) })
      fresh
    ≡ (fresh, error)
cyber_process_internal_msg_pong_example =
    cyber_process_internal_msg_pong plain append_ldc inputs none (id_of 70) (id_of 66)
      (some (codes "pad")) fresh (inl refl)

abbrev entry : ℕ → Auth
entry n = record {
  db_id = codes "to";
  login = codes "a";
  s_id = codes "site";
  active = true;
  pwd = pwd_of (replicate n 1);
  timestamp = 5;
  new_pwd_pending = false;
  new_pwd = pwd_null;
  secrets = [];
}

abbrev store : ℕ → Store
store n = (auth_insert append_ldc (entry n) []).0

abbrev opened : Cyber
opened = record (cyber_new (store 8)) {
  s_id_remote = some (codes "site");
  all_clear_rxed = true;
  all_clear_sent = true;
}

send_gate_example :
    (send append_ldc (codes "text") none opened ≡ (opened, error))
    ⊎ ((true ≡ true)
        × ((true ≡ true)
            × ((l : CStr) × ((login_for_send opened none ≡ some l)
                  × (send append_ldc (codes "text") none opened
                      ≡ (with_queued append_ldc (codes "text") (some l) opened, ok))))))
send_gate_example = send_gate append_ldc (codes "text") none opened (omega arith)

challenge_encode-IsUnsent_example : IsUnsent (
    challenge_encode plain append_ldc inputs
      (some aes128)
      (some (codes "L"))
      (codes "a")
      (some (codes "site"))
      (challenge_ctxt_new, store 100))
unfolding lookup find_by logins_of sites_of auth_insert update_by auth_db_search str_eq
    auth_s_id_search auth_to_is
challenge_encode-IsUnsent_example =
    challenge_encode-IsUnsent plain append_ldc inputs (some aes128) (some (codes "L")) (codes "a")
      (codes "site") (entry 100) challenge_ctxt_new (store 100) refl
      ((refl, (refl, (omega arith, omega arith))), (refl, (omega arith, omega arith)))
