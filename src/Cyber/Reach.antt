-- ===== src/Cyber/Reach.antt =====
-- The states that an exchange of src/cyber/cyber.c reaches by calls that do not crash, in any order,
-- while the sending thread takes messages and other threads change the store of entries.
use rsmp_gatewa.Common.{◌≡◌, false, Option, none, some, List, [], CStr, Ldc}
use rsmp_gatewa.Auth.Store.{Store}
use rsmp_gatewa.Cipher.{Cipher}
use rsmp_gatewa.Coder.Message.{Message}
use rsmp_gatewa.Coder.Secrets.{Backend}
use rsmp_gatewa.Cyber.State.{
  AuthRef, Challenge, challenge_ctxt_new, Queued, Cyber, Code, ok, error, crashed, stop_exchange,
  handler_timeout_challenge, cyber_set_site_id_local, cyber_set_site_id_remote,
}
use rsmp_gatewa.Cyber.Challenge.{Inputs, initiate_challenge}
use rsmp_gatewa.Cyber.Handle.{cyber_process_internal_msg, send}

-- cyber_new_from_transport
abbrev pub cyber_new : Store → Cyber
cyber_new st = record {
  cipher = none;
  s_id_local = none;
  s_id_remote = none;
  challenge = some challenge_ctxt_new;
  all_clear_rxed = false;
  all_clear_sent = false;
  stop = false;
  send_q = [];
  events = [];
  store = st;
}

-- The state after a call that did not crash.
abbrev pub Returns : Cyber × Code → Cyber → Type 0
Returns (cy, ok) cy' = cy ≡ cy'
Returns (cy, error) cy' = cy ≡ cy'
Returns (cy, crashed) cy' = ⊥

pub data Step (backend : Backend) (ldc : Ldc) (cy : Cyber) : Cyber → Type 0 where
  processed :
      (inp : Inputs) (from : Option AuthRef) (msg : Message) {cy' : Cyber}
      → Returns (cyber_process_internal_msg backend ldc inp from msg cy) cy'
      → Step backend ldc cy cy'
  initiated :
      (inp : Inputs) {cy' : Cyber}
      → Returns (initiate_challenge backend ldc inp cy) cy'
      → Step backend ldc cy cy'
  sent :
      (payload : CStr) (login : Option CStr) {cy' : Cyber}
      → Returns (send ldc payload login cy) cy'
      → Step backend ldc cy cy'
  expired : Step backend ldc cy (handler_timeout_challenge cy)
  stopped : Step backend ldc cy (stop_exchange cy)
  named_local : (s : CStr) → Step backend ldc cy (cyber_set_site_id_local s cy).0
  named_remote : (s : CStr) → Step backend ldc cy (cyber_set_site_id_remote s cy).0
  agreed : (c : Option Cipher) → Step backend ldc cy (record cy { cipher = c })
  taken : (rest : List Queued) → Step backend ldc cy (record cy { send_q = rest })
  stored : (st : Store) → Step backend ldc cy (record cy { store = st })

pub data Reach (backend : Backend) (ldc : Ldc) : Cyber → Type 0 where
  created : (st : Store) → Reach backend ldc (cyber_new st)
  stepped :
      {cy cy' : Cyber} → Reach backend ldc cy → Step backend ldc cy cy' → Reach backend ldc cy'
