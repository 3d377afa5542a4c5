-- ===== src/Cyber/Link.antt =====
-- src/cyber/cyber.c: the threads of a connection, cyber_send, cyber_receive and
-- cyber_receive_internal, and waitForMessage_external, with which the application takes a message.
-- A condition only wakes a thread: a round is what the thread does once it is awake. Clocks and the
-- library that subtracts them are parameters. A null local site, without which _start refuses to
-- begin, is `fault`, and so is the release of a list that Encrypted_decode has not set.
pub mod Tasks
pub mod Kept
pub mod Refines
pub mod Terminated
pub mod Delivery
pub mod EndToEnd
pub mod Timeout
mod Examples
use rsmp_gatewa.Common.{
  ◌≡◌, ℕ, ◌-◌, ◌≤◌, ◌<◌, Bool, true, ◌&&◌, Option, none, some, List, [], ◌∷◌, ◌++◌, length, ltb,
  leb, CStr, if◌then◌else◌, Ldc, Outcome, returned, failed, fault, guard, require, ◌>>=◌, ◌>>◌,
}
use rsmp_gatewa.Auth.Entry.{Key}
use rsmp_gatewa.Cipher.{Cipher}
use rsmp_gatewa.Coder.Secrets.{Backend, Class, internal, external}
use rsmp_gatewa.Coder.Container.{Opening, Ptxt}
use rsmp_gatewa.Coder.Container.Open.{Container, Opened, read_container, encrypted_decode}
use rsmp_gatewa.Cyber.State.{AuthRef, Cyber, stop_exchange}
use rsmp_gatewa.Sync.Queue.{entry_buf}

abbrev pub long_max : ℕ
long_max = 9223372036854775807

-- The 64 bits of diffHorodateSec, of the library that is not in the file: seconds from the second
-- instant to the first.
pub record Clock : Type 0 where
  pub diff : ℕ → ℕ → ℕ
  pub diff_later : (a b : ℕ) → b ≤ a → a - b ≤ long_max → diff a b ≡ a - b
  pub diff_earlier :
      (a b : ℕ) → a < b → b - a ≤ long_max → diff a b ≡ 18446744073709551616 - (b - a)

-- queue_msg_t in the queues of received messages: the copy of the buffer, its length, and the entry
-- with which the message was deciphered.
pub record Pending : Type 0 where
  pub buf : Option CStr
  pub len : ℕ
  pub attrib : Option AuthRef

unfoldable pub queue_entry : CStr → Option AuthRef → Pending
unfolding entry_buf
queue_entry bytes attrib = record {
  buf = entry_buf (some bytes) (length bytes) true;
  len = length bytes;
  attrib = attrib;
}

-- A connection with its queues, when it last received, and its time limit in seconds, 0 for the -1 that
-- cyber_priv_new sets.
pub record Link : Type 0 where
  pub exchange : Cyber
  pub internal_q : List Pending
  pub external_q : List Pending
  pub last_rxed : ℕ
  pub to_sec : ℕ

unfoldable pub path_of : Option CStr → Option CStr → Option CStr → Option AuthRef
path_of none s_id login = none
path_of (some d) none login = none
path_of (some d) (some i) none = none
path_of (some d) (some i) (some l) = some (record { db_id = d; s_id = i; login = l })

unfoldable pub auth_of : Option Key → Option AuthRef
unfolding path_of
auth_of none = none
auth_of (some k) = path_of k.db_id k.s_id k.login

-- What the transport gives to the thread: a payload with its length, the end of the connection, or
-- another error, with the clock and what deciphering reads.
pub data Arrival : Type 0 where
  arrived : CStr → ℕ → Arrival
  connection_closed other_error : Arrival

pub record Round : Type 0 where
  pub arrival : Arrival
  pub now : ℕ
  pub opening : Opening

unfoldable pub stop_link : Link → Link
unfolding stop_exchange
stop_link l = record l { exchange = stop_exchange l.exchange }

-- `to_sec >= 1 && diff >= to_sec`, of a signed difference
unfoldable pub is_late : ℕ → ℕ → Bool
is_late elapsed to_sec = leb 1 to_sec && (leb elapsed long_max && leb to_sec elapsed)

unfoldable pub check_timeout : Clock → ℕ → Link → Link
unfolding is_late stop_link
check_timeout clock now l = if is_late (clock.diff now l.last_rxed) l.to_sec then stop_link l else l

-- The header and the items of a payload; before them Encrypted_decode does not set its list.
unfoldable pub container_of : Opening → CStr → ℕ → Outcome Container
unfolding read_container
container_of op payload len =
    guard (ltb 0 len) >> (require (op.parse payload) >>= read_container op.text_of)

module _ (ldc : Ldc) where
  -- A text is copied with its NUL for the application, and without it for the exchange.
  unfoldable pub push_ptxt : Option Class → Option CStr → Option AuthRef → Link → Outcome Link
  unfolding queue_entry
  push_ptxt none original attrib l = returned l
  push_ptxt (some class) none attrib l = fault
  push_ptxt (some internal) (some s) attrib l =
      returned (record l { internal_q = ldc.insert (queue_entry s attrib) l.internal_q })
  push_ptxt (some external) (some s) attrib l =
      returned
        (record l { external_q = ldc.insert (queue_entry (s ++ 0 ∷ []) attrib) l.external_q })

  unfoldable pub push_ptxts : List Ptxt → Option AuthRef → Link → Outcome Link
  unfolding push_ptxt
  push_ptxts [] attrib l = returned l
  push_ptxts (p ∷ ps) attrib l =
      push_ptxt p.class p.original attrib l >>= λ l'. push_ptxts ps attrib l'

  unfoldable pub push_decoded : Outcome (List Ptxt) → Option AuthRef → Link → Outcome Link
  unfolding push_ptxts
  push_decoded (returned ps) attrib l = push_ptxts ps attrib l
  push_decoded failed attrib l = returned l
  push_decoded fault attrib l = fault

  unfoldable pub after_decode : Outcome Container → Opened (List Ptxt) → Link → Outcome Link
  unfolding auth_of push_decoded
  after_decode failed o l = fault
  after_decode fault o l = fault
  after_decode (returned c) o l =
      push_decoded o.result (auth_of o.auth)
        (record l { exchange = record l.exchange { store = o.store } })

  -- Without a cipher Encrypted_decode does not set its list either.
  unfoldable pub decode_payload :
      Backend → Opening → CStr → ℕ → Option Cipher → Option CStr → Link → Outcome Link
  unfolding after_decode container_of encrypted_decode
  decode_payload backend op payload len none local l = fault
  decode_payload backend op payload len (some c) none l = fault
  decode_payload backend op payload len (some c) (some local) l =
      after_decode (container_of op payload len)
        (encrypted_decode op backend ldc c.lib local (some payload) len l.exchange.store) l

  unfoldable pub on_arrival : Backend → Clock → Arrival → ℕ → Opening → Link → Outcome Link
  unfolding decode_payload check_timeout stop_link
  on_arrival backend clock connection_closed now op l = returned (stop_link l)
  on_arrival backend clock other_error now op l = returned (check_timeout clock now l)
  on_arrival backend clock (arrived payload len) now op l =
      if l.exchange.stop
      then returned (check_timeout clock now l)
      else decode_payload backend op payload len l.exchange.cipher l.exchange.s_id_local
          (record l { last_rxed = now })

  -- cyber_receive, once transport->waitForPayload has returned
  unfoldable pub receive_round : Backend → Clock → Round → Link → Outcome Link
  unfolding on_arrival
  receive_round backend clock r l = on_arrival backend clock r.arrival r.now r.opening l

  -- The loop, over what arrives; another thread may have stopped it.
  unfoldable pub receive_loop : Backend → Clock → List Round → Link → Outcome Link
  unfolding receive_round
  receive_loop backend clock [] l = returned l
  receive_loop backend clock (r ∷ rs) l =
      if l.exchange.stop
      then returned l
      else (receive_round backend clock r l >>= λ l'. receive_loop backend clock rs l')
