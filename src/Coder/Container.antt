-- ===== src/Coder/Container.antt =====
-- src/coder/coder.c: the container of encrypted texts, as it is built for a peer and as it is opened.
-- A text keeps its pointers, which may be null. What is not in the file is the record `Opening`.
pub mod Seal
pub mod Items
pub mod Sample
mod Examples
pub mod Crashes
pub mod Steps
pub mod Accepts
pub mod Carried
pub mod Ciphered
pub mod RoundTrip
pub mod Keys
pub mod Open
use rsmp_gatewa.Common.{
  ℕ, Bool, true, false, not, ◌&&◌, ◌||◌, Option, none, some, List, ltb, CStr, codes, str_eq,
  if◌then◌else◌, Outcome, returned, failed, fault, guard, require, ◌>>=◌, ◌>>◌,
}
use rsmp_gatewa.Auth.Entry.{Key, Auth}
use rsmp_gatewa.Auth.Store.{Store, auth_find_by_key, auth_update}
use rsmp_gatewa.Auth.Store.Walk.{auth_get_first}
use rsmp_gatewa.Auth.Rotation.{to_db_id, from_db_id}
use rsmp_gatewa.Coder.Secrets.{
  Action, to_encrypt, to_decrypt, Class, internal, external, strstr, external_mark, internal_mark,
}
use rsmp_gatewa.Rsmp.Values.{Json, Members, end, member, text, object, c_str}

-- The cipher of a name (OpenSSL), json-c, and the reading of times; `read_time` is null where the
-- seconds are not positive, and `delta_ms` is the distance from the time of a text to the clock at
-- the item of this number.
pub record Opening : Type 0 where
  -- whether a context is there
  pub context_new : CStr → Bool
  -- under a key, of a text that may be null
  pub decrypt : CStr → List ℕ → Option CStr → Outcome CStr
  pub parse : CStr → Option Json
  -- json_object_get_string of what is no string
  pub text_of : Json → CStr
  pub read_time : CStr → Option ℕ
  pub delta_ms : ℕ → ℕ → ℕ
  -- coder_set_time_windows; 0 turns the check off
  pub window : ℕ

-- ptxt_t; the class is null for _cipher_class_unknown_
pub record Ptxt : Type 0 where
  pub original : Option CStr
  pub class : Option Class
  pub timestamp : ℕ

abbrev pub db_of : Action → CStr
db_of to_encrypt = to_db_id
db_of to_decrypt = from_db_id

-- auth_to_key_set and auth_from_key_set
abbrev pub key_for : Action → Option CStr → CStr → Key
key_for action login s_id = record { db_id = some (db_of action); login = login; s_id = some s_id }

unfoldable pub auth_for : Store → Option CStr → CStr → Action → Option Auth
auth_for s (some login) s_id action = auth_find_by_key s (key_for action (some login) s_id)
auth_for s none s_id to_encrypt = auth_get_first s (key_for to_encrypt none s_id)
auth_for s none s_id to_decrypt = none

unfoldable pub if_active : Auth → Outcome Auth
if_active a = if a.active then returned a else failed

-- The entry that `auth` points to, and the entry that the call gives.
unfoldable pub coder_auth_get :
    Store → Option CStr → Option CStr → Action → Option Auth × Outcome Auth
unfolding auth_for if_active
coder_auth_get s login none action = (none, fault)
coder_auth_get s login (some s_id) action =
    let found = auth_for s login s_id action in (found, require found >>= if_active)

-- The secret that the call keeps in the entry.
unfoldable pub keep :
    Action → Option CStr → Store → Outcome (Auth × List ℕ) → Store × Outcome (Auth × List ℕ)
keep action none s o = (s, fault)
keep action (some s_id) s failed = (s, failed)
keep action (some s_id) s fault = (s, fault)
keep action (some s_id) s (returned (a, key)) =
    (auth_update (db_of action) s_id a.login (λ old. a) s, returned (a, key))

-- A member, also one whose value is null.
unfoldable pub member_value : CStr → Members → Option Json
unfolding str_eq
member_value k end = none
member_value k (member j w o) = if str_eq j k then some w else member_value k o

-- json_object_object_get_ex
unfoldable pub object_get_ex : Json → CStr → Option Json
unfolding member_value
object_get_ex (object o) k = member_value k o
object_get_ex _ k = none

unfoldable pub string_of : Json → Option CStr
unfolding c_str
string_of (text s) = some (c_str s)
string_of _ = none

unfoldable pub ptxt_json_extract_field : Json → CStr → Outcome CStr
unfolding object_get_ex string_of
ptxt_json_extract_field v key = do item ← require (object_get_ex v key); require (string_of item)

unfoldable pub class_of_text : CStr → Outcome Class
unfolding str_eq
class_of_text s =
    if str_eq s (codes "INTERNAL")
    then returned internal
    else if str_eq s (codes "EXTERNAL")
    then returned external
    else failed

unfoldable pub ptxt_extract_class : Json → Outcome Class
unfolding ptxt_json_extract_field class_of_text
ptxt_extract_class v = ptxt_json_extract_field v (codes "class") >>= class_of_text

unfoldable pub ptxt_extract_timestamp : Opening → Json → Outcome ℕ
unfolding ptxt_json_extract_field
ptxt_extract_timestamp op v =
    ptxt_json_extract_field v (codes "timestamp") >>= λ s. require (op.read_time s)

-- The fields in the order in which they are extracted.
unfoldable pub read_ptxt : Opening → Json → Outcome Ptxt
unfolding ptxt_extract_timestamp ptxt_extract_class ptxt_json_extract_field
read_ptxt op v = do
  ts ← ptxt_extract_timestamp op v
  class ← ptxt_extract_class v
  original ← ptxt_json_extract_field v (codes "original")
  returned (record { original = some original; class = some class; timestamp = ts })

unfoldable pub ptxt_deserial : Opening → CStr → Outcome Ptxt
unfolding read_ptxt
ptxt_deserial op payload = require (op.parse payload) >>= read_ptxt op

unfoldable pub is_classed : Option Class → Bool
is_classed none = false
is_classed (some c) = true

unfoldable pub is_marked : CStr → Bool
unfolding strstr
is_marked original = strstr original external_mark || strstr original internal_mark

-- `_coder_time_windows > 0 && delta > _coder_time_windows`
unfoldable pub is_outdated : ℕ → ℕ → Bool
is_outdated window delta = ltb 0 window && ltb window delta

unfoldable pub ptxt_is_valid : ℕ → ℕ → Ptxt → Outcome (Unit {0})
unfolding is_classed is_outdated is_marked
ptxt_is_valid window delta p = do
  original ← require p.original
  guard (is_classed p.class)
  guard (not (is_outdated window delta))
  guard (is_marked original)
