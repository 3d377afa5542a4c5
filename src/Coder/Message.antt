-- ===== src/Coder/Message.antt =====
-- src/coder/coder.c and coder.h: internal messages, their checks, and their JSON form.
-- A pointer to a string is an `Option CStr`. json-c is a parameter: an object is the list of its
-- members in order, `print` is json_object_to_json_string and `parse` is parse_json_with_length.
-- `oMId` is an array of 37 characters: a `strcpy` of a longer string into it is `fault`, and so is
-- json_object_new_string(NULL).
pub mod RoundTrip
pub mod Accepts
use rsmp_gatewa.Common.{
  ℕ, ◌+◌, ◌-◌, ◌*◌, ◌/◌, Bool, true, false, not, ◌&&◌, Option, none, some, List, [], ◌∷◌, leb, ◌==◌,
  if◌then◌else◌, length, get_or, CStr, codes, str_eq, Outcome, returned, failed, fault, guard,
  require, ◌>>=◌, ◌>>◌,
}

-- The union MessageFields, tagged by MessageType.
pub data Fields : Type 0 where
  encrypted : (s_id login : Option CStr) (items : List (Option CStr)) → Fields
  all_clear : Fields
  change_pwd_request : (pwd : Option CStr) → Fields
  change_pwd_response : (status : Bool) (o_m_id : CStr) → Fields
  ping : (padding : Option CStr) → Fields
  pong : (o_m_id : CStr) (padding : Option CStr) → Fields

pub record Message : Type 0 where
  pub m_id : CStr
  pub fields : Fields

-- UUID_STR_LEN - 1
abbrev pub uuid_len : ℕ
uuid_len = 36

-- AUTH_PWD_LEN_MAX
abbrev pub pwd_len_max : ℕ
pwd_len_max = 256

-- `p != NULL && strlen(p) != 0`
unfoldable pub is_filled : Option CStr → Bool
is_filled none = false
is_filled (some []) = false
is_filled (some (c ∷ cs)) = true

unfoldable pub all_filled : List (Option CStr) → Bool
unfolding is_filled
all_filled [] = true
all_filled (p ∷ ps) = is_filled p && all_filled ps

-- The number of padding characters that the check subtracts. On the one-character string "=" the
-- source reads the character before the string; the sum stays negative whatever it finds.
unfoldable pub pad_count : CStr → ℕ
pad_count s =
    if get_or s (length s - 1) 0 == b'='
    then if get_or s (length s - 2) 0 == b'=' then 2 else 1
    else 0

-- `original_length >= AUTH_PWD_LEN_MAX`; the length of a string times three fits an int.
unfoldable pub is_too_long : CStr → Bool
unfolding pad_count
is_too_long s = leb (pwd_len_max + pad_count s) (length s * 3 / 4)

unfoldable pub pwd_is_accepted : Option CStr → Bool
unfolding is_too_long
pwd_is_accepted none = false
pwd_is_accepted (some []) = false
pwd_is_accepted (some (c ∷ cs)) = not (is_too_long (c ∷ cs))

unfoldable pub fields_are_valid : Fields → Bool
unfolding is_filled all_filled pwd_is_accepted
fields_are_valid (encrypted s_id login []) = false
fields_are_valid (encrypted s_id login (i ∷ is)) = is_filled s_id && all_filled (i ∷ is)
fields_are_valid all_clear = true
fields_are_valid (change_pwd_request pwd) = pwd_is_accepted pwd
fields_are_valid (change_pwd_response status o_m_id) = is_filled (some o_m_id)
fields_are_valid (ping padding) = is_filled padding
fields_are_valid (pong o_m_id padding) = is_filled padding && is_filled (some o_m_id)

-- Whether messageCheckFields returns 0.
unfoldable pub message_check_fields : Message → Bool
unfolding fields_are_valid
message_check_fields m = length m.m_id == uuid_len && fields_are_valid m.fields

pub data Value : Type 0 where
  str : CStr → Value
  bool : Bool → Value
  strings : List CStr → Value
  other : Value

abbrev pub Object : Type 0
Object = List (CStr × Value)

unfoldable pub get_ex : Object → CStr → Option Value
unfolding str_eq
get_ex [] key = none
get_ex ((k, v) ∷ members) key = if str_eq k key then some v else get_ex members key

unfoldable pub as_string : Option Value → Option CStr
as_string (some (str s)) = some s
as_string _ = none

unfoldable pub as_bool : Option Value → Option Bool
as_bool (some (bool b)) = some b
as_bool _ = none

-- json_object_new_string
unfoldable pub new_string : Option CStr → Outcome Value
new_string none = fault
new_string (some s) = returned (str s)

unfoldable pub new_strings : List (Option CStr) → Outcome (List CStr)
new_strings [] = returned []
new_strings (none ∷ ps) = fault
new_strings (some s ∷ ps) = do rest ← new_strings ps; returned (s ∷ rest)

-- The members that the switch of serializeMessage adds.
unfoldable pub field_members : Fields → Outcome Object
unfolding new_string new_strings
field_members (encrypted s_id login items) = do
  s ← new_string s_id
  d ← new_strings items
  l ← new_string login
  returned (
      (codes "type", str (codes "Encrypted"))
      ∷ (codes "sId", s)
      ∷ (codes "data", strings d)
      ∷ (codes "login", l)
      ∷ [])
field_members all_clear = returned ((codes "type", str (codes "AllClear")) ∷ [])
field_members (change_pwd_request pwd) = do
  p ← new_string pwd
  returned ((codes "type", str (codes "ChangePwdRequest")) ∷ (codes "pwd", p) ∷ [])
field_members (change_pwd_response status o_m_id) = returned (
    (codes "type", str (codes "ChangePwdResponse"))
    ∷ (codes "oMId", str o_m_id)
    ∷ (codes "status", bool status)
    ∷ [])
field_members (ping padding) = do
  p ← new_string padding
  returned ((codes "type", str (codes "Ping")) ∷ (codes "pad", p) ∷ [])
field_members (pong o_m_id padding) = do
  p ← new_string padding
  returned ((codes "type", str (codes "Pong")) ∷ (codes "pad", p) ∷ (codes "oMId", str o_m_id) ∷ [])

-- The object that serializeMessage builds.
unfoldable pub message_object : Message → Outcome Object
unfolding message_check_fields field_members
message_object m = do
  guard (message_check_fields m)
  rest ← field_members m.fields
  returned ((codes "mType", str (codes "eRMsg")) ∷ (codes "mId", str m.m_id) ∷ rest)

-- `strcpy` into an array of UUID_STR_LEN characters.
unfoldable pub copy_uuid : CStr → Outcome CStr
copy_uuid s = if leb (length s) uuid_len then returned s else fault

unfoldable pub read_pwd_response : Object → Outcome Fields
unfolding get_ex as_string as_bool copy_uuid
read_pwd_response o = do
  o_m_id ← require (as_string (get_ex o (codes "oMId")))
  copied ← copy_uuid o_m_id
  status ← require (as_bool (get_ex o (codes "status")))
  returned (change_pwd_response status copied)

unfoldable pub read_pong : Object → Outcome Fields
unfolding get_ex as_string copy_uuid
read_pong o = do
  pad ← require (as_string (get_ex o (codes "pad")))
  o_m_id ← require (as_string (get_ex o (codes "oMId")))
  copied ← copy_uuid o_m_id
  returned (pong copied (some pad))

-- The switch of deserializeMessage; the type "Encrypted" is none of its cases.
unfoldable pub read_fields : Object → CStr → Outcome Fields
unfolding get_ex as_string str_eq read_pwd_response read_pong
read_fields o type =
    if str_eq type (codes "AllClear")
    then returned all_clear
    else if str_eq type (codes "ChangePwdRequest")
    then (require (as_string (get_ex o (codes "pwd"))) >>= λ pwd.
        returned (change_pwd_request (some pwd)))
    else if str_eq type (codes "ChangePwdResponse")
    then read_pwd_response o
    else if str_eq type (codes "Ping")
    then (require (as_string (get_ex o (codes "pad"))) >>= λ pad. returned (ping (some pad)))
    else if str_eq type (codes "Pong")
    then read_pong o
    else failed

-- The checks of mType and mId, and the text of the type.
unfoldable pub read_header : Object → Outcome (CStr × CStr)
unfolding get_ex as_string str_eq
read_header o = do
  m_type ← require (as_string (get_ex o (codes "mType")))
  guard (str_eq m_type (codes "eRMsg"))
  m_id ← require (as_string (get_ex o (codes "mId")))
  guard (length m_id == uuid_len)
  type ← require (as_string (get_ex o (codes "type")))
  returned (m_id, type)

-- The last check of deserializeMessage.
unfoldable pub checked : Message → Outcome Message
checked m = if message_check_fields m then returned m else failed

unfoldable pub read_body : Object → CStr × CStr → Outcome Message
unfolding read_fields checked message_check_fields
read_body o (m_id, type) = do
  fields ← read_fields o type
  checked (record { m_id = m_id; fields = fields })

unfoldable pub read_message : Object → Outcome Message
unfolding read_header read_body
read_message o = do parts ← read_header o; read_body o parts

unfoldable pub serialize_message : (Object → CStr) → Message → Outcome CStr
unfolding message_object
serialize_message print m = do o ← message_object m; returned (print o)

unfoldable pub deserialize_message : (CStr → Option Object) → CStr → Outcome Message
unfolding read_message
deserialize_message parse payload = do o ← require (parse payload); read_message o
