-- ===== src/Rsmp/Display.antt =====
-- src/rsmp/sxl/display/disp_json_generic.c: the JSON texts of the messages for displays, S30, S40, M31,
-- M32, M40 and M41. A char array of a structure is the list of its bytes before the NUL; it has as
-- many bytes as the array where there is no NUL. Numbers of 32 bits are words. Null arguments are
-- refused at once, and are not modelled; a text that json-c does not parse is `none`.
pub mod Commands
pub mod RoundTrip
pub mod Cut
mod Examples
use rsmp_gatewa.Common.{
  ℕ, ◌+◌, ◌-◌, Option, none, some, List, [], ◌∷◌, length, take, ltb, leb, CStr, codes,
  if◌then◌else◌, Outcome, returned, failed, fault, require, ◌>>=◌,
}
use rsmp_gatewa.Coder.Container.{object_get_ex}
use rsmp_gatewa.Coder.Container.Open.{json_string}
use rsmp_gatewa.Rsmp.Values.{
  Json, nothing, boolean, number, large, real, text, array, object, Items, nil, cons, end, member,
  int64_max, array_items,
}

-- What json-c makes of a value that is no string, and of one that is no integer.
pub record JsonReading : Type 0 where
  pub text_of : Json → CStr
  pub int_of : Json → ℕ

abbrev pub int_max : ℕ
int_max = 2147483647

-- What is added to a negative number of 32 bits for one of 64.
abbrev pub sign_bits : ℕ
sign_bits = 18446744069414584320

-- json_object_new_int of a word that is taken as signed.
unfoldable pub new_int : ℕ → Json
new_int w = number (if leb w int_max then w else w + sign_bits)

-- json_object_get_int of an integer: the nearest one of 32 bits.
unfoldable pub nearest_int : ℕ → ℕ
nearest_int n =
    if leb n int64_max
    then if leb n int_max then n else int_max
    else if leb (sign_bits + (int_max + 1)) n
    then n - sign_bits
    else int_max + 1

unfoldable pub get_int : JsonReading → Json → ℕ
unfolding nearest_int
get_int rd nothing = 0
get_int rd (boolean b) = rd.int_of (boolean b)
get_int rd (number n) = nearest_int n
get_int rd (large n) = if leb n int_max then n else int_max
get_int rd (real n) = rd.int_of (real n)
get_int rd (text s) = rd.int_of (text s)
get_int rd (array xs) = 0
get_int rd (object o) = 0

-- A char array of this size is read up to its NUL.
unfoldable pub array_text : ℕ → CStr → Outcome CStr
array_text n s = if ltb (length s) n then returned s else fault

unfoldable pub array_string : ℕ → CStr → Outcome Json
unfolding array_text
array_string n s = array_text n s >>= λ t. returned (text t)

-- strncpy with the size of the array; a null source is followed.
unfoldable pub strncpy : ℕ → Option CStr → Outcome CStr
strncpy n none = fault
strncpy n (some s) = returned (take n s)

module _ {A : Type 0} where
  -- A loop over the items of an array.
  unfoldable pub decode_each : (Json → Outcome A) → Items → Outcome (List A)
  decode_each f nil = returned []
  decode_each f (cons v vs) = do a ← f v; as' ← decode_each f vs; returned (a ∷ as')

  -- A loop that adds to an array.
  unfoldable pub encode_each : (A → Outcome Json) → List A → Outcome Items
  encode_each f [] = returned nil
  encode_each f (a ∷ as') = do v ← f a; vs ← encode_each f as'; returned (cons v vs)

module _ (rd : JsonReading) where
  unfoldable pub copy_member : ℕ → Option Json → CStr → Outcome CStr
  unfolding strncpy json_string
  copy_member n none old = returned old
  copy_member n (some w) old = strncpy n (json_string rd.text_of w)

  -- `if (json_object_object_get_ex(v, key, &w)) strncpy(...)`: without the member the array stays.
  unfoldable pub read_text : ℕ → Json → CStr → CStr → Outcome CStr
  unfolding copy_member object_get_ex
  read_text n v key old = copy_member n (object_get_ex v key) old

  unfoldable pub int_member : Option Json → ℕ → ℕ
  unfolding get_int
  int_member none old = old
  int_member (some w) old = get_int rd w

  unfoldable pub read_int : Json → CStr → ℕ → ℕ
  unfolding int_member object_get_ex
  read_int v key old = int_member (object_get_ex v key) old

-- DispS30StatusResponse
unfoldable pub string_items : List CStr → Items
string_items [] = nil
string_items (s ∷ ss) = cons (text s) (string_items ss)

unfoldable pub encode_disp_s30_status_response : List CStr → Json
unfolding string_items
encode_disp_s30_status_response ids =
    object (member (codes "msgIdList") (array (string_items ids)) end)

-- strdup follows a null pointer.
unfoldable pub dup_string : JsonReading → Json → Outcome CStr
unfolding json_string
dup_string rd v = elim (json_string rd.text_of v) [ none ↦ fault | some s ↦ returned s ]

unfoldable pub list_of : CStr → Option Json → Outcome Items
unfolding object_get_ex array_items
list_of key root = do v ← require root; w ← require (object_get_ex v key); array_items w

unfoldable pub decode_disp_s30_status_response : JsonReading → Option Json → Outcome (List CStr)
unfolding list_of decode_each dup_string
decode_disp_s30_status_response rd root =
    list_of (codes "msgIdList") root >>= decode_each (dup_string rd)

-- M32 refuses an empty list.
unfoldable pub encode_disp_m32_command_request : List CStr → Outcome Json
unfolding encode_disp_s30_status_response
encode_disp_m32_command_request [] = failed
encode_disp_m32_command_request (s ∷ ss) = returned (encode_disp_s30_status_response (s ∷ ss))

-- DisplayPoolElementObject
pub record DisplayPoolElement : Type 0 where
  pub msg_id : CStr
  pub max_wait_time : ℕ
  pub max_wait_time_remain : ℕ
  pub display_duration : ℕ
  pub display_duration_remain : ℕ
  pub display_priority : ℕ
  pub dynamic_data : CStr

-- calloc
abbrev pub empty_element : DisplayPoolElement
empty_element = record {
  msg_id = [];
  max_wait_time = 0;
  max_wait_time_remain = 0;
  display_duration = 0;
  display_duration_remain = 0;
  display_priority = 0;
  dynamic_data = [];
}

abbrev pub element_json : DisplayPoolElement → Json → Json → Json
element_json e id dynamic = object (
    member (codes "msgId") id (
      member (codes "maxWaitTime") (new_int e.max_wait_time) (
        member (codes "maxWaitTimeRemain") (new_int e.max_wait_time_remain) (
          member (codes "displayDuration") (new_int e.display_duration) (
            member (codes "displayDurationRemain") (new_int e.display_duration_remain) (
              member (codes "displayPriority") (new_int e.display_priority)
                (member (codes "dynamicData") dynamic end)))))))

unfoldable pub encode_element : DisplayPoolElement → Outcome Json
unfolding array_string new_int
encode_element e = do
  id ← array_string 64 e.msg_id
  dynamic ← array_string 128 e.dynamic_data
  returned (element_json e id dynamic)

unfoldable pub encode_disp_s40_status_response : List DisplayPoolElement → Outcome Json
unfolding encode_each encode_element
encode_disp_s40_status_response es = encode_each encode_element es >>= λ vs.
    returned (object (member (codes "displayPoolList") (array vs) end))

-- The element, with its texts.
unfoldable pub read_element : JsonReading → Json → CStr → CStr → DisplayPoolElement
unfolding read_int
read_element rd v id dynamic = record {
  msg_id = id;
  max_wait_time = read_int rd v (codes "maxWaitTime") 0;
  max_wait_time_remain = read_int rd v (codes "maxWaitTimeRemain") 0;
  display_duration = read_int rd v (codes "displayDuration") 0;
  display_duration_remain = read_int rd v (codes "displayDurationRemain") 0;
  display_priority = read_int rd v (codes "displayPriority") 0;
  dynamic_data = dynamic;
}

unfoldable pub decode_element : JsonReading → Json → Outcome DisplayPoolElement
unfolding read_text read_element
decode_element rd v = read_text rd 64 v (codes "msgId") [] >>= λ id.
    read_text rd 128 v (codes "dynamicData") [] >>= λ dynamic.
    returned (read_element rd v id dynamic)

unfoldable pub decode_disp_s40_status_response :
    JsonReading → Option Json → Outcome (List DisplayPoolElement)
unfolding list_of decode_each decode_element
decode_disp_s40_status_response rd root =
    list_of (codes "displayPoolList") root >>= decode_each (decode_element rd)
