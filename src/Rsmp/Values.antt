-- ===== src/Rsmp/Values.antt =====
-- src/rsmp/coder/vars.h, and the values of json-c as src/rsmp/coder/json.c uses them.
-- A JSON value that is null is a null pointer in json-c. Numbers are their 64 bits, as a number
-- below 2 to the power of 64; a string is its bytes, and what reads it as a C string stops at the
-- first NUL.
use rsmp_gatewa.Common.{
  ℕ, ◌%◌, Bool, true, false, Option, none, some, List, [], ◌∷◌, leb, ◌==◌, if◌then◌else◌, CStr,
  str_eq, Outcome, returned, failed, fault,
}

-- rsmp_var_t; a string has its pointer, which may be null, and its length
pub data Var : Type 0 where
  bool : Bool → Var
  string : Option (List ℕ) → Var
  int : ℕ → Var
  uint : ℕ → Var
  double : ℕ → Var
  null : Var

mutual
  pub data Json : Type 0 where
    nothing : Json
    boolean : Bool → Json
    number : ℕ → Json
    large : ℕ → Json
    real : ℕ → Json
    text : List ℕ → Json
    array : Items → Json
    object : Members → Json

  pub data Items : Type 0 where
    nil : Items
    cons : Json → Items → Items

  pub data Members : Type 0 where
    end : Members
    member : CStr → Json → Members → Members

-- The bytes before the first NUL.
unfoldable pub c_str : List ℕ → CStr
c_str [] = []
c_str (c ∷ cs) = let rest = c_str cs in if c == 0 then [] else c ∷ rest

-- json_object_object_add: a member of that name gets the new value in its place.
unfoldable pub object_add : CStr → Json → Members → Members
unfolding str_eq
object_add k v end = member k v end
object_add k v (member j w o) = if str_eq j k then member j v o else member j w (object_add k v o)

-- A pointer to a value: null for the value null.
unfoldable pub pointer : Json → Option Json
pointer nothing = none
pointer (boolean b) = some (boolean b)
pointer (number n) = some (number n)
pointer (large n) = some (large n)
pointer (real n) = some (real n)
pointer (text s) = some (text s)
pointer (array xs) = some (array xs)
pointer (object o) = some (object o)

unfoldable pub find_member : CStr → Members → Option Json
unfolding str_eq pointer
find_member k end = none
find_member k (member j w o) = if str_eq j k then pointer w else find_member k o

-- The value that rsmp_json_object_get finds, null where there is none, also in what is no object.
unfoldable pub json_object_get : Json → CStr → Option Json
unfolding find_member
json_object_get (object o) k = find_member k o
json_object_get nothing k = none
json_object_get (boolean b) k = none
json_object_get (number n) k = none
json_object_get (large n) k = none
json_object_get (real n) k = none
json_object_get (text s) k = none
json_object_get (array xs) k = none

-- The bits of 1.0.
abbrev pub one_bits : ℕ
one_bits = 4607182418800017408

-- `json_object_new_double(var->data.b)`: the first byte of a double, read as a bool.
unfoldable pub double_from_bool : ℕ → Outcome Json
double_from_bool bits =
    if bits % 256 == 0
    then returned (real 0)
    else if bits % 256 == 1
    then returned (real one_bits)
    else fault

unfoldable pub text_or_empty : Option (List ℕ) → List ℕ
text_or_empty none = []
text_or_empty (some s) = s

-- `failed` is the null pointer of the default case.
unfoldable pub json_object_from_var : Var → Outcome Json
unfolding double_from_bool text_or_empty
json_object_from_var (bool b) = returned (boolean b)
json_object_from_var (string s) = returned (text (text_or_empty s))
json_object_from_var (int n) = returned (number n)
json_object_from_var (uint n) = returned (large n)
json_object_from_var (double n) = double_from_bool n
json_object_from_var null = failed

abbrev pub int64_max : ℕ
int64_max = 9223372036854775807

-- The variable, null for an object and an array.
unfoldable pub json2vars : Json → Option Var
json2vars nothing = some null
json2vars (boolean b) = some (bool b)
json2vars (number n) = some (int n)
json2vars (large n) = some (int (if leb n int64_max then n else int64_max))
json2vars (real n) = some (double n)
json2vars (text s) = some (string (some s))
json2vars (array xs) = none
json2vars (object o) = none

-- `jtype == json_type_array || jtype == json_type_object`
unfoldable pub is_container : Json → Bool
is_container (array xs) = true
is_container (object o) = true
is_container nothing = false
is_container (boolean b) = false
is_container (number n) = false
is_container (large n) = false
is_container (real n) = false
is_container (text s) = false

-- json_object_array_length and json_object_array_get_idx are for arrays alone.
unfoldable pub array_items : Json → Outcome Items
array_items (array xs) = returned xs
array_items (object o) = fault
array_items nothing = fault
array_items (boolean b) = fault
array_items (number n) = fault
array_items (large n) = fault
array_items (real n) = fault
array_items (text s) = fault
