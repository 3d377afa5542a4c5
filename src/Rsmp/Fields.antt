-- ===== src/Rsmp/Fields.antt =====
-- src/rsmp/fields and src/rsmp/vars: how a field becomes a variable of JSON and is read from it.
-- An enumeration is its number. The texts of a uuid (libuuid) and of a time (strftime and strptime)
-- are the parameter `Texts`.
pub mod Names
pub mod Tables
use rsmp_gatewa.Common.{
  ℕ, Bool, true, false, Option, none, some, List, [], ◌∷◌, ltb, leb, ◌*◌, if◌then◌else◌, length,
  CStr, codes, str_eq, Outcome, returned, failed, fault, replicate,
}
use rsmp_gatewa.Rsmp.Values.{Var, string, bool, c_str}
use rsmp_gatewa.Rsmp.Fields.Names.{
  type_lib, age_lib, q_lib, ack_lib, s_s_lib, cat_lib, a_s_lib, a_sp_lib, pri_lib, sg_lib, lib_get,
  lib_find,
}

-- How a field is encoded and decoded. `zero_value` is what calloc leaves. Memory that a failed
-- decoding has changed is freed by its callers.
pub record Codec (A : Type 0) : Type 0 where
  pub zero_value : A
  pub encode : A → Outcome Var
  pub decode : Var → A → Outcome A

-- A string as strcmp and strdup read it.
unfoldable pub read_str : Option (List ℕ) → Option CStr
unfolding c_str
read_str none = none
read_str (some t) = some (c_str t)

-- What the decoders do with a variable that is no string: they refuse it, or do nothing.
unfoldable pub on_string {ℓ} :
    {A : Type ℓ} → Var → (Option CStr → Outcome A) → Outcome A → Outcome A
unfolding read_str
on_string (string t) f other = f (read_str t)
on_string (bool b) f other = other
on_string (Var.int n) f other = other
on_string (Var.uint n) f other = other
on_string (Var.double n) f other = other
on_string Var.null f other = other

unfoldable pub number_found : List CStr → ℕ → Outcome ℕ
number_found list i = if ltb i (length list) then returned i else failed

-- __rsmp_field_type_decode and its likes; those of age, aSp and pri are strict: they refuse what is
-- no string.
unfoldable pub enum_decode : List CStr → Bool → Var → ℕ → Outcome ℕ
unfolding on_string lib_find number_found
enum_decode list strict var old =
    on_string var (λ str. number_found list (lib_find list str))
      (if strict then failed else returned old)

unfoldable pub enum_codec : List CStr → Bool → Codec ℕ
unfolding enum_decode lib_get
enum_codec list strict = record {
  zero_value = 0;
  encode = λ x. returned (string (lib_get list x));
  decode = enum_decode list strict;
}

-- The encoders and decoders of the enumerations.
abbrev pub type_codec : Codec ℕ
type_codec = enum_codec type_lib false

abbrev pub age_codec : Codec ℕ
age_codec = enum_codec age_lib true

abbrev pub q_codec : Codec ℕ
q_codec = enum_codec q_lib false

abbrev pub ack_codec : Codec ℕ
ack_codec = enum_codec ack_lib false

abbrev pub s_s_codec : Codec ℕ
s_s_codec = enum_codec s_s_lib false

abbrev pub cat_codec : Codec ℕ
cat_codec = enum_codec cat_lib false

abbrev pub a_s_codec : Codec ℕ
a_s_codec = enum_codec a_s_lib false

abbrev pub a_sp_codec : Codec ℕ
a_sp_codec = enum_codec a_sp_lib true

abbrev pub pri_codec : Codec ℕ
pri_codec = enum_codec pri_lib true

-- __rsmp_field_sg_decode checks the text and stores nothing.
unfoldable pub sg_codec : Codec ℕ
unfolding on_string lib_find number_found lib_get
sg_codec = record {
  zero_value = 0;
  encode = λ x. returned (string (lib_get sg_lib x));
  decode = λ var old.
      on_string var
        (λ str. if ltb (lib_find sg_lib str) (length sg_lib) then returned old else failed)
        (returned old);
}

unfoldable pub str_codec : Codec (Option CStr)
unfolding on_string
str_codec = record {
  zero_value = none;
  encode = λ p. returned (string p);
  decode = λ var old. on_string var (λ str. returned str) failed;
}

abbrev pub m_type_value : CStr
m_type_value = codes "rSMsg"

unfoldable pub m_type_check : Option CStr → Bool
unfolding str_eq
m_type_check none = false
m_type_check (some value) = str_eq value m_type_value

-- The field mType of a message is neither read nor written. A decoded string is never null.
unfoldable pub m_type_codec : Codec (Unit {0})
unfolding on_string m_type_check
m_type_codec = record {
  zero_value = tt;
  encode = λ u. returned (string (some m_type_value));
  decode = λ var old.
      on_string var (λ str. if m_type_check str then returned old else failed) (returned old);
}

unfoldable pub bool_decode : Var → Bool → Outcome Bool
bool_decode (bool b) old = returned b
bool_decode (string t) old = failed
bool_decode (Var.int n) old = failed
bool_decode (Var.uint n) old = failed
bool_decode (Var.double n) old = failed
bool_decode Var.null old = failed

unfoldable pub bool_codec : Codec Bool
unfolding bool_decode
bool_codec = record { zero_value = false; encode = λ b. returned (bool b); decode = bool_decode }

-- An array of characters, whose pointer is null where it is empty.
unfoldable pub v_encode : List ℕ → Outcome Var
v_encode [] = returned (string none)
v_encode (c ∷ cs) = returned (string (some (c ∷ cs)))

-- What calloc leaves as the size of the items of an array: every v is in an item of an array that
-- json_extract_array has just allocated, and nothing declares it.
abbrev pub calloc_item_len : ℕ
calloc_item_len = 0

-- rsmp_array_char_initialize, which allocates as many items of this size as the text has bytes, and
-- the memcpy of the bytes.
unfoldable pub copied_into : ℕ → List ℕ → Outcome (List ℕ)
copied_into item_len t = if leb (length t) (length t * item_len) then returned t else fault

unfoldable pub v_decode : ℕ → Var → List ℕ → Outcome (List ℕ)
unfolding copied_into
v_decode item_len (string none) old = returned []
v_decode item_len (string (some t)) old = copied_into item_len t
v_decode item_len (bool b) old = returned old
v_decode item_len (Var.int n) old = returned old
v_decode item_len (Var.uint n) old = returned old
v_decode item_len (Var.double n) old = returned old
v_decode item_len Var.null old = returned old

unfoldable pub v_codec : Codec (List ℕ)
unfolding v_encode v_decode
v_codec = record { zero_value = []; encode = v_encode; decode = v_decode calloc_item_len }

-- A time is its seconds and nanoseconds. The texts of a time are made and read by
-- src/rsmp/vars/timestamp.c over strftime and strptime, which are not modelled: `ts_read` is its
-- str2ZuluHorodate, and gives 0 seconds for a time that is not after 1970, and for a text that is no
-- time.
pub record Texts : Type 0 where
  pub uuid_unparse : List ℕ → CStr
  pub uuid_parse : CStr → Option (List ℕ)
  pub ts_print : ℕ × ℕ → CStr
  pub ts_read : CStr → ℕ × ℕ

abbrev pub null_uuid : List ℕ
null_uuid = replicate 16 0

module _ (texts : Texts) where
  unfoldable pub uuid_parsed : Option (List ℕ) → Outcome (List ℕ)
  uuid_parsed none = failed
  uuid_parsed (some id) = returned id

  unfoldable pub uuid_read : Option CStr → Outcome (List ℕ)
  unfolding uuid_parsed
  uuid_read none = returned null_uuid
  uuid_read (some []) = returned null_uuid
  uuid_read (some (c ∷ cs)) = uuid_parsed (texts.uuid_parse (c ∷ cs))

  unfoldable pub uuid_codec : Codec (List ℕ)
  unfolding on_string uuid_read
  uuid_codec = record {
    zero_value = null_uuid;
    encode = λ id. returned (string (some (texts.uuid_unparse id)));
    decode = λ var old. on_string var uuid_read (returned old);
  }

  -- str2ZuluHorodate of a null pointer is a fault.
  unfoldable pub ts_decoded : Option CStr → Outcome (ℕ × ℕ)
  ts_decoded none = fault
  ts_decoded (some str) = let ts = texts.ts_read str in if ltb 0 (ts.0) then returned ts else failed

  unfoldable pub ts_codec : Codec (ℕ × ℕ)
  unfolding on_string ts_decoded
  ts_codec = record {
    zero_value = (0, 0);
    encode = λ ts. returned (string (some (texts.ts_print ts)));
    decode = λ var old. on_string var ts_decoded failed;
  }
