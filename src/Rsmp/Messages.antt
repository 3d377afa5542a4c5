-- ===== src/Rsmp/Messages.antt =====
-- The two functions of src/rsmp/coder/json.c that turn a message into a payload and back. `print`
-- and `parse` are json-c; `start` is what _new of a type leaves in its message (a new uuid and the
-- values of the context).
mod Distinct
pub mod RoundTrip
pub mod Overflow
pub mod Accepts
use rsmp_gatewa.Common.{
  ℕ, String, Bool, Option, none, some, ◌==◌, if◌then◌else◌, CStr, codes, Outcome, returned, failed,
  fault, ◌>>=◌,
}
use rsmp_gatewa.Coder.Secrets.{strstr}
use rsmp_gatewa.Rsmp.Values.{
  Json, Items, nil, cons, end, member, text, array, object, object_add, json_object_get, c_str,
}
use rsmp_gatewa.Rsmp.Fields.{Texts, m_type_check}
use rsmp_gatewa.Rsmp.Fields.Names.{type_lib, lib_find}
use rsmp_gatewa.Rsmp.Coder.{Desc, Memory, json_add_fields, json_extract_fields}
use rsmp_gatewa.Rsmp.Descriptions.{MsgDesc, msg_no, message_desc_get, with_header}

abbrev sxlg_item : String → String → Json
sxlg_item sg vers =
    object (member (codes "sg") (text (codes sg)) (member (codes "vers") (text (codes vers)) end))

-- eSXLG_def
abbrev pub sxlg_items : Items
sxlg_items = cons (sxlg_item "GEN" "1.0.0") (
    cons (sxlg_item "SLT" "0.5.2")
      (cons (sxlg_item "IO" "0.3.0") (cons (sxlg_item "VAR" "0.1.0") nil)))

-- The memory of a message of a type, behind its field `type`.
abbrev pub BodyMemory : Option Desc → Type 0
BodyMemory none = Unit
BodyMemory (some d) = Memory d

abbrev pub EntryMemory : Option MsgDesc → Type 0
EntryMemory none = Unit
EntryMemory (some e) = BodyMemory e.body

module _ (print : Json → CStr) (parse : CStr → Option Json) where
  unfoldable pub with_sxlg : Json → Outcome CStr
  with_sxlg (object o) = returned (print (object (object_add (codes "SXLG") (array sxlg_items) o)))
  with_sxlg (text s) = fault
  with_sxlg (array xs) = fault
  with_sxlg (Json.boolean b) = fault
  with_sxlg (Json.number n) = fault
  with_sxlg (Json.large n) = fault
  with_sxlg (Json.real n) = fault
  with_sxlg Json.nothing = fault

  -- The payload itself where it cannot be parsed.
  unfoldable pub parsed_sxlg : CStr → Option Json → Outcome CStr
  unfolding with_sxlg
  parsed_sxlg payload none = returned payload
  parsed_sxlg payload (some v) = with_sxlg v

  unfoldable pub add_sxlg_to_json : CStr → Outcome CStr
  unfolding parsed_sxlg
  add_sxlg_to_json payload = parsed_sxlg payload (parse payload)

  unfoldable pub with_version_mark : CStr → Outcome CStr
  unfolding add_sxlg_to_json strstr
  with_version_mark payload =
      if strstr payload (codes "\"Version\"") then add_sxlg_to_json payload else returned payload

  -- The message of a type, whose field `type` is that type, under its description.
  unfoldable pub described_payload : ℕ → (d : Desc) → Memory d → Outcome CStr
  unfolding with_version_mark json_add_fields
  described_payload t d m =
      json_add_fields (with_header d) (tt, (t, m)) end >>= λ o. with_version_mark (print (object o))

  -- `failed` is the null pointer.
  unfoldable pub body_payload : ℕ → (b : Option Desc) → BodyMemory b → Outcome CStr
  unfolding described_payload
  body_payload t none m = failed
  body_payload t (some d) m = described_payload t d m

  unfoldable pub entry_payload : ℕ → (r : Option MsgDesc) → EntryMemory r → Outcome CStr
  unfolding body_payload
  entry_payload t none m = failed
  entry_payload t (some e) m = body_payload t e.body m

  unfoldable pub msg2payload :
      (texts : Texts) (t : ℕ) → EntryMemory (message_desc_get texts t) → Outcome CStr
  unfolding message_desc_get entry_payload
  msg2payload texts t m = entry_payload t (message_desc_get texts t) m

-- rsmp_json_key_value_check with json_type_string, and the string
unfoldable pub string_value : Option Json → Option CStr
unfolding c_str
string_value (some (text s)) = some (c_str s)
string_value _ = none

unfoldable pub json_m_type_check : Json → Bool
unfolding string_value json_object_get m_type_check
json_m_type_check v = m_type_check (string_value (json_object_get v (codes "mType")))

unfoldable pub type_of_text : Option CStr → ℕ
unfolding lib_find
type_of_text none = msg_no
type_of_text (some str) = lib_find type_lib (some str)

unfoldable pub json_extract_type : Json → ℕ
unfolding string_value json_object_get type_of_text
json_extract_type v = type_of_text (string_value (json_object_get v (codes "type")))

-- The pointer that rsmp_json_payload2msg returns: null, a message, or memory that was freed.
pub data Delivery : Type 1 where
  no_message : Delivery
  delivered : ℕ → (d : Desc) → Memory d → Delivery
  freed : Delivery

-- The message that _free took stays the result.
unfoldable pub after_extract : ℕ → (d : Desc) → Outcome (Memory d) → Outcome Delivery
after_extract t d (returned m) = returned (delivered t d m)
after_extract t d failed = returned freed
after_extract t d fault = fault

-- A description without functions has a null pointer for _new.
unfoldable pub extract_body : ((d : Desc) → Memory d) → Json → ℕ → Option Desc → Outcome Delivery
unfolding after_extract json_extract_fields
extract_body start v t none = fault
extract_body start v t (some d) =
    after_extract t (with_header d) (json_extract_fields (with_header d) v (tt, (t, start d)))

-- A type without a description is a null pointer that is followed.
unfoldable pub extract_entry :
    ((d : Desc) → Memory d) → Json → ℕ → Option MsgDesc → Outcome Delivery
unfolding extract_body
extract_entry start v t none = fault
extract_entry start v t (some e) = extract_body start v t e.body

module _ (texts : Texts) (parse : CStr → Option Json) (start : (d : Desc) → Memory d) where
  unfoldable pub extract_typed : Json → ℕ → Outcome Delivery
  unfolding message_desc_get extract_entry
  extract_typed v t = extract_entry start v t (message_desc_get texts t)

  unfoldable pub read_object : Json → Outcome Delivery
  unfolding json_m_type_check json_extract_type extract_typed
  read_object v =
      if json_m_type_check v
      then if json_extract_type v == msg_no
        then returned no_message
        else extract_typed v (json_extract_type v)
      else returned no_message

  unfoldable pub read_parsed : Option Json → Outcome Delivery
  unfolding read_object
  read_parsed none = returned no_message
  read_parsed (some v) = read_object v

  unfoldable pub payload2msg : CStr → Outcome Delivery
  unfolding read_parsed
  payload2msg payload = read_parsed (parse payload)
