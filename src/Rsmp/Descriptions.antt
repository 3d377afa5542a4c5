-- ===== src/Rsmp/Descriptions.antt =====
-- src/rsmp/messages: the descriptions of the messages of the protocol, and their table.
use rsmp_gatewa.Common.{
  ℕ, zero, suc, String, Bool, true, false, Option, none, some, List, [], ◌∷◌, ltb, if◌then◌else◌,
  CStr, codes,
}
use rsmp_gatewa.Rsmp.Fields.{
  Texts, Codec, m_type_codec, str_codec, bool_codec, v_codec, uuid_codec, ts_codec, type_codec,
  age_codec, q_codec, ack_codec, s_s_codec, cat_codec, a_s_codec, a_sp_codec, pri_codec,
}
use rsmp_gatewa.Rsmp.Coder.{Desc, stop, field, table, records}

abbrev str_field : String → Desc → Desc
str_field lib d = field (Option CStr) (codes lib) str_codec d

abbrev enum_field : String → Codec ℕ → Desc → Desc
enum_field lib codec d = field ℕ (codes lib) codec d

module _ (texts : Texts) where
  abbrev id_field : String → Desc → Desc
  id_field lib d = field (List ℕ) (codes lib) (uuid_codec texts) d

  abbrev ts_field : String → Desc → Desc
  ts_field lib d = field (ℕ × ℕ) (codes lib) (ts_codec texts) d

  -- The address that most messages carry.
  abbrev addressed : Desc → Desc
  addressed d = id_field "mId" (str_field "ntsOId" (str_field "xNId" (str_field "cId" d)))

-- _rsmp_msg_sS_desc of requests, of subscriptions, and of responses and updates
abbrev pub asked_desc : Desc
asked_desc = str_field "sCI" (str_field "n" stop)

abbrev pub subscribed_desc : Desc
subscribed_desc =
    str_field "sCI" (str_field "n" (str_field "uRt" (field Bool (codes "sOc") bool_codec stop)))

abbrev pub status_desc : Desc
status_desc = str_field "sCI" (str_field "n" (str_field "s" (enum_field "q" q_codec stop)))

abbrev v_field : Desc → Desc
v_field d = field (List ℕ) (codes "v") v_codec d

-- _rsmp_msg_arg_desc, and _rsmp_msg_rvs_desc of alarms and of responses
abbrev pub arg_desc : Desc
arg_desc = str_field "cCI" (str_field "n" (str_field "cO" (v_field stop)))

abbrev pub alarm_rvs_desc : Desc
alarm_rvs_desc = str_field "n" (v_field stop)

abbrev pub rvs_desc : Desc
rvs_desc = str_field "cCI" (str_field "n" (v_field (enum_field "age" age_codec stop)))

-- What follows mType and type in the descriptions of the messages.
module _ (texts : Texts) where
  abbrev pub alarm_body : Desc
  alarm_body = addressed texts (
      str_field "aCId" (
        str_field "xACId" (
          str_field "xNACId" (
            enum_field "aSp" a_sp_codec (
              enum_field "ack" ack_codec (
                enum_field "aS" a_s_codec (
                  enum_field "sS" s_s_codec (
                    ts_field texts "aTs" (
                      enum_field "cat" cat_codec (
                        enum_field "pri" pri_codec
                          (records (codes "rvs") alarm_rvs_desc stop)))))))))))

  abbrev pub aggregated_status_body : Desc
  aggregated_status_body = addressed texts (
      ts_field texts "aSTS"
        (str_field "fP" (str_field "fS" (table Bool (codes "se") bool_codec stop))))

  abbrev pub aggregated_status_request_body : Desc
  aggregated_status_request_body = addressed texts stop

  abbrev pub status_request_body : Desc
  status_request_body = addressed texts (records (codes "sS") asked_desc stop)

  abbrev pub status_response_body : Desc
  status_response_body =
      addressed texts (ts_field texts "sTs" (records (codes "sS") status_desc stop))

  abbrev pub status_subscribe_body : Desc
  status_subscribe_body = addressed texts (records (codes "sS") subscribed_desc stop)

  abbrev pub status_update_body : Desc
  status_update_body =
      addressed texts (ts_field texts "sTs" (records (codes "sS") status_desc stop))

  abbrev pub status_unsubscribe_body : Desc
  status_unsubscribe_body = addressed texts (records (codes "sS") asked_desc stop)

  abbrev pub command_request_body : Desc
  command_request_body = addressed texts (records (codes "arg") arg_desc stop)

  abbrev pub command_response_body : Desc
  command_response_body =
      addressed texts (ts_field texts "cTS" (records (codes "rvs") rvs_desc stop))

  abbrev pub message_ack_body : Desc
  message_ack_body = id_field texts "oMId" stop

  abbrev pub message_not_ack_body : Desc
  message_not_ack_body = id_field texts "oMId" (str_field "rea" stop)

  abbrev pub version_body : Desc
  version_body = id_field texts "mId" (
      records (codes "RSMP") (str_field "vers" stop)
        (records (codes "siteId") (str_field "sId" stop) (str_field "SXL" stop)))

  abbrev pub watchdog_body : Desc
  watchdog_body = id_field texts "mId" (ts_field texts "wTs" stop)

-- rsmp_msg_desc_t; without fields, its functions are null pointers too
pub record MsgDesc : Type 1 where
  pub type : ℕ
  pub body : Option Desc
  pub ack : Bool

abbrev described : ℕ → Desc → MsgDesc
described t d = record { type = t; body = some d; ack = true }

abbrev not_acknowledged : ℕ → Desc → MsgDesc
not_acknowledged t d = record { type = t; body = some d; ack = false }

-- An entry of the table that has no initialiser.
abbrev pub zeroed_entry : MsgDesc
zeroed_entry = record { type = 0; body = none; ack = false }

-- _rsmp_msg_no_
abbrev pub msg_no : ℕ
msg_no = 18

module _ (texts : Texts) where
  -- __rsmp_msg_desc
  abbrev pub msg_descs : List MsgDesc
  msg_descs =
      described 0 (alarm_body texts)
      ∷ described 1 (aggregated_status_body texts)
      ∷ described 2 (aggregated_status_request_body texts)
      ∷ described 3 (status_request_body texts)
      ∷ described 4 (status_response_body texts)
      ∷ described 5 (status_subscribe_body texts)
      ∷ described 6 (status_update_body texts)
      ∷ described 7 (status_unsubscribe_body texts)
      ∷ described 8 (command_request_body texts)
      ∷ zeroed_entry
      ∷ zeroed_entry
      ∷ zeroed_entry
      ∷ zeroed_entry
      ∷ described 13 (command_response_body texts)
      ∷ not_acknowledged 14 (message_ack_body texts)
      ∷ not_acknowledged 15 (message_not_ack_body texts)
      ∷ described 16 (version_body texts)
      ∷ described 17 (watchdog_body texts)
      ∷ []

unfoldable pub entry_at : List MsgDesc → ℕ → Option MsgDesc
entry_at [] t = none
entry_at (e ∷ es) zero = some e
entry_at (e ∷ es) (suc t) = entry_at es t

-- rsmp_message_is_active on the entry of an existing type
unfoldable pub if_active : MsgDesc → Option MsgDesc
if_active e = if ltb e.type msg_no then some e else none

unfoldable pub active_entry : Option MsgDesc → Option MsgDesc
unfolding if_active
active_entry none = none
active_entry (some e) = if_active e

unfoldable pub message_desc_get : Texts → ℕ → Option MsgDesc
unfolding entry_at active_entry
message_desc_get texts t = active_entry (entry_at (msg_descs texts) t)

-- The whole description of a message.
abbrev pub with_header : Desc → Desc
with_header d = field (Unit {0}) (codes "mType") m_type_codec (field ℕ (codes "type") type_codec d)
