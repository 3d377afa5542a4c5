-- ===== src/Rsmp/Examples.antt =====
-- The theorems about src/rsmp at concrete inputs.
use rsmp_gatewa.Common.{
  ℕ, ◌≡◌, ◌↔◌, refl, inl, inr, subst, true, Option, none, some, List, [], ◌∷◌, arith, CStr, codes,
  returned, ◌>>=◌, if◌then◌else◌, str_eq,
}
use rsmp_gatewa.Rsmp.Values.{
  Json, Members, nil, cons, end, member, text, object, array, object_add, find_member,
  json_object_get, json_object_from_var, text_or_empty, pointer, c_str,
}
use rsmp_gatewa.Rsmp.Fields.{Texts, enum_codec, uuid_codec, ts_codec, m_type_codec, m_type_check}
use rsmp_gatewa.Rsmp.Fields.Names.{lib_get, lib_find, age_lib}
use rsmp_gatewa.Rsmp.Fields.Tables.{lib_find_iff}
use rsmp_gatewa.Rsmp.Coder.{zeroed, encoded, json_add_fields}
use rsmp_gatewa.Rsmp.Coder.Codecs.{uuid-Reads, ts-Reads}
use rsmp_gatewa.Rsmp.Descriptions.{
  message_desc_get, entry_at, active_entry, if_active, watchdog_body,
}
use rsmp_gatewa.Rsmp.Messages.{
  EntryMemory, sxlg_items, msg2payload, payload2msg, json_m_type_check, json_extract_type,
  type_of_text, string_value,
}
use rsmp_gatewa.Rsmp.Messages.RoundTrip.{
  IsReprinted, entry_object, entry_delivery, payload2msg-msg2payload,
}
use rsmp_gatewa.Rsmp.Messages.Accepts.{IsDangling, payload2msg_missing}

abbrev id : List ℕ
id = 107 ∷ 167 ∷ []

abbrev texts : Texts
texts = record {
  uuid_unparse = λ i. codes "6ba7";
  uuid_parse = λ s. some id;
  ts_print = λ ts. codes "2024-01-01T00:00:00.000Z";
  ts_read = λ s. (1704067200, 0);
}

abbrev watchdog : EntryMemory (message_desc_get texts 17)
unfolding message_desc_get entry_at active_entry if_active
watchdog = (id, ((1704067200, 0), tt))

abbrev watchdog_members : Members
watchdog_members = member (codes "mType") (text (codes "rSMsg")) (
    member (codes "type") (text (codes "Watchdog")) (
      member (codes "mId") (text (codes "6ba7"))
        (member (codes "wTs") (text (codes "2024-01-01T00:00:00.000Z")) end)))

print : Json → CStr
print v = elim (json_object_get v (codes "SXLG")) [ none ↦ codes "a" | some w ↦ codes "b" ]

parse : CStr → Option Json
parse s =
    if str_eq s (codes "a")
    then some (object watchdog_members)
    else some (object (object_add (codes "SXLG") (array sxlg_items) watchdog_members))

watchdog-IsReprinted : IsReprinted parse print watchdog_members
unfolding parse print json_object_get find_member object_add str_eq pointer
watchdog-IsReprinted = (refl, refl)

watchdog-written : entry_object 17 (message_desc_get texts 17) watchdog ≡ returned watchdog_members
unfolding message_desc_get entry_at active_entry if_active json_add_fields encoded uuid_codec
    ts_codec m_type_codec enum_codec json_object_from_var text_or_empty object_add str_eq lib_get
watchdog-written = refl

payload2msg-msg2payload_example :
    (msg2payload print parse texts 17 watchdog >>= payload2msg texts parse zeroed)
    ≡ returned (entry_delivery 17 (message_desc_get texts 17) watchdog)
unfolding message_desc_get entry_at active_entry if_active c_str
payload2msg-msg2payload_example =
    payload2msg-msg2payload texts print parse zeroed 17 watchdog
      (
        uuid-Reads texts id (tt, refl) refl,
        (ts-Reads texts (1704067200, 0) (omega arith) refl refl, tt),
      )
      (λ o e.
        let same : watchdog_members ≡ o = cc (watchdog-written, e) in
        subst (IsReprinted parse print) same watchdog-IsReprinted)

-- A Watchdog without its time.
abbrev untimed : Json
untimed = object (
    member (codes "mType") (text (codes "rSMsg")) (
      member (codes "type") (text (codes "Watchdog"))
        (member (codes "mId") (text (codes "6ba7")) end)))

abbrev as_untimed : CStr → Option Json
as_untimed s = some untimed

payload2msg_missing_example : IsDangling (payload2msg texts as_untimed zeroed [])
unfolding message_desc_get entry_at active_entry if_active json_m_type_check json_extract_type
    type_of_text string_value json_object_get find_member pointer str_eq c_str m_type_check lib_find
payload2msg_missing_example =
    payload2msg_missing texts as_untimed zeroed [] (codes "wTs") untimed
      (record { type = 17; body = some (watchdog_body texts); ack = true }) (watchdog_body texts)
      refl refl refl refl (inr (inl refl)) refl

abbrev included : Json
included = object (
    member (codes "mType") (text (codes "rSMsg"))
      (member (codes "type") (text (codes "StatusRequestAckIncluded")) end))

abbrev as_included : CStr → Option Json
as_included s = some included

lib_find_iff_example :
    (lib_find age_lib (some (codes "old")) ≡ 2) ↔ (lib_get age_lib 2 ≡ some (codes "old"))
lib_find_iff_example = lib_find_iff 1 2 age_lib (codes "old") refl (omega arith)

-- A CommandRequest with an argument that is not empty.
abbrev command : EntryMemory (message_desc_get texts 8)
unfolding message_desc_get entry_at active_entry if_active
command = (
  id,
  (
    some (codes "n"),
    (
      some (codes "x"),
      (
        some (codes "c"),
        (
          (some (codes "M1"), (some (codes "status"), (some (codes "set"), (codes "1", tt)))) ∷ [],
          tt,
        ),
      ),
    ),
  ),
)

abbrev argument : Members
argument = member (codes "cCI") (text (codes "M1")) (
    member (codes "n") (text (codes "status"))
      (member (codes "cO") (text (codes "set")) (member (codes "v") (text (codes "1")) end)))

abbrev command_members : Members
command_members = member (codes "mType") (text (codes "rSMsg")) (
    member (codes "type") (text (codes "CommandRequest")) (
      member (codes "mId") (text (codes "6ba7")) (
        member (codes "ntsOId") (text (codes "n")) (
          member (codes "xNId") (text (codes "x")) (
            member (codes "cId") (text (codes "c"))
              (member (codes "arg") (array (cons (object argument) nil)) end))))))

parse_command : CStr → Option Json
parse_command s =
    if str_eq s (codes "a")
    then some (object command_members)
    else some (object (object_add (codes "SXLG") (array sxlg_items) command_members))
