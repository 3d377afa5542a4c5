-- ===== src/Cyber/Answers/Ping.antt =====
-- The answer of src/cyber/cyber.c to a Ping.
use rsmp_gatewa.Common.{
  ◌≡◌, refl, ◌<◌, true, Option, none, some, [], ◌∷◌, arith, CStr, Ldc, length, codes, returned,
  ==_iff,
}
use rsmp_gatewa.Coder.Message.{
  str, is_filled, fields_are_valid, new_string, field_members, message_object, Object, ping, pong,
  message_check_fields, serialize_message,
}
use rsmp_gatewa.Coder.Secrets.{Backend}
use rsmp_gatewa.Cyber.State.{AuthRef, Cyber, ok, push_text, send_message}
use rsmp_gatewa.Cyber.Challenge.{Inputs}
use rsmp_gatewa.Cyber.Handle.{handle_ping, process_fields, cyber_process_internal_msg}
use rsmp_gatewa.Cyber.Answers.{with_queued, send_full}

abbrev pub pong_object : CStr → CStr → CStr → Object
pong_object answer_id m_id padding =
    (codes "mType", str (codes "eRMsg"))
    ∷ (codes "mId", str answer_id)
    ∷ (codes "type", str (codes "Pong"))
    ∷ (codes "pad", str padding)
    ∷ (codes "oMId", str m_id)
    ∷ []

pong_passes :
    (answer_id m_id padding : CStr)
    → length answer_id ≡ 36
    → message_check_fields (record { m_id = m_id; fields = ping (some padding) }) ≡ true
    → message_check_fields (record { m_id = answer_id; fields = pong m_id (some padding) }) ≡ true
unfolding message_check_fields fields_are_valid is_filled
pong_passes answer_id [] padding fresh checked = cc checked
pong_passes answer_id (c ∷ m_id) [] fresh checked = ground (arith, ==_iff (length (c ∷ m_id)) 36)
pong_passes answer_id (c ∷ m_id) (p ∷ padding) fresh checked =
    ground (arith, ==_iff (length answer_id) 36)

serialize_pong :
    (print : Object → CStr) (answer_id m_id padding : CStr)
    → message_check_fields (record { m_id = answer_id; fields = pong m_id (some padding) }) ≡ true
    → serialize_message print (record { m_id = answer_id; fields = pong m_id (some padding) })
      ≡ returned (print (pong_object answer_id m_id padding))
unfolding serialize_message message_object field_members new_string
serialize_pong print answer_id m_id padding passes = rw passes refl

-- A Ping that messageCheckFields accepts is answered by one Pong, which carries its padding and names
-- its identifier, to be encrypted; nothing else changes. The text that json-c prints is not empty and
-- a new identifier has 36 characters.
pub cyber_process_internal_msg_ping :
    (backend : Backend) (ldc : Ldc) (inp : Inputs) (from : Option AuthRef) (m_id : CStr)
    (padding : CStr) (cy : Cyber)
    → ((o : Object) → 0 < length (backend.print o))
    → length inp.answer_id ≡ 36
    → message_check_fields (record { m_id = m_id; fields = ping (some padding) }) ≡ true
    → (text : CStr) × ((serialize_message backend.print
            (record { m_id = inp.answer_id; fields = pong m_id (some padding) })
          ≡ returned text)
        × (cyber_process_internal_msg backend ldc inp from
              (record { m_id = m_id; fields = ping (some padding) })
              cy
            ≡ (with_queued ldc text none cy, ok)))
unfolding cyber_process_internal_msg process_fields handle_ping send_message push_text
cyber_process_internal_msg_ping backend ldc inp from m_id padding cy full fresh checked =
    let passes = pong_passes inp.answer_id m_id padding fresh checked in
    let text = serialize_pong backend.print inp.answer_id m_id padding passes in
    (
      backend.print (pong_object inp.answer_id m_id padding),
      (text, rw (checked, passes, text) (send_full ldc _ none cy (full _))),
    )
