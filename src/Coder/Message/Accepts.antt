-- ===== src/Coder/Message/Accepts.antt =====
-- What deserializeMessage of src/coder/coder.c accepts, and where it writes past an array.
use rsmp_gatewa.Common.{
  ◌<◌, ◌≡◌, refl, true, Option, some, arith, length, CStr, codes, returned, fault, ◌>>=◌,
  >>=-eq-returned, Option-cases, inl, inr, subst,
}
use rsmp_gatewa.Coder.Message.{
  Fields, Message, uuid_len, message_check_fields, Object, get_ex, as_string, read_header,
  read_fields, read_pwd_response, copy_uuid, checked, read_body, read_message, deserialize_message,
}
use rsmp_gatewa.Coder.Message.RoundTrip.{IsInternal}

-- What the receiver of a message may rely on.
pub record IsDelivered (m : Message) : Type 0 where
  pub passes : message_check_fields m ≡ true
  pub internal : IsInternal m.fields

read_fields-IsInternal :
    (o : Object) (type : CStr) (f : Fields) → read_fields o type ≡ returned f → IsInternal f
unfolding read_fields
read_fields-IsInternal o type f h = ground arith

checked-eq-returned :
    (m n : Message) → checked m ≡ returned n → (message_check_fields m ≡ true) × (m ≡ n)
unfolding checked
checked-eq-returned m n h = ground arith

read_body-IsDelivered :
    (o : Object) (p : CStr × CStr) (m : Message) → read_body o p ≡ returned m → IsDelivered m
unfolding read_body
read_body-IsDelivered o (m_id, type) m h =
    let (f, e, c) = >>=-eq-returned (read_fields o type) _ h in
    let (passes, same) = checked-eq-returned (record { m_id = m_id; fields = f }) m c in
    subst IsDelivered same
      (record { passes = passes; internal = read_fields-IsInternal o type f e })

-- A message that deserializeMessage delivers passes messageCheckFields, is no Encrypted container,
-- and its oMId fits the array that holds it.
pub read_message-IsDelivered :
    (o : Object) (m : Message) → read_message o ≡ returned m → IsDelivered m
unfolding read_message
read_message-IsDelivered o m h =
    let (p, _, b) = >>=-eq-returned (read_header o) (read_body o) h in read_body-IsDelivered o p m b

-- Every message that the receiver takes from a payload passes messageCheckFields, is no Encrypted
-- container, and has an oMId that fits the array that holds it.
pub deserialize_message-IsDelivered :
    (parse : CStr → Option Object) (payload : CStr) (m : Message)
    → deserialize_message parse payload ≡ returned m
    → IsDelivered m
unfolding deserialize_message
deserialize_message-IsDelivered parse payload m h = elim (Option-cases (parse payload)) [
  | inl e ↦ ground (arith, e)
  | inr (o, e) ↦ read_message-IsDelivered o m (rw e at h)
]

copy_uuid_overflow : (s : CStr) → uuid_len < length s → copy_uuid s ≡ fault
unfolding copy_uuid
copy_uuid_overflow s h = ground arith

-- A payload that answers a password request, with an oMId longer than a uuid, makes
-- deserializeMessage write past the array.
pub deserialize_message_overflow :
    (parse : CStr → Option Object) (payload : CStr) (o : Object) (m_id s : CStr)
    → parse payload ≡ some o
    → read_header o ≡ returned (m_id, codes "ChangePwdResponse")
    → as_string (get_ex o (codes "oMId")) ≡ some s
    → uuid_len < length s
    → deserialize_message parse payload ≡ fault
unfolding deserialize_message
deserialize_message_overflow parse payload o m_id s p h e long =
    rw (p, read_message_lem o, h)
      (unfold read_body read_pwd_response in rw (e, copy_uuid_overflow s long))
  where
    read_message_lem : (o : Object) → read_message o ≡ (read_header o >>= read_body o)
    read_message_lem o = unfold read_message in refl
