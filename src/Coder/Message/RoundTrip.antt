-- ===== src/Coder/Message/RoundTrip.antt =====
-- What serializeMessage of src/coder/coder.c writes, deserializeMessage reads.
use rsmp_gatewa.Common.{
  ◌≤◌, ◌≡◌, refl, true, Option, none, some, arith, length, CStr, Outcome, returned, failed, fault,
  ◌>>=◌,
}
use rsmp_gatewa.Coder.Message.{
  Fields, Message, encrypted, all_clear, change_pwd_request, change_pwd_response, ping, pong,
  uuid_len, message_check_fields, Object, message_object, read_message, serialize_message,
  deserialize_message,
}

-- The messages that the receiver knows: all but the container, with an oMId that fits its array.
abbrev pub IsInternal : Fields → Type 0
IsInternal (encrypted s_id login items) = ⊥
IsInternal all_clear = Unit
IsInternal (change_pwd_request pwd) = Unit
IsInternal (change_pwd_response status o_m_id) = length o_m_id ≤ uuid_len
IsInternal (ping padding) = Unit
IsInternal (pong o_m_id padding) = length o_m_id ≤ uuid_len

-- The object of an internal message that passes the check is read back as that message.
pub read_message-message_object :
    (m_id : CStr) (f : Fields)
    → IsInternal f
    → message_check_fields (record { m_id = m_id; fields = f }) ≡ true
    → (message_object (record { m_id = m_id; fields = f }) >>= read_message)
      ≡ returned (record { m_id = m_id; fields = f })
unfolding message_object read_message
read_message-message_object m_id (encrypted s_id login items) i h = absurd i
read_message-message_object m_id all_clear i h = ground arith
read_message-message_object m_id (change_pwd_request none) i h = ground arith
read_message-message_object m_id (change_pwd_request (some pwd)) i h = ground arith
read_message-message_object m_id (change_pwd_response status o_m_id) i h = ground arith
read_message-message_object m_id (ping none) i h = ground arith
read_message-message_object m_id (ping (some pad)) i h = ground arith
read_message-message_object m_id (pong o_m_id none) i h = ground arith
read_message-message_object m_id (pong o_m_id (some pad)) i h = ground arith

-- Where json-c reads back the object that it printed for an internal message that passes the
-- check, the text of the message is read back as that message.
pub deserialize_message-serialize_message :
    (print : Object → CStr) (parse : CStr → Option Object) (m : Message)
    → ((o : Object) → message_object m ≡ returned o → parse (print o) ≡ some o)
    → IsInternal m.fields
    → message_check_fields m ≡ true
    → (serialize_message print m >>= deserialize_message parse) ≡ returned m
unfolding serialize_message deserialize_message
deserialize_message-serialize_message print parse m json i h =
    go (message_object m) json (read_message-message_object m.m_id m.fields i h)
  where
    go :
        (r : Outcome Object)
        → ((o : Object) → r ≡ returned o → parse (print o) ≡ some o)
        → (r >>= read_message) ≡ returned m
        → ((r >>= λ o. returned (print o)) >>= deserialize_message parse) ≡ returned m
    go (returned o) j e = rw (j o refl, deserialize_message) e
    go failed j e = cc
    go fault j e = cc
