-- ===== src/Coder/Agreement.antt =====
-- src/coder/coder.c: the texts that are exchanged in the clear while a cipher is agreed on, and the
-- readers of single messages. json-c is `print` and `parse`, and `text_of` is json_object_get_string
-- of what is no string. The pointers for results are not null, and mId is null before.
pub mod RoundTrip
mod Examples
use rsmp_gatewa.Common.{
  ℕ, not, Option, none, some, List, [], ◌∷◌, ltb, length, CStr, codes, str_eq, Outcome, returned,
  failed, fault, guard, require, ◌>>=◌, ◌>>◌,
}
use rsmp_gatewa.Coder.Message.{Object, str, strings, new_strings}
use rsmp_gatewa.Coder.Secrets.{is_prefix}
use rsmp_gatewa.Coder.Container.{object_get_ex}
use rsmp_gatewa.Coder.Container.Open.{json_string, text_is, is_empty}
use rsmp_gatewa.Rsmp.Values.{Json, Items, nil, cons, array_items}

-- CipherAgreement: the text, its length, and the identifier of the message.
abbrev pub agreement : CStr → CStr → List CStr → Object
agreement uuid s_id ciphers =
    (codes "mType", str (codes "eRMsg"))
    ∷ (codes "type", str (codes "CipherAgreement"))
    ∷ (codes "mId", str uuid)
    ∷ (codes "sId", str s_id)
    ∷ (codes "cipher", strings ciphers)
    ∷ []

unfoldable pub cipher_agreement_serial :
    (Object → CStr) → CStr → Option CStr → List (Option CStr) → Outcome (CStr × ℕ × CStr)
unfolding new_strings
cipher_agreement_serial print uuid none ciphers = failed
cipher_agreement_serial print uuid (some s_id) [] = failed
cipher_agreement_serial print uuid (some s_id) (c ∷ cs) = new_strings (c ∷ cs) >>= λ names.
    let payload = print (agreement uuid s_id names) in returned (payload, length payload, uuid)

abbrev pub ack : CStr → Object
ack m_id =
    (codes "mType", str (codes "eRMsg"))
    ∷ (codes "type", str (codes "MessageAck"))
    ∷ (codes "oMId", str m_id)
    ∷ []

unfoldable pub message_ack_serial : (Object → CStr) → Option CStr → Outcome (CStr × ℕ)
message_ack_serial print none = failed
message_ack_serial print (some m_id) =
    let payload = print (ack m_id) in returned (payload, length payload)

-- `strdup`
unfoldable pub dup : Option CStr → Outcome CStr
dup none = fault
dup (some s) = returned s

module _ (parse : CStr → Option Json) (text_of : Json → CStr) where
  unfoldable pub dup_items : Items → Outcome (List CStr)
  unfolding dup json_string
  dup_items nil = returned []
  dup_items (cons v vs) = do c ← dup (json_string text_of v); cs ← dup_items vs; returned (c ∷ cs)

  -- The value of a payload that is not empty.
  unfoldable pub parsed : Option CStr → ℕ → Outcome Json
  parsed buf len = do b ← require buf; guard (ltb 0 len); require (parse b)

  -- The test of the header of a payload of this type.
  unfoldable pub is_of_type : CStr → Json → Json → Outcome (Unit {0})
  unfolding text_is json_string
  is_of_type name m_type type =
      text_is (codes "eRMsg") (json_string text_of m_type)
      >> text_is name (json_string text_of type)

  unfoldable pub read_agreement : Json → Outcome (CStr × CStr × List CStr)
  unfolding is_of_type object_get_ex dup dup_items array_items is_empty json_string
  read_agreement v = do
    m_type ← require (object_get_ex v (codes "mType"))
    type ← require (object_get_ex v (codes "type"))
    m_id ← require (object_get_ex v (codes "mId"))
    s_id ← require (object_get_ex v (codes "sId"))
    ciphers ← require (object_get_ex v (codes "cipher"))
    is_of_type (codes "CipherAgreement") m_type type
    id ← dup (json_string text_of m_id)
    site ← dup (json_string text_of s_id)
    items ← array_items ciphers
    guard (not (is_empty items))
    names ← dup_items items
    returned (id, site, names)

  -- The identifier, the site of the peer, and its ciphers.
  unfoldable pub cipher_agreement_deserial : Option CStr → ℕ → Outcome (CStr × CStr × List CStr)
  unfolding parsed read_agreement
  cipher_agreement_deserial buf len = parsed buf len >>= read_agreement

  -- `strncmp(s, m_id, strlen(m_id)) != 0` is refused.
  unfoldable pub starts_with : CStr → Option CStr → Outcome (Unit {0})
  unfolding is_prefix
  starts_with m_id none = fault
  starts_with m_id (some s) = guard (is_prefix m_id s)

  unfoldable pub read_ack : CStr → Json → Outcome (Unit {0})
  unfolding is_of_type object_get_ex starts_with json_string
  read_ack expected v = do
    m_type ← require (object_get_ex v (codes "mType"))
    type ← require (object_get_ex v (codes "type"))
    o_m_id ← require (object_get_ex v (codes "oMId"))
    is_of_type (codes "MessageAck") m_type type
    starts_with expected (json_string text_of o_m_id)

  unfoldable pub message_ack_check : Option CStr → ℕ → Option CStr → Outcome (Unit {0})
  unfolding parsed read_ack
  message_ack_check buf len m_id = require buf >>= λ b.
      guard (ltb 0 len) >> (require m_id >>= λ expected. require (parse b) >>= read_ack expected)

  unfoldable pub read_ping : Json → Outcome CStr
  unfolding is_of_type object_get_ex dup json_string
  read_ping v = do
    m_type ← require (object_get_ex v (codes "mType"))
    type ← require (object_get_ex v (codes "type"))
    pad ← require (object_get_ex v (codes "pad"))
    m_id ← require (object_get_ex v (codes "mId"))
    is_of_type (codes "Ping") m_type type
    padding ← require (json_string text_of pad)
    dup (json_string text_of m_id)

  unfoldable pub ping_deserial : Option CStr → ℕ → Outcome CStr
  unfolding parsed read_ping
  ping_deserial buf len = parsed buf len >>= read_ping

  -- No identifier is expected where the pointer is null.
  unfoldable pub is_expected : Option CStr → CStr → Outcome (Unit {0})
  unfolding str_eq
  is_expected none received = returned tt
  is_expected (some o_m_id) received = guard (str_eq received o_m_id)

  unfoldable pub read_pong_of : Option CStr → Json → Outcome CStr
  unfolding is_of_type object_get_ex is_expected dup json_string
  read_pong_of expected v = do
    m_type ← require (object_get_ex v (codes "mType"))
    type ← require (object_get_ex v (codes "type"))
    o_m_id ← require (object_get_ex v (codes "oMId"))
    m_id ← require (object_get_ex v (codes "mId"))
    is_of_type (codes "Pong") m_type type
    received ← require (json_string text_of o_m_id)
    is_expected expected received
    dup (json_string text_of m_id)

  unfoldable pub pong_deserial : Option CStr → Option CStr → ℕ → Outcome CStr
  unfolding parsed read_pong_of
  pong_deserial expected buf len = parsed buf len >>= read_pong_of expected

  -- The password and the identifier; the header is not looked at.
  unfoldable pub read_pwd_request : Json → Outcome (CStr × CStr)
  unfolding object_get_ex dup json_string
  read_pwd_request v = do
    pwd ← require (object_get_ex v (codes "pwd"))
    m_id ← require (object_get_ex v (codes "mId"))
    text ← dup (json_string text_of pwd)
    id ← dup (json_string text_of m_id)
    returned (text, id)

  unfoldable pub change_pwd_request_deserial : Option CStr → ℕ → Outcome (CStr × CStr)
  unfolding parsed read_pwd_request
  change_pwd_request_deserial buf len = parsed buf len >>= read_pwd_request
