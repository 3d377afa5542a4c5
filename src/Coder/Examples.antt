-- ===== src/Coder/Examples.antt =====
-- Messages on which the theorems about src/coder apply.
use rsmp_gatewa.Common.{
  ◌≡◌, refl, some, [], ◌∷◌, true, Option, arith, codes, CStr, returned, fault, replicate, ◌>>=◌,
  append_ldc, false, find_by,
}
use rsmp_gatewa.Coder.Message.{
  Message, pong, Object, str, bool, message_object, message_check_fields, serialize_message,
  deserialize_message, get_ex, as_string, read_header,
}
use rsmp_gatewa.Coder.Message.RoundTrip.{deserialize_message-serialize_message}
use rsmp_gatewa.Coder.Message.Accepts.{
  IsDelivered, deserialize_message-IsDelivered, deserialize_message_overflow,
}
use rsmp_gatewa.Coder.Secrets.{Backend, Action, to_encrypt, to_decrypt, coder_secret_get}
use rsmp_gatewa.Coder.Secrets.Agree.{IsCoherent, secret_of, coder_secret_get-agree}
use rsmp_gatewa.Auth.Pwd.{pwd_of, pwd_null}
use rsmp_gatewa.Auth.Entry.{Auth, auth_secret_get}

abbrev uuid : CStr
uuid = replicate 36 b'a'

abbrev pong_message : Message
pong_message = record { m_id = uuid; fields = pong uuid (some (codes "pad")) }

abbrev pong_object : Object
pong_object =
    (codes "mType", str (codes "eRMsg"))
    ∷ (codes "mId", str uuid)
    ∷ (codes "type", str (codes "Pong"))
    ∷ (codes "pad", str (codes "pad"))
    ∷ (codes "oMId", str uuid)
    ∷ []

-- json-c on the one text that the example exchanges.
abbrev print_pong : Object → CStr
print_pong o = codes "{...}"

abbrev parse_pong : CStr → Option Object
parse_pong s = some pong_object

pong_object_lem : message_object pong_message ≡ returned pong_object
unfolding message_object
pong_object_lem = refl

parse-print_pong :
    (o : Object) → message_object pong_message ≡ returned o → parse_pong (print_pong o) ≡ some o
parse-print_pong o h = cc pong_object_lem

pong_passes : message_check_fields pong_message ≡ true
unfolding message_check_fields
pong_passes = refl

deserialize_message-serialize_message_example :
    (serialize_message print_pong pong_message >>= deserialize_message parse_pong)
    ≡ returned pong_message
deserialize_message-serialize_message_example =
    deserialize_message-serialize_message print_pong parse_pong pong_message parse-print_pong
      (omega arith) pong_passes

pong_delivered : deserialize_message parse_pong (codes "{...}") ≡ returned pong_message
unfolding deserialize_message
pong_delivered = refl

deserialize_message-IsDelivered_example : IsDelivered pong_message
deserialize_message-IsDelivered_example =
    deserialize_message-IsDelivered parse_pong (codes "{...}") pong_message pong_delivered

abbrev long_object : Object
long_object =
    (codes "mType", str (codes "eRMsg"))
    ∷ (codes "mId", str uuid)
    ∷ (codes "type", str (codes "ChangePwdResponse"))
    ∷ (codes "oMId", str (replicate 200 b'x'))
    ∷ (codes "status", bool true)
    ∷ []

long_header : read_header long_object ≡ returned (uuid, codes "ChangePwdResponse")
unfolding read_header
long_header = refl

long_id : as_string (get_ex long_object (codes "oMId")) ≡ some (replicate 200 b'x')
unfolding as_string get_ex
long_id = refl

deserialize_message_overflow_example :
    deserialize_message (λ s. some long_object) (codes "{...}") ≡ fault
deserialize_message_overflow_example =
    deserialize_message_overflow (λ s. some long_object) (codes "{...}") long_object uuid
      (replicate 200 b'x') refl long_header long_id (omega arith)

abbrev plain : Backend
plain = record {
  key_gen = λ lib source. returned source;
  encrypt = λ lib key text. returned text;
  print = print_pong;
  time_text = λ t. codes "now";
}

abbrev mate : (d site : CStr) → Auth
mate d site = record {
  db_id = d;
  login = codes "a";
  s_id = site;
  active = true;
  pwd = pwd_of (1 ∷ 2 ∷ 3 ∷ []);
  timestamp = 5;
  new_pwd_pending = false;
  new_pwd = pwd_null;
  secrets = [];
}

no_secret :
    (d site : CStr) (action : Action) (local : CStr)
    → IsCoherent plain (codes "AES128CTR") local (mate d site) action
unfolding auth_secret_get find_by
no_secret d site action local secret found = cc found

coder_secret_get-agree_example :
    secret_of (
      coder_secret_get plain append_ldc
        (codes "AES128CTR")
        (mate (codes "to") (codes "B"))
        (codes "A")
        to_encrypt)
    ≡ secret_of (
        coder_secret_get plain append_ldc
          (codes "AES128CTR")
          (mate (codes "from") (codes "A"))
          (codes "B")
          to_decrypt)
coder_secret_get-agree_example =
    coder_secret_get-agree plain append_ldc (codes "AES128CTR") (codes "A") (codes "B")
      (mate (codes "to") (codes "B")) (mate (codes "from") (codes "A")) (refl, (refl, refl)) refl
      (no_secret (codes "to") (codes "B") to_encrypt (codes "A"))
      (no_secret (codes "from") (codes "A") to_decrypt (codes "B"))
