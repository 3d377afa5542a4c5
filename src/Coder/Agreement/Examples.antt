-- ===== src/Coder/Agreement/Examples.antt =====
-- The theorems about a CipherAgreement and a MessageAck at concrete texts.
use rsmp_gatewa.Common.{◌≡◌, refl, arith, Option, some, [], ◌∷◌, CStr, codes, returned, ◌>>=◌}
use rsmp_gatewa.Coder.Message.{Object}
use rsmp_gatewa.Coder.Secrets.{is_prefix}
use rsmp_gatewa.Coder.Container.Carried.{as_json}
use rsmp_gatewa.Coder.Agreement.{
  agreement, cipher_agreement_serial, cipher_agreement_deserial, ack, message_ack_serial,
  message_ack_check,
}
use rsmp_gatewa.Coder.Agreement.RoundTrip.{
  given, cipher_agreement_deserial-cipher_agreement_serial, message_ack_check-message_ack_serial,
}
use rsmp_gatewa.Rsmp.Values.{Json, c_str}

abbrev print : Object → CStr
print o = codes "t"

abbrev no_text : Json → CStr
no_text v = []

abbrev parse_agreement : CStr → Option Json
parse_agreement s =
    some (as_json (agreement (codes "u") (codes "A") (codes "AES128CTR" ∷ codes "AES256CTR" ∷ [])))

cipher_agreement_deserial-cipher_agreement_serial_example :
    (cipher_agreement_serial print
        (codes "u")
        (some (codes "A"))
        (given (codes "AES128CTR" ∷ codes "AES256CTR" ∷ []))
      >>= λ r. cipher_agreement_deserial parse_agreement no_text (some r.0) 1)
    ≡ returned (codes "u", codes "A", codes "AES128CTR" ∷ codes "AES256CTR" ∷ [])
unfolding c_str
cipher_agreement_deserial-cipher_agreement_serial_example =
    cipher_agreement_deserial-cipher_agreement_serial parse_agreement no_text print (codes "u")
      (codes "A") (codes "AES128CTR") (codes "AES256CTR" ∷ []) 1 (omega arith) refl refl
      (refl, (refl, tt)) refl

abbrev parse_ack : CStr → Option Json
parse_ack s = some (as_json (ack (codes "17")))

-- The message of identifier 1 takes the acknowledgement of 17 for its own.
message_ack_check-message_ack_serial_example :
    (message_ack_serial print (some (codes "17")) >>= λ r.
    message_ack_check parse_ack no_text (some r.0) 1 (some (codes "1")))
    ≡ returned tt
unfolding c_str is_prefix
message_ack_check-message_ack_serial_example =
    message_ack_check-message_ack_serial parse_ack no_text print (codes "17") (codes "1") 1
      (omega arith) refl refl
