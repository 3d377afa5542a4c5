-- ===== src/Coder/Agreement/RoundTrip.antt =====
-- src/coder/coder.c: a CipherAgreement and a MessageAck as the peer reads them.
use rsmp_gatewa.Common.{
  ◌≡◌, refl, ℕ, ◌<◌, true, Option, some, List, [], ◌∷◌, All, ltb, arith, CStr, str_eq,
  if◌then◌else◌, Bool-cases, inl, inr, returned, failed, ◌>>=◌,
}
use rsmp_gatewa.Coder.Message.{Object, new_strings}
use rsmp_gatewa.Coder.Secrets.{is_prefix}
use rsmp_gatewa.Coder.Container.{object_get_ex, member_value}
use rsmp_gatewa.Coder.Container.Open.{json_string, text_is, is_empty}
use rsmp_gatewa.Coder.Container.Carried.{as_items, as_json, IsText}
use rsmp_gatewa.Coder.Agreement.{
  agreement, cipher_agreement_serial, ack, message_ack_serial, dup, dup_items, parsed, is_of_type,
  read_agreement, cipher_agreement_deserial, starts_with, read_ack, message_ack_check,
}
use rsmp_gatewa.Rsmp.Values.{Json, c_str, array_items}

abbrev pub given : List CStr → List (Option CStr)
given [] = []
given (c ∷ cs) = some c ∷ given cs

new_strings-given : (cs : List CStr) → new_strings (given cs) ≡ returned cs
unfolding new_strings
new_strings-given [] = refl
new_strings-given (c ∷ cs) = rw (new_strings-given cs) refl

module _ (parse : CStr → Option Json) (text_of : Json → CStr) where
  dup_items-as_items :
      (cs : List CStr) → All IsText cs → dup_items parse text_of (as_items cs) ≡ returned cs
  unfolding dup_items dup json_string
  dup_items-as_items [] h = refl
  dup_items-as_items (c ∷ cs) (h, hs) = rw (h, dup_items-as_items cs hs) refl

  read_agreement-agreement :
      (uuid s_id c : CStr) (cs : List CStr)
      → IsText uuid
      → IsText s_id
      → All IsText (c ∷ cs)
      → read_agreement parse text_of (as_json (agreement uuid s_id (c ∷ cs)))
        ≡ returned (uuid, s_id, c ∷ cs)
  unfolding read_agreement object_get_ex member_value json_string str_eq c_str array_items is_empty
      text_is is_of_type dup
  read_agreement-agreement uuid s_id c cs u s h = rw (u, s, dup_items-as_items (c ∷ cs) h) refl

  -- A CipherAgreement with some ciphers, of an identifier, a site and names without a NUL, is read as
  -- it was written, where json-c reads back what it printed.
  pub cipher_agreement_deserial-cipher_agreement_serial :
      (print : Object → CStr) (uuid s_id c : CStr) (cs : List CStr) (len : ℕ)
      → 0 < len
      → IsText uuid
      → IsText s_id
      → All IsText (c ∷ cs)
      → parse (print (agreement uuid s_id (c ∷ cs))) ≡ some (as_json (agreement uuid s_id (c ∷ cs)))
      → (cipher_agreement_serial print uuid (some s_id) (given (c ∷ cs)) >>= λ r.
          cipher_agreement_deserial parse text_of (some r.0) len)
        ≡ returned (uuid, s_id, c ∷ cs)
  unfolding cipher_agreement_serial cipher_agreement_deserial parsed
  cipher_agreement_deserial-cipher_agreement_serial print uuid s_id c cs len pos u s h parses =
      let sent : ltb 0 len ≡ true = ground arith in
      rw (new_strings-given (c ∷ cs), sent, parses) (read_agreement-agreement uuid s_id c cs u s h)

  read_ack-ack :
      (m_id expected : CStr)
      → IsText m_id
      → read_ack parse text_of expected (as_json (ack m_id))
        ≡ (if is_prefix expected m_id then returned tt else failed)
  unfolding read_ack object_get_ex member_value json_string str_eq c_str text_is is_of_type
      starts_with
  read_ack-ack m_id expected h = elim (Bool-cases (is_prefix expected m_id)) [
    | inl same ↦ rw (h, same) refl
    | inr other ↦ rw (h, other) refl
  ]

  -- An acknowledgement of one message passes for that of another exactly where the identifier of the
  -- other is a beginning of its own, where json-c reads back what it printed.
  pub message_ack_check-message_ack_serial :
      (print : Object → CStr) (m_id expected : CStr) (len : ℕ)
      → 0 < len
      → IsText m_id
      → parse (print (ack m_id)) ≡ some (as_json (ack m_id))
      → (message_ack_serial print (some m_id) >>= λ r.
          message_ack_check parse text_of (some r.0) len (some expected))
        ≡ (if is_prefix expected m_id then returned tt else failed)
  unfolding message_ack_serial message_ack_check
  message_ack_check-message_ack_serial print m_id expected len pos h parses =
      let sent : ltb 0 len ≡ true = ground arith in rw (sent, parses) (read_ack-ack m_id expected h)
