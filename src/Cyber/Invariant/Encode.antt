-- ===== src/Cyber/Invariant/Encode.antt =====
-- What Challenge_encode of src/coder/coder.c leaves in the context: a launched challenge, or one that
-- does not run.
use rsmp_gatewa.Common.{
  on, ◌≡◌, refl, ℕ, true, false, Option, List, CStr, Ldc, Outcome, returned, failed, fault,
}
use rsmp_gatewa.Auth.Entry.{Auth}
use rsmp_gatewa.Auth.Store.{Store}
use rsmp_gatewa.Cipher.{Cipher}
use rsmp_gatewa.Coder.Secrets.{Backend}
use rsmp_gatewa.Cyber.State.{AuthRef, Challenge}
use rsmp_gatewa.Cyber.Challenge.{Inputs, encode_ping, encode_for, challenge_encode}
use rsmp_gatewa.Cyber.Invariant.{is_some, IsLaunched}

abbrev pub IsEncoded : {A : Type 0} → (Challenge × Store) × Outcome A → Type 0
IsEncoded ((c, st), returned a) = IsLaunched c
IsEncoded ((c, st), failed) = c.running ≡ false
IsEncoded ((c, st), fault) = Unit

on-IsEncoded :
    {A B : Type 0} (c : Challenge) (st : Store) (m : Outcome A)
    (next : A → (Challenge × Store) × Outcome B)
    → c.running ≡ false
    → ((a : A) → IsEncoded (next a))
    → IsEncoded (on (c, st) m next)
unfolding on
on-IsEncoded c st (returned a) next h step = step a
on-IsEncoded c st failed next h step = h
on-IsEncoded c st fault next h step = tt

module _ (backend : Backend) (ldc : Ldc) (inp : Inputs) where
  encode_ping-IsEncoded :
      (lib local login pwd : CStr) (new_secret : List ℕ) (first : CStr) (c : Challenge) (st : Store)
      → c.running ≡ false
      → is_some c.auth ≡ true
      → is_some c.m_id_change_pwd_request ≡ true
      → IsEncoded (encode_ping backend ldc inp lib local login pwd new_secret first (c, st))
  unfolding encode_ping
  encode_ping-IsEncoded lib local login pwd new_secret first c st h auth m_id =
      on-IsEncoded c st _ _ h λ n.
        on-IsEncoded _ st _ _ h λ second. on-IsEncoded _ st _ _ h λ payload. (auth, (m_id, refl))

  encode_for-IsEncoded :
      (lib local : CStr) (r : AuthRef) (auth : Auth) (c : Challenge) (st : Store)
      → c.running ≡ false
      → is_some c.auth ≡ true
      → IsEncoded (encode_for backend ldc inp lib local r auth (c, st))
  unfolding encode_for
  encode_for-IsEncoded lib local r auth c st h some_auth = on-IsEncoded c _ _ _ h λ (auth1, pwd).
      on-IsEncoded c _ _ _ h λ (auth2, secret). on-IsEncoded c _ _ _ h λ new_secret.
        on-IsEncoded _ _ _ _ h λ first.
          encode_ping-IsEncoded lib local auth2.login pwd new_secret first _ _ h some_auth refl

  pub challenge_encode-IsEncoded :
      (cipher : Option Cipher) (s_id_local : Option CStr) (login : CStr) (s_id_remote : Option CStr)
      (c : Challenge) (st : Store)
      → c.running ≡ false
      → IsEncoded (challenge_encode backend ldc inp cipher s_id_local login s_id_remote (c, st))
  unfolding challenge_encode
  challenge_encode-IsEncoded cipher s_id_local login s_id_remote c st h =
      on-IsEncoded c st _ _ h λ cipher. on-IsEncoded c st _ _ h λ local.
        on-IsEncoded c st _ _ h λ remote. on-IsEncoded c st _ _ h λ u.
          on-IsEncoded _ st _ _ h λ auth.
            on-IsEncoded _ st _ _ h λ v. encode_for-IsEncoded cipher.lib local _ auth _ st h refl
