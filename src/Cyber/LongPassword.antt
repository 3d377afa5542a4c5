-- ===== src/Cyber/LongPassword.antt =====
-- The `char` that holds the length of a padding in Challenge_encode of src/coder/coder.c is negative
-- for the passwords of some lengths: no challenge can be encoded for them.
use rsmp_gatewa.Common.{
  on, ◌≡◌, refl, ap, ◌∙◌, ℕ, ◌+◌, ◌%◌, ◌≤◌, false, Option, none, some, List, arith, CStr, Ldc,
  length, ltb, ltb→lt, subst, Bool-cases, inl, inr, Outcome, returned, failed, fault, require,
}
use rsmp_gatewa.Crypt.Base64.{base64_encode}
use rsmp_gatewa.Crypt.Base64.RoundTrip.{length-base64_encode}
use rsmp_gatewa.Auth.Entry.{Auth}
use rsmp_gatewa.Auth.Store.{Store, lookup}
use rsmp_gatewa.Auth.Rotation.{to_db_id, gen_chars, auth_get_new_pwd_b64}
use rsmp_gatewa.Auth.Rotation.Agree.{CanRotate, auth_get_new_pwd_b64_fresh, length-gen_chars}
use rsmp_gatewa.Cipher.{Cipher}
use rsmp_gatewa.Coder.Secrets.{Backend}
use rsmp_gatewa.Cyber.State.{AuthRef, Challenge}
use rsmp_gatewa.Cyber.Challenge.{Inputs, pad_len, encode_ping, encode_for, challenge_encode}

pad_len-fault :
    (xs : List ℕ) → 85 ≤ length xs → length xs ≤ 180 → pad_len (base64_encode xs) ≡ fault
unfolding pad_len
pad_len-fault xs h k = elim (Bool-cases (ltb ((length (base64_encode xs) + 12) % 256) 128)) [
  | inl short ↦ absurd (
      omega
        (arith, ltb→lt ((length (base64_encode xs) + 12) % 256) 128 short, length-base64_encode xs))
  | inr long ↦ rw long refl
]

-- An active entry of "to" with a password of 85 to 180 bytes and no new one pending.
abbrev pub IsLong : Auth → Type 0
IsLong a = CanRotate a × ((a.new_pwd_pending ≡ false) × ((85 ≤ a.pwd.len) × (a.pwd.len ≤ 180)))

-- No payload comes out of the encoding.
abbrev pub IsUnsent : {A S : Type 0} → S × Outcome A → Type 0
IsUnsent (s, returned a) = ⊥
IsUnsent (s, failed) = Unit
IsUnsent (s, fault) = Unit

on-IsUnsent :
    {A B S : Type 0} (s : S) (m : Outcome A) (next : A → S × Outcome B)
    → ((a : A) → m ≡ returned a → IsUnsent (next a))
    → IsUnsent (on s m next)
unfolding on
on-IsUnsent s (returned a) next h = h a refl
on-IsUnsent s failed next h = tt
on-IsUnsent s fault next h = tt

require-some : (o : Option Auth) (a b : Auth) → o ≡ some a → require o ≡ returned b → a ≡ b
require-some none a b e f = cc
require-some (some c) a b e f = cc (e, f)

same_entry :
    (st : Store) (remote remote' login : CStr) (a b : Auth)
    → require (some remote) ≡ returned remote'
    → lookup st to_db_id remote login ≡ some a
    → require (lookup st to_db_id remote' login) ≡ returned b
    → a ≡ b
same_entry st remote remote' login a b e found found' =
    let same : remote' ≡ remote = cc e in
    require-some (lookup st to_db_id remote' login) a b
      (ap (λ r. lookup st to_db_id r login) same ∙ found) found'

module _ (backend : Backend) (ldc : Ldc) (inp : Inputs) where
  encode_ping-IsUnsent :
      (lib local login pwd : CStr) (new_secret : List ℕ) (first : CStr) (s : Challenge × Store)
      → pad_len pwd ≡ fault
      → IsUnsent (encode_ping backend ldc inp lib local login pwd new_secret first s)
  unfolding encode_ping
  encode_ping-IsUnsent lib local login pwd new_secret first (c, st) h =
      on-IsUnsent (c, st) _ _ λ n e. absurd (cc (e, h))

  drawn-fault :
      (a : Auth) (o : Auth × CStr)
      → IsLong a
      → auth_get_new_pwd_b64 inp.draws a ≡ returned o
      → pad_len o.1 ≡ fault
  drawn-fault a o (can, (fresh, (h, k))) e =
      let xs = gen_chars inp.draws a.pwd.len in
      let size = length-gen_chars inp.draws a.pwd.len in
      let same : o.1 ≡ base64_encode xs =
        cc (e, auth_get_new_pwd_b64_fresh inp.draws a can fresh) in
      ap pad_len same ∙ pad_len-fault xs (omega (arith, size)) (omega (arith, size))

  encode_for-IsUnsent :
      (lib local : CStr) (r : AuthRef) (a : Auth) (c : Challenge) (st : Store)
      → IsLong a
      → IsUnsent (encode_for backend ldc inp lib local r a (c, st))
  unfolding encode_for
  encode_for-IsUnsent lib local r a c st long =
      on-IsUnsent (c, st) _ _
        λ (auth1, pwd) drawn. on-IsUnsent _ _ _ λ (auth2, secret) e2.
          on-IsUnsent _ _ _ λ new_secret e3. on-IsUnsent _ _ _ λ first e4.
            encode_ping-IsUnsent lib local auth2.login pwd new_secret first _
              (drawn-fault a (auth1, pwd) long drawn)

  -- For an active entry of "to" with a password of 85 to 180 bytes and no new one pending,
  -- Challenge_encode never gives a payload, whatever the cipher, the sites and the context.
  pub challenge_encode-IsUnsent :
      (cipher : Option Cipher) (local : Option CStr) (login remote : CStr) (a : Auth)
      (c : Challenge) (st : Store)
      → lookup st to_db_id remote login ≡ some a
      → IsLong a
      → IsUnsent (challenge_encode backend ldc inp cipher local login (some remote) (c, st))
  unfolding challenge_encode
  challenge_encode-IsUnsent cipher local login remote a c st found long =
      on-IsUnsent (c, st) _ _
        λ cipher e1.
          on-IsUnsent (c, st) _ _
            λ local e2.
              on-IsUnsent (c, st) _ _
                λ remote' e3.
                  on-IsUnsent (c, st) _ _
                    λ u e4. on-IsUnsent _ _ _ λ auth e5. on-IsUnsent _ _ _ λ v e6.
                      encode_for-IsUnsent cipher.lib local _ auth _ _
                        (subst IsLong (same_entry st remote remote' login a auth e3 found e5) long)
