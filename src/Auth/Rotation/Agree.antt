-- ===== src/Auth/Rotation/Agree.antt =====
-- src/auth/auth.c: after a change of a password both peers hold the same one, whatever was drawn and
-- however often the request was repeated.
use rsmp_gatewa.Common.{
  subst, ◌≡◌, refl, ℕ, zero, suc, ◌≤◌, ◌<◌, Bool, true, false, some, List, [], ◌∷◌, arith, le→leb,
  lt→ltb, length, take-length, Outcome, returned, ◌>>=◌, IsBytes, All,
}
use rsmp_gatewa.Crypt.Base64.{base64_encode, base64_decode}
use rsmp_gatewa.Crypt.Base64.RoundTrip.{base64_decode-base64_encode}
use rsmp_gatewa.Auth.Pwd.{pwd_null, pwd_of}
use rsmp_gatewa.Auth.Entry.{Auth}
use rsmp_gatewa.Auth.Rotation.{
  auth_to_is, auth_from_is, gen_chars, auth_gen_new_pwd, bytes_at, new_pwd_ready,
  auth_get_new_pwd_b64, auth_set_pwd_b64, auth_forget_new_pwd, is_held, auth_switch_to_new_pwd,
}

-- A character that rand may give.
abbrev pub IsPrintable : ℕ → Type 0
IsPrintable c = (32 ≤ c) × (c ≤ 126)

-- What a change of the password needs of the entry, by whether a new one is pending.
abbrev pub IsReady : Bool → Auth → Type 0
IsReady true a = (bs : List ℕ) × ((a.new_pwd ≡ pwd_of bs) × ((0 < length bs) × IsBytes bs))
IsReady false a = (8 ≤ a.pwd.len) × (a.pwd.len ≤ 256)

-- An active entry of the database "to" that may change its password.
abbrev pub CanRotate : Auth → Type 0
CanRotate a = (a.active ≡ true) × ((auth_to_is a ≡ true) × IsReady a.new_pwd_pending a)

pub gen_chars-IsPrintable : (draws : ℕ → ℕ) (n : ℕ) → All IsPrintable (gen_chars draws n)
unfolding gen_chars
gen_chars-IsPrintable draws zero = tt
gen_chars-IsPrintable draws (suc n) =
    ((omega arith, omega arith), gen_chars-IsPrintable (λ i. draws (suc i)) n)

pub length-gen_chars : (draws : ℕ → ℕ) (n : ℕ) → length (gen_chars draws n) ≡ n
unfolding gen_chars
length-gen_chars draws zero = refl
length-gen_chars draws (suc n) = rw (length-gen_chars (λ i. draws (suc i)) n) refl

printable-IsBytes : (l : List ℕ) → All IsPrintable l → IsBytes l
printable-IsBytes [] h = tt
printable-IsBytes (c ∷ cs) h = (omega (arith, h.0.1), printable-IsBytes cs h.1)

bytes_at-all : (bs : List ℕ) → bytes_at (some bs) (length bs) ≡ returned bs
unfolding bytes_at
bytes_at-all bs = rw (le→leb (length bs) (length bs) (omega arith), take-length bs) refl

-- The entry with a new password that is kept.
abbrev pub with_new_pwd : List ℕ → Auth → Auth
with_new_pwd bs a = record a { new_pwd = pwd_of bs; new_pwd_pending = true }

new_pwd_ready_fresh :
    (draws : ℕ → ℕ) (a : Auth)
    → a.new_pwd_pending ≡ false
    → IsReady false a
    → new_pwd_ready draws a ≡ returned (with_new_pwd (gen_chars draws a.pwd.len) a)
unfolding new_pwd_ready auth_gen_new_pwd
new_pwd_ready_fresh draws a e h = rw (e, le→leb 8 a.pwd.len h.0, le→leb a.pwd.len 256 h.1) refl

-- What auth_get_new_pwd_b64 leaves behind: the entry as it was, with a new password that is kept.
new_pwd_ready_lem :
    (draws : ℕ → ℕ) (a : Auth) (pending : Bool)
    → a.new_pwd_pending ≡ pending
    → IsReady pending a
    → (bs : List ℕ) × ((0 < length bs)
        × (IsBytes bs × (new_pwd_ready draws a ≡ returned (with_new_pwd bs a))))
unfolding new_pwd_ready auth_gen_new_pwd
new_pwd_ready_lem draws a true e (bs, (held, (some_bytes, h))) =
    (bs, (some_bytes, (h, rw e (rw (← e, ← held) refl))))
new_pwd_ready_lem draws a false e h = (
  gen_chars draws a.pwd.len,
  (
    rw (length-gen_chars draws a.pwd.len) (omega arith),
    (
      printable-IsBytes _ (gen_chars-IsPrintable draws a.pwd.len),
      rw (e, le→leb 8 a.pwd.len h.0, le→leb a.pwd.len 256 h.1) refl,
    ),
  ),
)

decode_encoded :
    (bs : List ℕ) → 0 < length bs → IsBytes bs → base64_decode (base64_encode bs) ≡ returned bs
decode_encoded [] some_bytes h = absurd (omega arith)
decode_encoded (b ∷ bs) some_bytes h = base64_decode-base64_encode b bs h

is_held_bytes : (bs : List ℕ) → 0 < length bs → is_held (pwd_of bs) ≡ true
unfolding is_held
is_held_bytes bs h = lt→ltb 0 (length bs) h

auth_get_new_pwd_b64_lem :
    (draws : ℕ → ℕ) (a : Auth) (bs : List ℕ)
    → a.active ≡ true
    → auth_to_is a ≡ true
    → new_pwd_ready draws a ≡ returned (with_new_pwd bs a)
    → auth_get_new_pwd_b64 draws a ≡ returned (with_new_pwd bs a, base64_encode bs)
unfolding auth_get_new_pwd_b64 auth_to_is
auth_get_new_pwd_b64_lem draws a bs active to e = rw (e, active, to, bytes_at-all bs) refl

-- On an active entry of "to" whose password has an allowed length, or that holds a new one already,
-- auth_get_new_pwd_b64 returns a new password in base 64 and keeps it as pending, and leaves the
-- current password; called again, whatever rand gives, it returns the same text and changes nothing.
pub auth_get_new_pwd_b64_again :
    (draws draws' : ℕ → ℕ) (a : Auth)
    → CanRotate a
    → (bs : List ℕ) × ((auth_get_new_pwd_b64 draws a
          ≡ returned (with_new_pwd bs a, base64_encode bs))
        × (auth_get_new_pwd_b64 draws' (with_new_pwd bs a)
            ≡ returned (with_new_pwd bs a, base64_encode bs)))
unfolding auth_to_is
auth_get_new_pwd_b64_again draws draws' a (active, (to, ready)) =
    let (bs, (some_bytes, (h, e))) = new_pwd_ready_lem draws a a.new_pwd_pending refl ready in
    (
      bs,
      (
        auth_get_new_pwd_b64_lem draws a bs active to e,
        auth_get_new_pwd_b64_lem draws' (with_new_pwd bs a) bs active to
            (unfold new_pwd_ready in refl),
      ),
    )

-- Where no new password was pending, the one that is drawn is as long as the current one.
pub auth_get_new_pwd_b64_fresh :
    (draws : ℕ → ℕ) (a : Auth)
    → CanRotate a
    → a.new_pwd_pending ≡ false
    → auth_get_new_pwd_b64 draws a
      ≡ returned
          (with_new_pwd (gen_chars draws a.pwd.len) a, base64_encode (gen_chars draws a.pwd.len))
auth_get_new_pwd_b64_fresh draws a (active, (to, ready)) fresh =
    auth_get_new_pwd_b64_lem draws a (gen_chars draws a.pwd.len) active to
      (new_pwd_ready_fresh draws a fresh (subst (λ b. IsReady b a) fresh ready))

-- The entry after the switch.
abbrev pub switched : ℕ → List ℕ → Auth → Auth
switched now bs a = record a {
  pwd = pwd_of bs;
  timestamp = now;
  new_pwd = pwd_null;
  new_pwd_pending = false;
}

pub auth_switch_to_new_pwd_lem :
    (now : ℕ) (a : Auth) (bs : List ℕ)
    → a.active ≡ true
    → auth_to_is a ≡ true
    → 0 < length bs
    → auth_switch_to_new_pwd now (with_new_pwd bs a) ≡ returned (switched now bs a)
unfolding auth_switch_to_new_pwd auth_forget_new_pwd auth_to_is
auth_switch_to_new_pwd_lem now a bs active to h =
    rw (is_held_bytes bs h, bytes_at-all bs, to, active) refl

-- What auth_set_pwd_b64 stores.
pub auth_set_pwd_b64_lem :
    (now : ℕ) (b : Auth) (bs : List ℕ)
    → b.active ≡ true
    → auth_from_is b ≡ true
    → 0 < length bs
    → IsBytes bs
    → auth_set_pwd_b64 now b (base64_encode bs)
      ≡ returned (record b { pwd = pwd_of bs; timestamp = now })
unfolding auth_set_pwd_b64 auth_from_is
auth_set_pwd_b64_lem now b bs active from some_bytes h =
    rw (decode_encoded bs some_bytes h, from, active) refl

-- The change of a password between an entry of "to" and the entry of "from" at the peer: the text is
-- sent, the peer stores it, the entry switches at its answer.
unfoldable pub rotate : (ℕ → ℕ) → ℕ → ℕ → Auth → Auth → Outcome (Auth × Auth)
rotate draws now later a b = auth_get_new_pwd_b64 draws a >>= λ (a', text).
    auth_set_pwd_b64 now b text >>= λ b'.
    auth_switch_to_new_pwd later a' >>= λ a''. returned (a'', b')

-- A change between an active entry of "to" that may change its password and an active entry of
-- "from" succeeds; then both hold the same password, of at least one byte, and no new one is pending.
pub rotate-agree :
    (draws : ℕ → ℕ) (now later : ℕ) (a b : Auth)
    → CanRotate a
    → b.active ≡ true
    → auth_from_is b ≡ true
    → (a' : Auth) × (b' : Auth) × ((rotate draws now later a b ≡ returned (a', b'))
        × ((a'.pwd ≡ b'.pwd) × ((0 < a'.pwd.len) × (a'.new_pwd_pending ≡ false))))
unfolding rotate auth_set_pwd_b64 auth_from_is
rotate-agree draws now later a b (active, (to, ready)) b_active from =
    let (bs, (some_bytes, (h, e))) = new_pwd_ready_lem draws a a.new_pwd_pending refl ready in
    (
      switched later bs a,
      record b { pwd = pwd_of bs; timestamp = now },
      (
        rw
            (
              auth_get_new_pwd_b64_lem draws a bs active to e,
              auth_switch_to_new_pwd_lem later a bs active to some_bytes,
              b_active,
              from,
              decode_encoded bs some_bytes h,
            )
            refl,
        (refl, (some_bytes, refl)),
      ),
    )
