-- ===== src/Auth/Pwd.antt =====
-- src/auth/auth-pwd.c: passwords and their text form in the authentication file. The bytes that
-- auth_random draws, as many as auth_pwd_len_get says, are the parameter `fresh`. A null result is
-- `failed`; allocation never fails.
pub mod Stored
use rsmp_gatewa.Common.{
  ℕ, zero, suc, ◌++◌, codes, ◌%◌, Bool, true, false, not, ◌&&◌, Option, none, some, List, [], ◌∷◌,
  ltb, leb, ◌==◌, if◌then◌else◌, length, CStr, is_xdigit, Outcome, returned, failed, fault,
}
use rsmp_gatewa.Crypt.Bcd.{bcd_encode_sep, bcd_decode}

-- auth_pwd_t
pub record Pwd : Type 0 where
  pub buf : Option (List ℕ)
  pub len : ℕ

-- _auth_pwd_null_
abbrev pub pwd_null : Pwd
pwd_null = record { buf = none; len = 0 }

-- A password that holds these bytes.
abbrev pub pwd_of : List ℕ → Pwd
pwd_of bs = record { buf = some bs; len = length bs }

-- AUTH_PWD_LEN_MIN
abbrev pub pwd_len_min : ℕ
pwd_len_min = 8

-- The length stays as it was.
unfoldable pub auth_pwd_release : Pwd → Pwd
auth_pwd_release pwd = record pwd { buf = none }

unfoldable pub all_xdigits : CStr → Bool
unfolding is_xdigit
all_xdigits [] = true
all_xdigits (c ∷ cs) = is_xdigit c && all_xdigits cs

unfoldable pub auth_pwd_str_is_hex : CStr → Bool
auth_pwd_str_is_hex s =
    if not (length s % 2 == 0) then false else if ltb (length s) 16 then false else all_xdigits s

-- A password column that auth_write prints: `$0$` and the digits, or `*`.
unfoldable pub stored_column : ℕ → Option (List ℕ) → CStr
stored_column zero buf = codes "*"
stored_column (suc n) none = codes "*"
stored_column (suc n) (some bs) = elim (bcd_encode_sep (some bs) 0) [
  | none ↦ codes "*"
  | some text ↦ codes "$0$" ++ text
]

unfoldable pub stored_text : Pwd → CStr
unfolding stored_column
stored_text pwd = stored_column pwd.len pwd.buf

module _ (fresh : List ℕ) where
  unfoldable pub auth_pwd_auto_set : Pwd → Pwd
  auth_pwd_auto_set pwd = pwd_of fresh

  unfoldable pub auth_pwd_set : Pwd → Option (List ℕ) → Pwd
  unfolding auth_pwd_auto_set
  auth_pwd_set pwd none = auth_pwd_auto_set pwd
  auth_pwd_set pwd (some []) = auth_pwd_auto_set pwd
  auth_pwd_set pwd (some (b ∷ bs)) = pwd_of (b ∷ bs)

  unfoldable pub auth_pwd_from_str_set : Pwd → Option CStr → Outcome Pwd
  unfolding auth_pwd_set
  auth_pwd_from_str_set pwd none = returned (auth_pwd_auto_set pwd)
  auth_pwd_from_str_set pwd (some s) =
      if ltb (length s) pwd_len_min then failed else returned (auth_pwd_set pwd (some s))

  unfoldable pub set_decoded : Pwd → Outcome (List ℕ) → Outcome Pwd
  set_decoded pwd (returned bs) = returned (pwd_of bs)
  set_decoded pwd failed = returned (record pwd { buf = none })
  set_decoded pwd fault = fault

  unfoldable pub auth_pwd_from_hex_set : Pwd → Option CStr → Outcome Pwd
  unfolding auth_pwd_auto_set set_decoded auth_pwd_release
  auth_pwd_from_hex_set pwd none = returned (auth_pwd_auto_set pwd)
  auth_pwd_from_hex_set pwd (some s) =
      if auth_pwd_str_is_hex s
      then set_decoded (auth_pwd_release pwd) (bcd_decode (some s))
      else failed

  -- What stands behind `$0$`.
  unfoldable pub decode_marked : Pwd → CStr → Outcome Pwd
  decode_marked pwd [] = auth_pwd_from_hex_set pwd (some [])
  decode_marked pwd (c ∷ cs) =
      if c == b'*'
      then returned (auth_pwd_release pwd)
      else auth_pwd_from_hex_set pwd (some (c ∷ cs))

  unfoldable pub auth_pwd_decode : Pwd → CStr → Outcome Pwd
  unfolding decode_marked auth_pwd_from_str_set
  auth_pwd_decode pwd (a ∷ b ∷ c ∷ cs) =
      if a == b'$' && c == b'$'
      then (if b == b'0' then decode_marked pwd cs else failed)
      else if leb pwd_len_min (length (a ∷ b ∷ c ∷ cs))
      then auth_pwd_from_str_set pwd (some (a ∷ b ∷ c ∷ cs))
      else failed
  auth_pwd_decode pwd _ = failed
