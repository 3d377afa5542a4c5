-- ===== src/Auth/Rotation.antt =====
-- src/auth/auth.c: the change of a password. The entry of the database "to" draws a new password and
-- keeps it beside the current one; the peer stores it in its database "from"; the entry switches when
-- the peer has answered. `draws` are the results of rand, `now` a clock reading; a write of the file
-- auth.db after each change is not modelled, and allocation never fails.
pub mod Agree
use rsmp_gatewa.Common.{
  ℕ, zero, suc, ◌+◌, ◌%◌, Bool, true, false, ◌&&◌, Option, none, some, List, [], ◌∷◌, leb, ltb,
  length, take, codes, CStr, str_eq, if◌then◌else◌, Outcome, returned, fault, guard, asserted, ◌>>◌,
  ◌>>=◌,
}
use rsmp_gatewa.Crypt.Base64.{base64_encode, base64_decode}
use rsmp_gatewa.Auth.Pwd.{Pwd, pwd_null, pwd_of, pwd_len_min}
use rsmp_gatewa.Auth.Entry.{Auth}

-- AUTH_PWD_LEN_MAX
abbrev pub auth_pwd_len_max : ℕ
auth_pwd_len_max = 256

-- _auth_to_dbId
abbrev pub to_db_id : CStr
to_db_id = codes "to"

-- _auth_from_dbId
abbrev pub from_db_id : CStr
from_db_id = codes "from"

unfoldable pub auth_to_is : Auth → Bool
auth_to_is auth = str_eq auth.db_id to_db_id

unfoldable pub auth_from_is : Auth → Bool
auth_from_is auth = str_eq auth.db_id from_db_id

-- The characters drawn one after the other, none below 32 nor above 126.
unfoldable pub gen_chars : (ℕ → ℕ) → ℕ → List ℕ
gen_chars draws zero = []
gen_chars draws (suc n) = (draws 0 % 95 + 32) ∷ gen_chars (λ i. draws (suc i)) n

unfoldable pub auth_gen_new_pwd : (ℕ → ℕ) → ℕ → Auth → Outcome Auth
auth_gen_new_pwd draws len auth =
    asserted (leb pwd_len_min len && leb len auth_pwd_len_max)
    >> (if auth.new_pwd_pending
        then returned auth
        else returned (record auth { new_pwd = pwd_of (gen_chars draws len) }))

-- The first `len` bytes at a pointer.
unfoldable pub bytes_at : Option (List ℕ) → ℕ → Outcome (List ℕ)
bytes_at none zero = returned []
bytes_at none (suc n) = fault
bytes_at (some bs) len = if leb len (length bs) then returned (take len bs) else fault

unfoldable pub new_pwd_ready : (ℕ → ℕ) → Auth → Outcome Auth
new_pwd_ready draws auth =
    if auth.new_pwd_pending
    then returned auth
    else auth_gen_new_pwd draws auth.pwd.len auth >>= λ a.
        returned (record a { new_pwd_pending = true })

-- The entry, and the new password in base 64.
unfoldable pub auth_get_new_pwd_b64 : (ℕ → ℕ) → Auth → Outcome (Auth × CStr)
auth_get_new_pwd_b64 draws auth =
    guard auth.active
    >> (asserted (auth_to_is auth)
        >> (new_pwd_ready draws auth >>= λ a.
            bytes_at a.new_pwd.buf a.new_pwd.len >>= λ bs. returned (a, base64_encode bs)))

unfoldable pub auth_set_pwd_b64 : ℕ → Auth → CStr → Outcome Auth
auth_set_pwd_b64 now auth text =
    guard auth.active
    >> (asserted (auth_from_is auth)
        >> (base64_decode text >>= λ bs.
            returned (record auth { pwd = pwd_of bs; timestamp = now })))

unfoldable pub auth_forget_new_pwd : Auth → Outcome Auth
auth_forget_new_pwd auth =
    guard auth.active
    >> (asserted (auth_to_is auth)
        >> returned (record auth { new_pwd = pwd_null; new_pwd_pending = false }))

-- `new_pwd.buf && new_pwd.len`
unfoldable pub is_held : Pwd → Bool
is_held pwd = elim pwd.buf [ none ↦ false | some bs ↦ ltb 0 pwd.len ]

unfoldable pub auth_switch_to_new_pwd : ℕ → Auth → Outcome Auth
auth_switch_to_new_pwd now auth =
    guard auth.active
    >> (asserted (auth_to_is auth)
        >> (guard auth.new_pwd_pending
            >> (asserted (is_held auth.new_pwd)
                >> (bytes_at auth.new_pwd.buf auth.new_pwd.len >>= λ bs.
                    auth_forget_new_pwd (record auth { pwd = pwd_of bs; timestamp = now })))))
