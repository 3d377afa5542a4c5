-- ===== src/Auth/Entry.antt =====
-- An authentication entry of src/auth/auth.h and the keys that find it, with the derived secrets
-- that src/auth/auth-basic.c chains to it. Times are seconds; a clock reading is an argument.
use rsmp_gatewa.Common.{
  ℕ, Bool, true, false, ◌&&◌, Option, none, some, List, [], ◌∷◌, CStr, Ldc, find_by, update_by,
  remove_by,
}
use rsmp_gatewa.Auth.Pwd.{Pwd, pwd_null, pwd_of}

-- auth_key_t; a null field is `none`.
pub record Key : Type 0 where
  pub db_id : Option CStr
  pub login : Option CStr
  pub s_id : Option CStr

-- A derived key, under the name of its cipher.
pub record Secret : Type 0 where
  pub ref : CStr
  pub bytes : List ℕ

-- __auth_t
pub record Auth : Type 0 where
  pub db_id : CStr
  pub login : CStr
  pub s_id : CStr
  pub active : Bool
  pub pwd : Pwd
  pub timestamp : ℕ
  pub new_pwd_pending : Bool
  pub new_pwd : Pwd
  pub secrets : List Secret

abbrev pub login_of : Auth → CStr
login_of a = a.login

abbrev pub ref_of : Secret → CStr
ref_of s = s.ref

-- `pwd_len > 0 && pwd` decides whether the bytes are copied.
unfoldable pub copied_pwd : Option (List ℕ) → Pwd
copied_pwd none = pwd_null
copied_pwd (some []) = pwd_null
copied_pwd (some (b ∷ bs)) = pwd_of (b ∷ bs)

-- Whether auth_new copied a password.
unfoldable pub is_given : Option (List ℕ) → Bool
is_given none = false
is_given (some []) = false
is_given (some (b ∷ bs)) = true

-- The body that auth_new fills in.
unfoldable pub auth_body :
    (db_id login s_id : CStr) → Option (List ℕ) → ℕ → Bool → Option (List ℕ) → Bool → Auth
unfolding copied_pwd is_given
auth_body db_id login s_id pwd ts active new_pwd pending = record {
  db_id = db_id;
  login = login;
  s_id = s_id;
  active = is_given pwd && active;
  pwd = copied_pwd pwd;
  timestamp = ts;
  new_pwd_pending = is_given new_pwd && pending;
  new_pwd = copied_pwd new_pwd;
  secrets = [];
}

unfoldable pub auth_secret_get : Auth → CStr → Option Secret
auth_secret_get auth ref = find_by ref_of ref auth.secrets

unfoldable pub auth_secret_delete : CStr → Auth → Auth
auth_secret_delete ref auth = record auth { secrets = remove_by ref_of ref auth.secrets }

unfoldable pub auth_secret_add_or_update : Ldc → CStr → List ℕ → Auth → Auth
unfolding auth_secret_get
auth_secret_add_or_update ldc ref bytes auth = elim (auth_secret_get auth ref) [
  | none ↦ record auth { secrets = ldc.insert (record { ref = ref; bytes = bytes }) auth.secrets }
  | some old ↦ record auth {
    secrets = update_by ref_of ref (λ s. record s { bytes = bytes }) auth.secrets;
  }
]
