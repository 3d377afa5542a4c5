-- ===== src/Auth/File/Stored.antt =====
-- src/auth/auth-basic.c: the entries that a line of the file can hold, and what the columns of one
-- make of a new entry.
use rsmp_gatewa.Common.{
  ◌≡◌, ◌⊎◌, inl, inr, refl, ℕ, ◌≤◌, true, false, some, List, [], ◌∷◌, ltb, leb, ◌==◌, if◌then◌else◌,
  length, arith, IsBytes, returned,
}
use rsmp_gatewa.Auth.Pwd.{
  Pwd, pwd_null, pwd_of, pwd_len_min, stored_text, auth_pwd_set, auth_pwd_decode,
}
use rsmp_gatewa.Auth.Pwd.Stored.{auth_pwd_decode-stored_text}
use rsmp_gatewa.Auth.Entry.{Key, Auth, auth_body, copied_pwd, is_given}
use rsmp_gatewa.Auth.Store.{is_named, blank_entry, text_or_empty}
use rsmp_gatewa.Auth.File.{
  FileTexts, columns, flag_text, new_pwd_text, copied_if, auth_pwd_cmp, time_column, is_nonzero,
  set_new_pwd, with_new_pwd, loaded,
}

-- A password that is long enough to be read back.
abbrev pub IsKept : Pwd → Type 0
IsKept pwd =
    (x : ℕ) × (xs : List ℕ) × (pwd ≡ pwd_of (x ∷ xs))
    × IsBytes (x ∷ xs)
    × (pwd_len_min ≤ length (x ∷ xs))

-- An entry that a line can hold: its keys are not empty, its passwords are kept, the new one if it is
-- pending, and its time is read back as it was printed.
pub record IsStored (texts : FileTexts) (a : Auth) : Type 0 where
  pub names_db : is_named (some a.db_id) ≡ true
  pub names_login : is_named (some a.login) ≡ true
  pub names_site : is_named (some a.s_id) ≡ true
  pub keeps_pwd : IsKept a.pwd
  pub keeps_new : (a.new_pwd_pending ≡ false) ⊎ ((a.new_pwd_pending ≡ true) × IsKept a.new_pwd)
  pub long_time : 19 ≤ length (texts.gmt_text a.timestamp)
  pub reads_time : texts.str2gmt (texts.gmt_text a.timestamp) ≡ some a.timestamp

-- The entry that is read: it is active whatever it was, it has no secrets, and of a new password only
-- one that is pending.
unfoldable pub restored : Auth → Auth
restored a = record a {
  active = true;
  new_pwd = if a.new_pwd_pending then a.new_pwd else pwd_null;
  secrets = [];
}

pub decode-IsKept :
    (fresh : List ℕ) (old pwd : Pwd)
    → IsKept pwd
    → auth_pwd_decode fresh old (stored_text pwd) ≡ returned pwd
decode-IsKept fresh old pwd (x, xs, same, bytes, long) =
    let enough : ltb (length (x ∷ xs)) pwd_len_min ≡ false = ground arith in
    rw (same, auth_pwd_decode-stored_text fresh old x xs bytes, enough) refl

copied_if-IsKept :
    (fresh : List ℕ) (pwd : Pwd) → IsKept pwd → copied_if fresh pwd_null pwd ≡ returned pwd
unfolding copied_if auth_pwd_cmp auth_pwd_set
copied_if-IsKept fresh pwd (x, xs, same, bytes, long) =
    let differs : (0 == length (x ∷ xs)) ≡ false = ground arith in rw (same, differs) refl

-- The key of the columns, and the entry that is created for it.
abbrev pub key_for : Auth → Key
key_for a = record { db_id = some a.db_id; login = some a.login; s_id = some a.s_id }

abbrev IsRestoring : List ℕ × List ℕ → FileTexts → ℕ → ℕ → Auth → Type 0
IsRestoring fresh texts n now a =
    loaded fresh (columns texts n a.db_id a) a.pwd a.timestamp (blank_entry now (key_for a))
    ≡ returned (restored a)

loaded-idle :
    (fresh : List ℕ × List ℕ) (texts : FileTexts) (n now : ℕ) (a : Auth)
    → IsKept a.pwd
    → a.new_pwd_pending ≡ false
    → IsRestoring fresh texts n now a
unfolding loaded with_new_pwd columns flag_text new_pwd_text is_nonzero blank_entry auth_body
    copied_pwd is_given text_or_empty restored
loaded-idle fresh texts n now a kept idle = rw (idle, copied_if-IsKept fresh.1 a.pwd kept) refl

loaded-pending :
    (fresh : List ℕ × List ℕ) (texts : FileTexts) (n now : ℕ) (a : Auth)
    → IsKept a.pwd
    → a.new_pwd_pending ≡ true
    → IsKept a.new_pwd
    → IsRestoring fresh texts n now a
unfolding loaded with_new_pwd columns flag_text new_pwd_text is_nonzero blank_entry auth_body
    copied_pwd is_given text_or_empty restored set_new_pwd
loaded-pending fresh texts n now a kept pending kept' =
    rw
      (
        pending,
        decode-IsKept fresh.0 pwd_null a.new_pwd kept',
        copied_if-IsKept fresh.0 a.new_pwd kept',
        copied_if-IsKept fresh.1 a.pwd kept,
      )
      refl

pub loaded-IsStored :
    (fresh : List ℕ × List ℕ) (texts : FileTexts) (n now : ℕ) (a : Auth)
    → IsStored texts a
    → IsRestoring fresh texts n now a
loaded-IsStored fresh texts n now a h = elim h.keeps_new [
  | inl idle ↦ loaded-idle fresh texts n now a h.keeps_pwd idle
  | inr (pending, kept) ↦ loaded-pending fresh texts n now a h.keeps_pwd pending kept
]

pub restored_login : (a : Auth) → (restored a).login ≡ a.login
unfolding restored
restored_login a = refl

pub time_column-IsStored :
    (texts : FileTexts) (a : Auth)
    → IsStored texts a
    → time_column texts (texts.gmt_text a.timestamp) ≡ some a.timestamp
unfolding time_column
time_column-IsStored texts a h =
    let long : leb 19 (length (texts.gmt_text a.timestamp)) ≡ true = ground (arith, h.long_time) in
    rw long h.reads_time
