-- ===== src/Auth/File.antt =====
-- src/auth/auth-basic.c: the file of the entries, one line for each, as it is written and as it is
-- read. The file is its text. What is not in the repository is the record `FileTexts`: decodeparam, the
-- two conversions of a time, the digits that dprintf prints, and the size of a page. A file has no
-- NUL in it.
pub mod Line
pub mod Stored
pub mod Entries
pub mod Text
pub mod RoundTrip
pub mod Stale
mod Examples
use rsmp_gatewa.Common.{
  ℕ, zero, suc, ◌+◌, ◌%◌, Bool, true, false, not, ◌&&◌, ◌||◌, Option, none, some, List, [], ◌∷◌,
  ◌++◌, leb, ◌==◌, if◌then◌else◌, length, get_or, CStr, codes, str_eq, Ldc, Outcome, returned,
  failed, fault, ◌>>=◌, on,
}
use rsmp_gatewa.Auth.Pwd.{Pwd, pwd_null, stored_text, auth_pwd_set, auth_pwd_decode}
use rsmp_gatewa.Auth.Entry.{Key, Auth}
use rsmp_gatewa.Auth.Store.{Store, lookup, auth_update, is_named, auth_search_by_key}
use rsmp_gatewa.Auth.Store.Walk.{auth_foreach}

pub record FileTexts : Type 0 where
  -- the parts of a line between the separators
  pub decodeparam : CStr → List CStr
  -- null where the time cannot be read
  pub str2gmt : CStr → Option ℕ
  pub gmt_text : ℕ → CStr
  pub decimal : ℕ → CStr
  -- the bytes of a page of memory
  pub page_size : ℕ

-- _auth_column_max_
abbrev pub column_max : ℕ
column_max = 9

unfoldable pub flag_text : Bool → CStr
flag_text true = codes "1"
flag_text false = codes "0"

unfoldable pub new_pwd_text : Bool → Pwd → CStr
unfolding stored_text
new_pwd_text true pwd = stored_text pwd
new_pwd_text false pwd = codes "*"

-- The columns that auth_write prints, for the line of this number.
unfoldable pub columns : FileTexts → ℕ → CStr → Auth → List CStr
unfolding stored_text new_pwd_text flag_text
columns texts n db_id a =
    texts.decimal n
    ∷ db_id
    ∷ a.login
    ∷ a.s_id
    ∷ stored_text a.pwd
    ∷ flag_text a.active
    ∷ texts.gmt_text a.timestamp
    ∷ new_pwd_text a.new_pwd_pending a.new_pwd
    ∷ flag_text a.new_pwd_pending
    ∷ []

unfoldable pub joined : List CStr → CStr
joined [] = []
joined (c ∷ []) = c
joined (c ∷ d ∷ cs) = c ++ b';' ∷ joined (d ∷ cs)

-- The context of auth_write: the number of the last line, and the text of the file.
unfoldable pub auth_write : FileTexts → ℕ × CStr → CStr → Auth → (ℕ × CStr) × Bool
unfolding columns joined
auth_write texts c db_id a =
    ((suc c.0, c.1 ++ (joined (columns texts (suc c.0) db_id a) ++ b'\n' ∷ [])), true)

unfoldable pub auth_db_serialize : FileTexts → Store → CStr
unfolding auth_write auth_foreach
auth_db_serialize texts s = (auth_foreach (auth_write texts) (0, []) none none s).0.1

-- A write from the start of a file, which is not cut before.
unfoldable pub overwritten : CStr → CStr → CStr
overwritten [] old = old
overwritten (c ∷ cs) [] = c ∷ cs
overwritten (c ∷ cs) (o ∷ old) = c ∷ overwritten cs old

-- The text of the file before and after; a file that is not there yet is empty. `opens` says whether
-- open gives a descriptor. The result is never set.
unfoldable pub auth_serialize_to_file :
    FileTexts → (fname : Option CStr) (opens : Bool) → Store → CStr → CStr × Outcome ℕ
unfolding is_named auth_db_serialize overwritten
auth_serialize_to_file texts fname opens s old =
    if is_named fname && opens
    then (overwritten (auth_db_serialize texts s) old, failed)
    else (old, failed)

unfoldable pub cons_first : ℕ → List CStr → List CStr
cons_first c [] = (c ∷ []) ∷ []
cons_first c (l ∷ ls) = (c ∷ l) ∷ ls

unfoldable pub pieces : CStr → List CStr
unfolding cons_first
pieces [] = [] ∷ []
pieces (c ∷ cs) = let rest = pieces cs in if c == b'\n' then [] ∷ rest else cons_first c rest

unfoldable pub without_empty : List CStr → List CStr
without_empty [] = []
without_empty ([] ∷ ls) = without_empty ls
without_empty ((c ∷ l) ∷ ls) = (c ∷ l) ∷ without_empty ls

-- The tokens that strtok_r finds with "\n".
unfoldable pub lines : CStr → List CStr
unfolding pieces without_empty
lines s = without_empty (pieces s)

-- The lines of a file that is mapped to memory. Behind its last byte the rest of the page is 0; where
-- it fills its pages there is no NUL, and strtok_r reads behind the mapping.
unfoldable pub mapped_lines : FileTexts → CStr → Outcome (List CStr)
unfolding lines
mapped_lines texts s = if length s % texts.page_size == 0 then fault else returned (lines s)

-- memcmp of this many bytes
unfoldable pub same_bytes : ℕ → Option (List ℕ) → Option (List ℕ) → Outcome Bool
unfolding str_eq
same_bytes zero x y = returned true
same_bytes (suc n) none y = fault
same_bytes (suc n) (some x) none = fault
same_bytes (suc n) (some x) (some y) = returned (str_eq x y)

-- Whether auth_pwd_cmp gives 0.
unfoldable pub auth_pwd_cmp : Pwd → Pwd → Outcome Bool
unfolding same_bytes
auth_pwd_cmp p q = if p.len == q.len then same_bytes p.len p.buf q.buf else returned false

-- `if (auth_pwd_cmp(&old, &pwd)) auth_pwd_cpy(&old, &pwd)`, with the bytes that a copy may draw.
unfoldable pub copied_if : List ℕ → Pwd → Pwd → Outcome Pwd
unfolding auth_pwd_cmp
copied_if fresh old pwd =
    auth_pwd_cmp old pwd >>= λ same. returned (if same then old else auth_pwd_set fresh old pwd.buf)

unfoldable pub time_column : FileTexts → CStr → Option ℕ
time_column texts s = if leb 19 (length s) then texts.str2gmt s else some 0

unfoldable pub is_digit : ℕ → Bool
is_digit c = leb b'0' c && leb c b'9'

-- Whether the number at the start is not 0; a number that fits no int is not what atoi is for.
unfoldable pub is_nonzero : CStr → Bool
unfolding is_digit
is_nonzero [] = false
is_nonzero (c ∷ cs) =
    let rest = is_nonzero cs in if is_digit c then not (c == b'0') || rest else false

unfoldable pub set_new_pwd : List ℕ → Auth → Outcome Pwd → Outcome Auth
unfolding copied_if
set_new_pwd fresh a failed = returned a
set_new_pwd fresh a fault = fault
set_new_pwd fresh a (returned pwd) = copied_if fresh a.new_pwd pwd >>= λ p.
    returned (record a { new_pwd = p; new_pwd_pending = true })

-- The two columns of a new password, in a line that has exactly the columns.
unfoldable pub with_new_pwd : List ℕ → List CStr → Auth → Outcome Auth
unfolding is_nonzero set_new_pwd auth_pwd_decode
with_new_pwd fresh cols a =
    if length cols == column_max && is_nonzero (get_or cols 8 [])
    then set_new_pwd fresh a (auth_pwd_decode fresh pwd_null (get_or cols 7 []))
    else returned a

-- The entry that a line changes; `fresh` is what the copies may draw, of the new password first.
unfoldable pub loaded : List ℕ × List ℕ → List CStr → Pwd → ℕ → Auth → Outcome Auth
unfolding with_new_pwd copied_if
loaded fresh cols pwd ts a = with_new_pwd fresh.0 cols a >>= λ b.
    copied_if fresh.1 b.pwd pwd >>= λ p.
    returned (record b { pwd = p; active = true; timestamp = ts })

module _ (texts : FileTexts) (ldc : Ldc) (check_deb : Option (CStr → Bool)) where
  unfoldable pub is_checked : CStr → Bool
  is_checked db_id = elim check_deb [ none ↦ true | some check ↦ check db_id ]

  abbrev pub key_of : List CStr → Key
  key_of cols = record {
    db_id = some (get_or cols 1 []);
    login = some (get_or cols 2 []);
    s_id = some (get_or cols 3 []);
  }

  -- The entry of the columns, once it is found.
  unfoldable pub changed_entry :
      List ℕ × List ℕ → List CStr → Pwd → ℕ → Store → Option Auth → Store × Outcome Bool
  unfolding loaded on
  changed_entry fresh cols pwd ts s none = (s, returned false)
  changed_entry fresh cols pwd ts s (some a) = on s (loaded fresh cols pwd ts a) (λ b. (
    auth_update (get_or cols 1 []) (get_or cols 3 []) (get_or cols 2 []) (λ old. b) s,
    returned true,
  ))

  -- The entry is found or created, and changed.
  unfoldable pub load_entry :
      ℕ → List ℕ × List ℕ → List CStr → Pwd → ℕ → Store → Store × Outcome Bool
  unfolding is_named changed_entry
  load_entry now fresh cols pwd ts s =
      let d = get_or cols 1 [] in
      let l = get_or cols 2 [] in
      let i = get_or cols 3 [] in
      if is_named (some d) && (is_named (some l) && is_named (some i))
      then (let s' = auth_search_by_key ldc now (key_of cols) s in
          changed_entry fresh cols pwd ts s' (lookup s' d i l))
      else (s, returned false)

  -- One line; the flag says whether it is counted.
  unfoldable pub read_columns : ℕ → List ℕ × List ℕ → List CStr → Store → Store × Outcome Bool
  unfolding is_checked time_column auth_pwd_decode load_entry
  read_columns now fresh cols s =
      if leb 7 (length cols) && is_checked (get_or cols 1 [])
      then elim (time_column texts (get_or cols 6 [])) [
        | none ↦ (s, returned false)
        | some ts ↦ elim (auth_pwd_decode [] pwd_null (get_or cols 4 [])) [
          | failed ↦ (s, returned false)
          | fault ↦ (s, fault)
          | returned pwd ↦ load_entry now fresh cols pwd ts s
        ]
      ]
      else (s, returned false)

  -- The lines in their order, each with the time it is read at and what it may draw.
  unfoldable pub read_lines :
      (ℕ → ℕ) → (ℕ → List ℕ × List ℕ) → ℕ → List CStr → Store → Store × Outcome ℕ
  unfolding read_columns on
  read_lines now fresh n [] s = (s, returned 0)
  read_lines now fresh n (line ∷ rest) s =
      let (s', o) = read_columns (now n) (fresh n) (texts.decodeparam line) s in
      on s' o (λ counted.
        let (s'', o') = read_lines now fresh (suc n) rest s' in
        (s'', o' >>= λ k. returned (if counted then suc k else k)))

  -- A file that is not there or is empty cannot be mapped.
  unfoldable pub auth_unserialize_from_file :
      (ℕ → ℕ) → (ℕ → List ℕ × List ℕ) → Option CStr → Store → Store × Outcome ℕ
  unfolding read_lines mapped_lines on
  auth_unserialize_from_file now fresh none s = (s, failed)
  auth_unserialize_from_file now fresh (some []) s = (s, failed)
  auth_unserialize_from_file now fresh (some (c ∷ cs)) s =
      on s (mapped_lines texts (c ∷ cs)) (λ ls. read_lines now fresh 1 ls s)
