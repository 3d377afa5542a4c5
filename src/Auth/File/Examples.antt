-- ===== src/Auth/File/Examples.antt =====
-- The theorems about the file of the entries at concrete inputs.
use mathlib.Core.Option
use rsmp_gatewa.Common.{
  ◌≡◌, All, Bool, sym, ◌∙◌, subst, ◌==◌, if◌then◌else◌, Bool-cases, refl, inl, inr, ℕ, true, false,
  none, some, List, [], ◌∷◌, arith, CStr, codes, returned, failed, append_ldc, find_by, length,
}
use rsmp_gatewa.Crypt.Bcd.{bcd_encode_sep, c2a}
use rsmp_gatewa.Auth.Pwd.{pwd_of, pwd_null, stored_text, stored_column}
use rsmp_gatewa.Auth.Entry.{Auth}
use rsmp_gatewa.Auth.Store.{Store, lookup, is_named}
use rsmp_gatewa.Auth.Store.Walk.{all_entries}
use rsmp_gatewa.Auth.File.{
  FileTexts, columns, joined, auth_write, flag_text, new_pwd_text, is_checked, auth_db_serialize,
  auth_serialize_to_file, auth_unserialize_from_file,
}
use rsmp_gatewa.Auth.File.Stored.{IsStored, restored}
use rsmp_gatewa.Auth.File.Text.{IsLine, IsWritten}
use rsmp_gatewa.Auth.File.RoundTrip.{auth_unserialize_from_file-auth_db_serialize}
use rsmp_gatewa.Auth.File.Stale.{auth_serialize_to_file_stale}

abbrev eight : List ℕ
eight = 1 ∷ 2 ∷ 3 ∷ 4 ∷ 5 ∷ 6 ∷ 7 ∷ 8 ∷ []

-- An entry that is not active.
abbrev asleep : Auth
asleep = record {
  db_id = codes "to";
  login = codes "a";
  s_id = codes "B";
  active = false;
  pwd = pwd_of eight;
  timestamp = 5;
  new_pwd_pending = false;
  new_pwd = pwd_null;
  secrets = [];
}

abbrev store : Store
store =
    record { db_id = codes "to"; s_ids = record { s_id = codes "B"; logins = asleep ∷ [] } ∷ [] }
    ∷ []

abbrev split : List CStr
split =
    codes "1"
    ∷ codes "to"
    ∷ codes "a"
    ∷ codes "B"
    ∷ codes "$0$0102030405060708"
    ∷ codes "0"
    ∷ codes "1970-01-01 00:00:05"
    ∷ codes "*"
    ∷ codes "0"
    ∷ []

abbrev texts : FileTexts
texts = record {
  decodeparam = λ line. split;
  str2gmt = λ s. some 5;
  gmt_text = λ t. codes "1970-01-01 00:00:05";
  decimal = λ n. codes "1";
  page_size = 4096;
}

asleep-columns : columns texts 1 (codes "to") asleep ≡ split
unfolding columns flag_text new_pwd_text stored_text stored_column bcd_encode_sep c2a
asleep-columns = refl

asleep-IsStored : IsStored texts asleep
unfolding is_named
asleep-IsStored = record {
  names_db = refl;
  names_login = refl;
  names_site = refl;
  keeps_pwd = (1, 2 ∷ 3 ∷ 4 ∷ 5 ∷ 6 ∷ 7 ∷ 8 ∷ [], refl, ground arith, omega arith);
  keeps_new = inl refl;
  long_time = omega arith;
  reads_time = refl;
}

abbrev is_clean : CStr → Bool
is_clean [] = true
is_clean (c ∷ cs) = if c == b'\n' then false else is_clean cs

clean-All : (s : CStr) → is_clean s ≡ true → All (λ c. (c == b'\n') ≡ false) s
clean-All [] h = tt
clean-All (c ∷ s) h = elim (Bool-cases (c == b'\n')) [
  | inl end ↦ cc (end, h)
  | inr other ↦ (other, clean-All s (sym (rw other refl) ∙ h))
]

split-IsLine : IsLine (joined split)
unfolding joined is_named
split-IsLine = (refl, clean-All (joined split) refl)

asleep-IsWritten : IsWritten texts 0 (codes "to", asleep)
asleep-IsWritten = (
  refl,
  asleep-IsStored,
  subst (λ cs. IsLine (joined cs)) (sym asleep-columns) split-IsLine,
  sym asleep-columns,
)

auth_unserialize_from_file-auth_db_serialize_example :
    ((auth_unserialize_from_file texts append_ldc none
        (λ n. n)
        (λ n. ([], []))
        (some (auth_db_serialize texts store))
        []).1
      ≡ returned (length (all_entries store)))
    × ((e j m : CStr)
        → lookup
            (auth_unserialize_from_file texts append_ldc none
              (λ n. n)
              (λ n. ([], []))
              (some (auth_db_serialize texts store))
              []).0
            e
            j
            m
          ≡ Option.map restored (lookup store e j m))
unfolding is_checked find_by auth_db_serialize auth_write columns flag_text new_pwd_text stored_text
    stored_column bcd_encode_sep c2a joined
auth_unserialize_from_file-auth_db_serialize_example =
    auth_unserialize_from_file-auth_db_serialize texts append_ldc none (λ n. n) (λ n. ([], []))
      store (refl, ((refl, tt), ((refl, tt), tt)), tt) (λ e. cc e) (refl, tt) (asleep-IsWritten, tt)
      (refl, tt) refl

auth_serialize_to_file_stale_example :
    auth_serialize_to_file texts (some (codes "auth.db")) true [] (auth_db_serialize texts store)
    ≡ (auth_db_serialize texts store, failed)
unfolding is_named
auth_serialize_to_file_stale_example =
    auth_serialize_to_file_stale texts (some (codes "auth.db")) [] store ((codes "to", asleep) ∷ [])
      refl refl
