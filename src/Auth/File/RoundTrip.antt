-- ===== src/Auth/File/RoundTrip.antt =====
-- src/auth/auth-basic.c: the file of the entries, written from one store and read into an empty one.
use mathlib.Core.Option
use rsmp_gatewa.Common.{
  ◌≡◌, ◌≢◌, find_by, refl, sym, ap, ◌∙◌, ℕ, suc, Bool, true, false, ◌&&◌, Option, none, some, List,
  [], ◌∷◌, if◌then◌else◌, ◌%◌, ◌==◌, length, arith, CStr, str_eq, str_eq_sym, str_eq→eq, Ldc,
  Outcome, returned, ◌>>=◌, on,
}
use rsmp_gatewa.Auth.Entry.{Auth}
use rsmp_gatewa.Auth.Store.{Store, lookup, is_named, logins_of, sites_of}
use rsmp_gatewa.Auth.Store.Map.{same_path}
use rsmp_gatewa.Auth.Store.Walk.{all_entries}
use rsmp_gatewa.Auth.File.{
  FileTexts, columns, joined, auth_db_serialize, lines, mapped_lines, is_checked, read_columns,
  read_lines, auth_unserialize_from_file,
}
use rsmp_gatewa.Auth.File.Entries.{Entries, find_entry, IsTree, lookup-all_entries}
use rsmp_gatewa.Auth.File.Line.{read_columns-lookup}
use rsmp_gatewa.Auth.File.Stored.{restored}
use rsmp_gatewa.Auth.File.Text.{
  AreAbsent, AreWritten, DistinctEntries, IsLine, IsWritten, lines-text_of, lines_of,
  serialize-text_of, text_of, written-AreLines,
}

absent-step :
    (es : Entries) (d i l : CStr) (a : Auth) (s t : Store)
    → find_entry es d i l ≡ none
    → AreAbsent es s
    → ((e j m : CStr) → lookup t e j m ≡ (if same_path d i l e j m then some a else lookup s e j m))
    → AreAbsent es t
absent-step [] d i l a s t new absent after = tt
absent-step ((e, b) ∷ es) d i l a s t new (here, there) after =
    let (apart, rest) = apart_here (same_path e b.s_id b.login d i l) b (find_entry es d i l) new in
    (
      after e b.s_id b.login ∙ rw (same_path_sym d i l e b.s_id b.login, apart) here,
      absent-step es d i l a s t rest there after,
    )
  where
    apart_here :
        (b : Bool) (x : Auth) (o : Option Auth)
        → (if b then some x else o) ≡ none
        → (b ≡ false) × (o ≡ none)
    apart_here true x o h = cc h
    apart_here false x o h = (refl, h)

    same_path_sym : (d i l e j m : CStr) → same_path d i l e j m ≡ same_path e j m d i l
    same_path_sym d i l e j m = rw (str_eq_sym d e, str_eq_sym i j, str_eq_sym l m) refl

abbrev restored_or : Option Auth → Option Auth → Option Auth
restored_or none o = o
restored_or (some a) o = some (restored a)

-- Entries behind the first one with these keys have others.
none_later :
    (es : Entries) (d i l e j m : CStr)
    → find_entry es d i l ≡ none
    → same_path d i l e j m ≡ true
    → find_entry es e j m ≡ none
none_later es d i l e j m new same =
    let (db, site, login) = parts (str_eq d e) (str_eq i j) (str_eq l m) same in
    rw (← str_eq→eq d e db, ← str_eq→eq i j site, ← str_eq→eq l m login) new
  where
    parts : (x y z : Bool) → ((x && y) && z) ≡ true → (x ≡ true) × (y ≡ true) × (z ≡ true)
    parts true true true h = (refl, refl, refl)
    parts true true false h = cc h
    parts true false z h = cc h
    parts false y z h = cc h

later_entry :
    (b : Bool) (a : Auth) (later before : Option Auth)
    → (b ≡ true → later ≡ none)
    → restored_or later (if b then some (restored a) else before)
      ≡ restored_or (if b then some a else later) before
later_entry true a later before h = rw (h refl) refl
later_entry false a later before h = refl

module _ (texts : FileTexts) (ldc : Ldc) (check_deb : Option (CStr → Bool)) (now : ℕ → ℕ)
    (fresh : ℕ → List ℕ × List ℕ) where
  abbrev pub AreChecked : Entries → Type 0
  AreChecked [] = Unit {0}
  AreChecked ((d, a) ∷ es) = (is_checked texts ldc check_deb d ≡ true) × AreChecked es

  abbrev result : ℕ → ℕ → Entries → Store → Store × Outcome ℕ
  result k n es s = read_lines texts ldc check_deb now fresh k (lines_of texts n es) s

  read_lines-step :
      (k : ℕ) (line : CStr) (rest : List CStr) (s : Store)
      → (read_columns texts ldc check_deb (now k) (fresh k) (texts.decodeparam line) s).1
        ≡ returned true
      → read_lines texts ldc check_deb now fresh k (line ∷ rest) s ≡ (
          let t =
            (read_columns texts ldc check_deb (now k) (fresh k) (texts.decodeparam line) s).0 in
          (
            (read_lines texts ldc check_deb now fresh (suc k) rest t).0,
            (read_lines texts ldc check_deb now fresh (suc k) rest t).1 >>= λ j. returned (suc j),
          ))
  unfolding read_lines on
  read_lines-step k line rest s counted = rw counted refl

  line-entry :
      (k n : ℕ) (d : CStr) (a : Auth) (s : Store)
      → IsWritten texts n (d, a)
      → is_checked texts ldc check_deb d ≡ true
      → lookup s d a.s_id a.login ≡ none
      → ((read_columns texts ldc check_deb
            (now k)
            (fresh k)
            (texts.decodeparam (joined (columns texts (suc n) d a)))
            s).1
          ≡ returned true)
        × ((e j m : CStr)
            → lookup
                (read_columns texts ldc check_deb
                  (now k)
                  (fresh k)
                  (texts.decodeparam (joined (columns texts (suc n) d a)))
                  s).0
                e
                j
                m
              ≡ (if same_path d a.s_id a.login e j m then some (restored a) else lookup s e j m))
  line-entry k n d a s (own, stored, line, parsed) checked absent =
      rw (parsed, own)
        (read_columns-lookup texts ldc check_deb (now k) (suc n) (fresh k) a s stored
          (rw (← own) checked) (rw (← own) absent))

  -- The lines of entries that the store does not have are all counted, and put the restored entries
  -- there.
  read_lines-entries :
      (k n : ℕ) (es : Entries) (s : Store)
      → AreWritten texts n es
      → AreChecked es
      → DistinctEntries es
      → AreAbsent es s
      → ((result k n es s).1 ≡ returned (length es))
        × ((e j m : CStr)
            → lookup (result k n es s).0 e j m ≡ restored_or (find_entry es e j m) (lookup s e j m))
  unfolding read_lines
  read_lines-entries k n [] s written checked distinct absent = (refl, λ e j m. refl)
  read_lines-entries k n ((d, a) ∷ es) s ((own, stored, line, parsed), ws) (c, cs) (new, distinct)
        (here, there) =
      let one : CStr = joined (columns texts (suc n) d a) in
      let t : Store =
        (read_columns texts ldc check_deb (now k) (fresh k) (texts.decodeparam one) s).0 in
      let (counted, after) = line-entry k n d a s (own, stored, line, parsed) c here in
      let all = read_lines-step k one (lines_of texts (suc n) es) s counted in
      let (number, entries) =
        read_lines-entries (suc k) (suc n) es t ws cs distinct
          (absent-step es d a.s_id a.login (restored a) s t new there after) in
      (
        ap (λ z. z.1) all ∙ rw number refl,
        λ e j m.
            ap (λ z. lookup z.0 e j m) all
            ∙ entries e j m
            ∙ rw (after e j m) (
                later_entry (same_path d a.s_id a.login e j m) a (find_entry es e j m)
                  (lookup s e j m) (none_later es d a.s_id a.login e j m new)),
      )

named_read :
    (texts : FileTexts) (ldc : Ldc) (check_deb : Option (CStr → Bool)) (now : ℕ → ℕ)
    → (fresh : ℕ → List ℕ × List ℕ) (file : CStr) (s : Store) → is_named (some file) ≡ true
    → (length file % texts.page_size == 0) ≡ false
    → auth_unserialize_from_file texts ldc check_deb now fresh (some file) s
      ≡ read_lines texts ldc check_deb now fresh 1 (lines file) s
unfolding auth_unserialize_from_file is_named mapped_lines on
named_read texts ldc check_deb now fresh [] s h k = cc h
named_read texts ldc check_deb now fresh (c ∷ cs) s h k = rw k refl

text_of-is_named :
    (l : CStr) (ls : List CStr) → IsLine l → is_named (some (text_of (l ∷ ls))) ≡ true
unfolding is_named
text_of-is_named [] ls (named, clean) = absurd (ground (arith, named))
text_of-is_named (c ∷ l) ls h = refl

entries-is_named :
    (texts : FileTexts) (es : Entries)
    → es ≢ []
    → AreWritten texts 0 es
    → is_named (some (text_of (lines_of texts 0 es))) ≡ true
entries-is_named texts [] some_ h = absurd (some_ refl)
entries-is_named texts ((d, a) ∷ es) some_ ((own, stored, line, parsed), hs) =
    text_of-is_named (joined (columns texts 1 d a)) (lines_of texts 1 es) line

absent_empty : (es : Entries) → AreAbsent es []
unfolding lookup logins_of sites_of find_by
absent_empty [] = tt
absent_empty ((d, a) ∷ es) = (refl, absent_empty es)

restored_or-none : (o : Option Auth) → restored_or o none ≡ Option.map restored o
restored_or-none none = refl
restored_or-none (some a) = refl

empty_lookup : (e j m : CStr) → lookup [] e j m ≡ none
unfolding lookup logins_of sites_of find_by
empty_lookup e j m = refl

-- A store with some entries, whose databases, sites and logins are distinct and which the file can
-- hold, is written by auth_db_serialize and read by auth_unserialize_from_file into an empty store,
-- if its text does not fill the last page of its mapping: the lines are all counted, and each key
-- finds what it found, made active, without its secrets, and with a new password only if one was
-- pending.
pub auth_unserialize_from_file-auth_db_serialize :
    (texts : FileTexts) (ldc : Ldc) (check_deb : Option (CStr → Bool)) (now : ℕ → ℕ)
    → (fresh : ℕ → List ℕ × List ℕ) (s : Store) → IsTree s
    → all_entries s ≢ []
    → DistinctEntries (all_entries s)
    → AreWritten texts 0 (all_entries s)
    → AreChecked texts ldc check_deb now fresh (all_entries s)
    → (length (auth_db_serialize texts s) % texts.page_size == 0) ≡ false
    → let r =
        auth_unserialize_from_file texts ldc check_deb now fresh
          (some (auth_db_serialize texts s))
          [] in
      (r.1 ≡ returned (length (all_entries s)))
      × ((e j m : CStr) → lookup r.0 e j m ≡ Option.map restored (lookup s e j m))
auth_unserialize_from_file-auth_db_serialize texts ldc check_deb now fresh s tree filled distinct
      written checked ends =
    let es : Entries = all_entries s in
    let read =
      ap (λ f. auth_unserialize_from_file texts ldc check_deb now fresh (some f) [])
        (serialize-text_of texts s)
      ∙ named_read texts ldc check_deb now fresh (text_of (lines_of texts 0 es)) []
          (entries-is_named texts es filled written)
          (ap (λ f. length f % texts.page_size == 0) (sym (serialize-text_of texts s)) ∙ ends)
      ∙ ap (λ ls. read_lines texts ldc check_deb now fresh 1 ls [])
          (lines-text_of (lines_of texts 0 es) (written-AreLines texts 0 es written)) in
    let (number, entries) =
      read_lines-entries texts ldc check_deb now fresh 1 0 es [] written checked distinct
        (absent_empty es) in
    (
      ap (λ z. z.1) read ∙ number,
      λ e j m.
          ap (λ z. lookup z.0 e j m) read
          ∙ entries e j m
          ∙ ap (restored_or (find_entry es e j m)) (empty_lookup e j m)
          ∙ restored_or-none (find_entry es e j m)
          ∙ ap (Option.map restored) (sym (lookup-all_entries s e j m tree)),
    )
