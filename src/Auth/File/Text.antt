-- ===== src/Auth/File/Text.antt =====
-- src/auth/auth-basic.c: the text of the file of the entries, and its lines.
use rsmp_gatewa.Common.{
  ◌≡◌, All, refl, sym, ap, ◌∙◌, ℕ, suc, true, false, none, some, List, [], ◌∷◌, ◌++◌, append_assoc,
  append-nil, ◌==◌, foldl, CStr,
}
use rsmp_gatewa.Auth.Entry.{Auth}
use rsmp_gatewa.Auth.Store.{Store, lookup, is_named}
use rsmp_gatewa.Auth.Store.Walk.{all_entries, auth_foreach_all}
use rsmp_gatewa.Auth.File.{
  FileTexts, columns, joined, auth_write, auth_db_serialize, cons_first, pieces, without_empty,
  lines,
}
use rsmp_gatewa.Auth.File.Entries.{Entries, find_entry}
use rsmp_gatewa.Auth.File.Stored.{IsStored}

-- The lines of the entries behind the line of this number.
abbrev pub lines_of : FileTexts → ℕ → Entries → List CStr
lines_of texts n [] = []
lines_of texts n ((d, a) ∷ es) = joined (columns texts (suc n) d a) ∷ lines_of texts (suc n) es

abbrev pub text_of : List CStr → CStr
text_of [] = []
text_of (l ∷ ls) = l ++ b'\n' ∷ text_of ls

-- A line that is not empty and has no line end in it.
abbrev pub IsLine : CStr → Type 0
IsLine l = (is_named (some l) ≡ true) × All (λ c. (c == b'\n') ≡ false) l

-- The entry is one that the file can hold, under its own database, and decodeparam takes apart the
-- line that is printed for it.
abbrev pub IsWritten : FileTexts → ℕ → CStr × Auth → Type 0
IsWritten texts n (d, a) =
    (d ≡ a.db_id)
    × IsStored texts a
    × IsLine (joined (columns texts (suc n) d a))
    × (texts.decodeparam (joined (columns texts (suc n) d a)) ≡ columns texts (suc n) d a)

abbrev pub AreWritten : FileTexts → ℕ → Entries → Type 0
AreWritten texts n [] = Unit {0}
AreWritten texts n (e ∷ es) = IsWritten texts n e × AreWritten texts (suc n) es

-- No two entries have the same three keys.
abbrev pub DistinctEntries : Entries → Type 0
DistinctEntries [] = Unit {0}
DistinctEntries ((d, a) ∷ es) = (find_entry es d a.s_id a.login ≡ none) × DistinctEntries es

abbrev pub AreAbsent : Entries → Store → Type 0
AreAbsent [] s = Unit {0}
AreAbsent ((d, a) ∷ es) s = (lookup s d a.s_id a.login ≡ none) × AreAbsent es s

pub pieces-line :
    (l t : CStr) → All (λ c. (c == b'\n') ≡ false) l → pieces (l ++ b'\n' ∷ t) ≡ l ∷ pieces t
unfolding pieces cons_first
pieces-line [] t h = refl
pieces-line (c ∷ l) t (h, hs) = rw (h, pieces-line l t hs) refl

abbrev pub AreLines : List CStr → Type 0
AreLines [] = Unit {0}
AreLines (l ∷ ls) = IsLine l × AreLines ls

pub lines-text_of : (ls : List CStr) → AreLines ls → lines (text_of ls) ≡ ls
unfolding lines without_empty pieces is_named
lines-text_of [] h = refl
lines-text_of ([] ∷ ls) ((named, clean), hs) = cc named
lines-text_of ((c ∷ l) ∷ ls) ((named, clean), hs) =
    ap without_empty (pieces-line (c ∷ l) (text_of ls) clean)
    ∙ ap (λ r. (c ∷ l) ∷ r) (lines-text_of ls hs)

pub written-AreLines :
    (texts : FileTexts) (n : ℕ) (es : Entries)
    → AreWritten texts n es
    → AreLines (lines_of texts n es)
written-AreLines texts n [] h = tt
written-AreLines texts n ((d, a) ∷ es) ((own, stored, line, parsed), hs) =
    (line, written-AreLines texts (suc n) es hs)

-- The callback of the walk.
abbrev write : FileTexts → ℕ × CStr → CStr × Auth → ℕ × CStr
write texts c e = (suc c.0, c.1 ++ (joined (columns texts (suc c.0) e.0 e.1) ++ b'\n' ∷ []))

pub foldl-write :
    (texts : FileTexts) (n : ℕ) (out : CStr) (es : Entries)
    → (foldl (write texts) (n, out) es).1 ≡ out ++ text_of (lines_of texts n es)
foldl-write texts n out [] = sym (append-nil out)
foldl-write texts n out ((d, a) ∷ es) =
    foldl-write texts (suc n) (out ++ (joined (columns texts (suc n) d a) ++ b'\n' ∷ [])) es
    ∙ append_assoc out (joined (columns texts (suc n) d a) ++ b'\n' ∷ [])
        (text_of (lines_of texts (suc n) es))
    ∙ ap (λ t. out ++ t)
        (append_assoc (joined (columns texts (suc n) d a)) (b'\n' ∷ [])
          (text_of (lines_of texts (suc n) es)))

pub serialize-text_of :
    (texts : FileTexts) (s : Store)
    → auth_db_serialize texts s ≡ text_of (lines_of texts 0 (all_entries s))
unfolding auth_db_serialize auth_write
serialize-text_of texts s =
    ap (λ r. r.0.1) (auth_foreach_all (write texts) (0, []) s)
    ∙ foldl-write texts 0 [] (all_entries s)
