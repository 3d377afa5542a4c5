-- ===== src/Auth/File/Stale.antt =====
-- src/auth/auth-basic.c: the file of the entries is written over the one that is there.
use rsmp_gatewa.Common.{
  ◌≡◌, refl, sym, ap, ◌∙◌, ℕ, suc, ◌+◌, true, Option, [], ◌∷◌, ◌++◌, append_assoc, length, arith,
  CStr, failed,
}
use rsmp_gatewa.Auth.Store.{Store, is_named}
use rsmp_gatewa.Auth.Store.Walk.{all_entries}
use rsmp_gatewa.Auth.File.{
  FileTexts, columns, joined, auth_db_serialize, overwritten, auth_serialize_to_file,
}
use rsmp_gatewa.Auth.File.Entries.{Entries}
use rsmp_gatewa.Auth.File.Text.{lines_of, text_of, serialize-text_of}

overwritten_same : (p q : CStr) → overwritten p (p ++ q) ≡ p ++ q
unfolding overwritten
overwritten_same [] q = refl
overwritten_same (c ∷ p) q = ap (λ r. c ∷ r) (overwritten_same p q)

text_of-append :
    (texts : FileTexts) (n : ℕ) (xs ys : Entries)
    → text_of (lines_of texts n (xs ++ ys))
      ≡ text_of (lines_of texts n xs) ++ text_of (lines_of texts (n + length xs) ys)
text_of-append texts n [] ys =
    let same : n ≡ n + 0 = omega arith in ap (λ k. text_of (lines_of texts k ys)) same
text_of-append texts n ((d, a) ∷ xs) ys =
    let same : suc n + length xs ≡ n + suc (length xs) = omega arith in
    let line : CStr = joined (columns texts (suc n) d a) in
    ap (λ t. line ++ b'\n' ∷ t) (text_of-append texts (suc n) xs ys)
    ∙ sym (
        append_assoc line (b'\n' ∷ text_of (lines_of texts (suc n) xs))
          (text_of (lines_of texts (suc n + length xs) ys)))
    ∙ ap
        (λ k.
          (line ++ b'\n' ∷ text_of (lines_of texts (suc n) xs)) ++ text_of (lines_of texts k ys))
        same

-- Where the entries of a store are the first of those of another, a file of the other is not changed
-- when the store is written to it: it still has the lines of the entries that are gone.
pub auth_serialize_to_file_stale :
    (texts : FileTexts) (fname : Option CStr) (s t : Store) (gone : Entries)
    → is_named fname ≡ true
    → all_entries t ≡ all_entries s ++ gone
    → auth_serialize_to_file texts fname true s (auth_db_serialize texts t)
      ≡ (auth_db_serialize texts t, failed)
unfolding auth_serialize_to_file
auth_serialize_to_file_stale texts fname s t gone named more =
    let before : CStr = text_of (lines_of texts 0 (all_entries s)) in
    let rest : CStr = text_of (lines_of texts (0 + length (all_entries s)) gone) in
    let all : auth_db_serialize texts t ≡ before ++ rest =
      serialize-text_of texts t
      ∙ ap (λ es. text_of (lines_of texts 0 es)) more
      ∙ text_of-append texts 0 (all_entries s) gone in
    rw (named, serialize-text_of texts s, all, overwritten_same before rest) refl
