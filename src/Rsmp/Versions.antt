-- ===== src/Rsmp/Versions.antt =====
-- src/rsmp/fields/RSMP.c, eSXLG.c and siteId.c, with string_concat of src/rsmp/utils/strings.c: the
-- lists of versions and sites that the Version message carries, and how two lists are compared.
-- A list that is a null pointer is `none`, and so is a text that is one.
pub mod Agree
mod Examples
use rsmp_gatewa.Common.{
  ℕ, zero, suc, Bool, true, false, Option, none, some, List, [], ◌∷◌, ◌++◌, ltb, ◌==◌,
  if◌then◌else◌, CStr, codes, Outcome, returned, fault, ◌>>=◌, ◌>>◌,
}

-- `strcmp(s, t) < 0`
unfoldable pub strcmp_lt : CStr → CStr → Bool
strcmp_lt [] [] = false
strcmp_lt [] (b ∷ t) = true
strcmp_lt (a ∷ s) [] = false
strcmp_lt (a ∷ s) (b ∷ t) = let rest = strcmp_lt s t in if a == b then rest else ltb a b

-- strcmp follows both pointers.
unfoldable pub is_less : Option CStr → Option CStr → Outcome Bool
unfolding strcmp_lt
is_less none t = fault
is_less (some s) none = fault
is_less (some s) (some t) = returned (strcmp_lt s t)

-- The loop over the remote versions, with the greatest so far.
unfoldable pub greatest : Option CStr → List (Option CStr) → Outcome (Option CStr)
unfolding is_less
greatest m [] = returned m
greatest m (v ∷ vs) = is_less m v >>= λ less. greatest (if less then v else m) vs

-- The loop over the local versions.
unfoldable pub search_local : Option CStr → List (Option CStr) → Outcome (Option CStr)
unfolding is_less
search_local m [] = returned none
search_local m (v ∷ vs) =
    is_less m v >>= λ less. let rest = search_local m vs in if less then returned m else rest

unfoldable pub rsmps_check :
    Option (List (Option CStr)) → Option (List (Option CStr)) → Outcome (Option CStr)
unfolding greatest search_local
rsmps_check none remote = returned none
rsmps_check (some local) none = returned none
rsmps_check (some []) (some remote) = returned none
rsmps_check (some (l ∷ ls)) (some []) = returned none
rsmps_check (some (l ∷ ls)) (some (r ∷ rs)) = greatest r rs >>= λ m. search_local m (l ∷ ls)

-- rsmp_msg_eSXLG
pub record Sxlg : Type 0 where
  pub vers : Option CStr
  pub sg : ℕ

-- _rsmp_sg_no_
abbrev pub sg_count : ℕ
sg_count = 4

-- Every round looks at the first item, since `i` is never counted. What is put together of the texts
-- is lost: the result of string_concat is not kept, so that vers_cumulative stays null.
unfoldable pub local_rounds : ℕ → Sxlg → Option CStr → List Sxlg → Outcome (Unit {0})
unfolding is_less
local_rounds i first m [] = returned tt
local_rounds i first m (l ∷ ls) =
    let rest = local_rounds i first m ls in
    if first.sg == i then (is_less m first.vers >>= λ less. rest) else rest

unfoldable pub remote_greatest : ℕ → Sxlg → Option CStr → Outcome (Option CStr)
unfolding is_less
remote_greatest i first m =
    if first.sg == i
    then (is_less m first.vers >>= λ less. returned (if less then first.vers else m))
    else returned m

unfoldable pub remote_rounds :
    ℕ → Sxlg → Sxlg → List Sxlg → Option CStr → List Sxlg → Outcome (Unit {0})
unfolding remote_greatest local_rounds
remote_rounds i local remote ls m [] = returned tt
remote_rounds i local remote ls m (r ∷ rs) = remote_greatest i remote m >>= λ m'.
    local_rounds i local m' (local ∷ ls) >> remote_rounds i local remote ls m' rs

-- This many values of i_sg, from this one.
unfoldable pub sg_rounds : ℕ → ℕ → Sxlg → List Sxlg → Sxlg → List Sxlg → Outcome (Unit {0})
unfolding remote_rounds
sg_rounds zero i l ls r rs = returned tt
sg_rounds (suc k) i l ls r rs =
    remote_rounds i l r ls none (r ∷ rs) >> sg_rounds k (suc i) l ls r rs

unfoldable pub e_sxlgs_check : Option (List Sxlg) → Option (List Sxlg) → Outcome (Option CStr)
unfolding sg_rounds
e_sxlgs_check none remote = returned none
e_sxlgs_check (some local) none = returned none
e_sxlgs_check (some []) (some remote) = returned none
e_sxlgs_check (some (l ∷ ls)) (some []) = returned none
e_sxlgs_check (some (l ∷ ls)) (some (r ∷ rs)) = sg_rounds sg_count 0 l ls r rs >> returned none

unfoldable pub string_concat : Option CStr → Option CStr → Option CStr
string_concat dest none = dest
string_concat none (some src) = some src
string_concat (some d) (some src) = some (d ++ src)

unfoldable pub sep_or_comma : Option CStr → CStr
sep_or_comma none = codes ", "
sep_or_comma (some sep) = sep

-- The loop of the three functions _to_string.
unfoldable pub texts_to_string : CStr → Option CStr → List (Option CStr) → Option CStr
unfolding string_concat
texts_to_string sep out [] = out
texts_to_string sep out (v ∷ []) = string_concat out v
texts_to_string sep out (v ∷ w ∷ vs) =
    texts_to_string sep (string_concat (string_concat out v) (some sep)) (w ∷ vs)

unfoldable pub rsmps_to_string : List (Option CStr) → Option CStr → Option CStr → Option CStr
unfolding sep_or_comma texts_to_string
rsmps_to_string items sep out = texts_to_string (sep_or_comma sep) out items

-- The versions of the signal exchange lists, each behind the text of its list, which is null for a
-- number that is none of them.
unfoldable pub sxlg_texts : (ℕ → Option CStr) → List Sxlg → List (Option CStr)
sxlg_texts text [] = []
sxlg_texts text (s ∷ ss) = text s.sg ∷ s.vers ∷ sxlg_texts text ss

unfoldable pub e_sxlgs_to_string :
    (ℕ → Option CStr) → List Sxlg → Option CStr → Option CStr → Option CStr
unfolding sep_or_comma texts_to_string sxlg_texts
e_sxlgs_to_string text items sep out =
    texts_to_string (sep_or_comma sep) out (sxlg_texts text items)
