-- ===== src/Rsmp/Versions/Agree.antt =====
-- src/rsmp/fields/RSMP.c and eSXLG.c: what the comparison of two lists of versions gives.
use rsmp_gatewa.Common.{
  ◌≡◌, refl, ◌∙◌, ℕ, Bool, true, false, ◌||◌, Option, none, some, List, [], ◌∷◌, ltb, ◌==◌,
  if◌then◌else◌, arith, CStr, returned, fault, Bool-cases, inl, inr,
}
use rsmp_gatewa.Rsmp.Versions.{
  strcmp_lt, is_less, greatest, search_local, rsmps_check, Sxlg, sg_count, local_rounds,
  remote_greatest, remote_rounds, sg_rounds, e_sxlgs_check,
}

strcmp_lt_irrefl : (s : CStr) → strcmp_lt s s ≡ false
unfolding strcmp_lt
strcmp_lt_irrefl [] = refl
strcmp_lt_irrefl (a ∷ s) = ground (arith, strcmp_lt_irrefl s)

strcmp_lt_trans :
    (s t u : CStr) → strcmp_lt s t ≡ true → strcmp_lt t u ≡ true → strcmp_lt s u ≡ true
unfolding strcmp_lt
strcmp_lt_trans [] [] u h k = cc h
strcmp_lt_trans [] (b ∷ t) [] h k = cc k
strcmp_lt_trans [] (b ∷ t) (c ∷ u) h k = refl
strcmp_lt_trans (a ∷ s) [] u h k = cc h
strcmp_lt_trans (a ∷ s) (b ∷ t) [] h k = cc k
strcmp_lt_trans (a ∷ s) (b ∷ t) (c ∷ u) h k = ground (arith, strcmp_lt_trans s t u)

-- The greatest of some versions.
unfoldable pub maximum : CStr → List CStr → CStr
maximum m [] = m
maximum m (v ∷ vs) = maximum (if strcmp_lt m v then v else m) vs

unfoldable pub any_greater : CStr → List CStr → Bool
any_greater m [] = false
any_greater m (v ∷ vs) = strcmp_lt m v || any_greater m vs

abbrev pub present : List CStr → List (Option CStr)
present [] = []
present (v ∷ vs) = some v ∷ present vs

greatest-maximum :
    (m : CStr) (vs : List CStr) → greatest (some m) (present vs) ≡ returned (some (maximum m vs))
unfolding greatest maximum is_less
greatest-maximum m [] = refl
greatest-maximum m (v ∷ vs) = elim (Bool-cases (strcmp_lt m v)) [
  | inl less ↦ rw less (greatest-maximum v vs)
  | inr not_less ↦ rw not_less (greatest-maximum m vs)
]

search-any_greater :
    (m : CStr) (vs : List CStr)
    → search_local (some m) (present vs) ≡ returned (if any_greater m vs then some m else none)
unfolding search_local any_greater is_less
search-any_greater m [] = refl
search-any_greater m (v ∷ vs) = elim (Bool-cases (strcmp_lt m v)) [
  | inl less ↦ rw less refl
  | inr not_less ↦ rw not_less (search-any_greater m vs)
]

-- What is not below something is not below what is above it.
not_below :
    (m v w : CStr) → strcmp_lt m w ≡ false → strcmp_lt (if strcmp_lt m v then v else m) w ≡ false
not_below m v w h = elim (Bool-cases (strcmp_lt m v)) [
  | inl less ↦ rw less (elim (Bool-cases (strcmp_lt v w)) [
    | inl above ↦ cc (strcmp_lt_trans m v w less above, h)
    | inr fine ↦ fine
  ])
  | inr not_less ↦ rw not_less h
]

maximum-not_below :
    (m w : CStr) (vs : List CStr) → strcmp_lt m w ≡ false → strcmp_lt (maximum m vs) w ≡ false
unfolding maximum
maximum-not_below m w [] h = h
maximum-not_below m w (v ∷ vs) h =
    maximum-not_below (if strcmp_lt m v then v else m) w vs (not_below m v w h)

own_not_below : (m v : CStr) → strcmp_lt (if strcmp_lt m v then v else m) v ≡ false
own_not_below m v = elim (Bool-cases (strcmp_lt m v)) [
  | inl less ↦ rw less (strcmp_lt_irrefl v)
  | inr not_less ↦ rw not_less not_less
]

none_above : (m : CStr) (vs : List CStr) → any_greater (maximum m vs) vs ≡ false
unfolding any_greater maximum
none_above m [] = refl
none_above m (v ∷ vs) =
    rw (maximum-not_below (if strcmp_lt m v then v else m) v vs (own_not_below m v))
      (none_above (if strcmp_lt m v then v else m) vs)

-- No version of the list is above its greatest.
maximum-IsGreatest : (m : CStr) (vs : List CStr) → any_greater (maximum m vs) (m ∷ vs) ≡ false
unfolding any_greater
maximum-IsGreatest m vs = rw (maximum-not_below m m vs (strcmp_lt_irrefl m)) (none_above m vs)

-- rsmp_array_RSMPs_check gives the greatest remote version where some local version is above it, and
-- nothing where none is; no remote version is above the greatest one.
pub rsmps_check_lem :
    (l r : CStr) (ls rs : List CStr)
    → (rsmps_check (some (present (l ∷ ls))) (some (present (r ∷ rs)))
        ≡ returned (if any_greater (maximum r rs) (l ∷ ls) then some (maximum r rs) else none))
      × (any_greater (maximum r rs) (r ∷ rs) ≡ false)
unfolding rsmps_check
rsmps_check_lem l r ls rs = (
  rw (greatest-maximum r rs) (search-any_greater (maximum r rs) (l ∷ ls)),
  maximum-IsGreatest r rs,
)

-- Two sites that have the same versions get no version out of rsmp_array_RSMPs_check.
pub rsmps_check_same :
    (vs : List CStr) → rsmps_check (some (present vs)) (some (present vs)) ≡ returned none
unfolding rsmps_check
rsmps_check_same [] = refl
rsmps_check_same (v ∷ vs) = (rsmps_check_lem v v vs vs).0 ∙ rw (maximum-IsGreatest v vs) refl

-- Where the first local item is of another list, the rounds do nothing.
local_quiet :
    (i : ℕ) (l : Sxlg) (m : Option CStr) (ls : List Sxlg)
    → (l.sg == i) ≡ false
    → local_rounds i l m ls ≡ returned tt
unfolding local_rounds
local_quiet i l m [] h = refl
local_quiet i l m (x ∷ ls) h = rw h (local_quiet i l m ls h)

remote_quiet :
    (i : ℕ) (l r : Sxlg) (ls : List Sxlg) (m : Option CStr) (rs : List Sxlg)
    → (r.sg == i) ≡ false
    → (l.sg == i) ≡ false
    → remote_rounds i l r ls m rs ≡ returned tt
unfolding remote_rounds remote_greatest
remote_quiet i l r ls m [] h k = refl
remote_quiet i l r ls m (x ∷ rs) h k =
    rw (h, local_quiet i l m (l ∷ ls) k) (remote_quiet i l r ls m rs h k)

-- The rounds of one list: a null pointer is compared as soon as a first item is of it.
remote_rounds-first :
    (i : ℕ) (l r : Sxlg) (ls rs : List Sxlg)
    → remote_rounds i l r ls none (r ∷ rs)
      ≡ (if (r.sg == i) || (l.sg == i) then fault else returned tt)
unfolding remote_rounds remote_greatest local_rounds is_less
remote_rounds-first i l r ls rs = elim (Bool-cases (r.sg == i)) [
  | inl here ↦ rw here refl
  | inr away ↦ elim (Bool-cases (l.sg == i)) [
    | inl here ↦ rw (away, here) refl
    | inr away' ↦
        rw (away, away', local_quiet i l none ls away') (remote_quiet i l r ls none rs away away')
  ]
]

-- rsmp_array_eSXLGs_check of two lists with items follows a null pointer wherever the first item of
-- either is of a signal exchange list that there is, and gives nothing otherwise.
pub e_sxlgs_check_lem :
    (l r : Sxlg) (ls rs : List Sxlg)
    → e_sxlgs_check (some (l ∷ ls)) (some (r ∷ rs))
      ≡ (if ltb r.sg sg_count || ltb l.sg sg_count then fault else returned none)
unfolding e_sxlgs_check sg_rounds
e_sxlgs_check_lem l r ls rs =
    rw
      (
        remote_rounds-first 0 l r ls rs,
        remote_rounds-first 1 l r ls rs,
        remote_rounds-first 2 l r ls rs,
        remote_rounds-first 3 l r ls rs,
      )
      (ground arith)
