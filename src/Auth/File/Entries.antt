-- ===== src/Auth/File/Entries.antt =====
-- src/auth/auth-basic.c: an entry that the keys find is the one that the walk meets.
use rsmp_gatewa.Common.{
  ◌≡◌, refl, sym, ap, ◌∙◌, Bool, true, false, ◌&&◌, Option, none, some, List, [], ◌∷◌, ◌++◌, All,
  if◌then◌else◌, arith, CStr, str_eq, str_eq→eq, Bool-cases, inl, inr, find_by, DistinctKeys,
}
use rsmp_gatewa.Auth.Entry.{Auth, login_of}
use rsmp_gatewa.Auth.Store.{
  Db, Site, Store, db_key, site_key, sites_or_none, logins_or_none, sites_of, logins_of, lookup,
}
use rsmp_gatewa.Auth.Store.Map.{same_path}
use rsmp_gatewa.Auth.Store.Walk.{tagged, site_entries, all_entries}

abbrev pub Entries : Type 0
Entries = List (CStr × Auth)

-- The first entry with these three keys.
abbrev pub find_entry : Entries → CStr → CStr → CStr → Option Auth
find_entry [] e j m = none
find_entry ((d, a) ∷ es) e j m =
    let rest = find_entry es e j m in if same_path d a.s_id a.login e j m then some a else rest

-- Each entry is under its own site; no database has two sites of one name, and no two databases have
-- one name.
abbrev pub AreOwn : List Site → Type 0
AreOwn [] = Unit {0}
AreOwn (s ∷ ss) = All (λ a. a.s_id ≡ s.s_id) s.logins × AreOwn ss

abbrev pub IsTree : Store → Type 0
IsTree [] = Unit {0}
IsTree (d ∷ ds) =
    (find_by db_key d.db_id ds ≡ none)
    × (DistinctKeys site_key d.s_ids × AreOwn d.s_ids)
    × IsTree ds

abbrev first_of : Option Auth → Option Auth → Option Auth
first_of none o = o
first_of (some a) o = some a

find_entry-append :
    (xs ys : Entries) (e j m : CStr)
    → find_entry (xs ++ ys) e j m ≡ first_of (find_entry xs e j m) (find_entry ys e j m)
find_entry-append [] ys e j m = refl
find_entry-append ((d, a) ∷ xs) ys e j m = elim (Bool-cases (same_path d a.s_id a.login e j m)) [
  | inl here ↦ rw here refl
  | inr away ↦ rw away (find_entry-append xs ys e j m)
]

find_entry-tagged :
    (d i : CStr) (logins : List Auth) (e j m : CStr)
    → All (λ a. a.s_id ≡ i) logins
    → find_entry (tagged d logins) e j m
      ≡ (if str_eq d e && str_eq i j then find_by login_of m logins else none)
unfolding find_by
find_entry-tagged d i [] e j m h = ground arith
find_entry-tagged d i (a ∷ logins) e j m (own, hs) =
    rw (own, find_entry-tagged d i logins e j m hs) (ground arith)

abbrev found_in : CStr → Option Site → Option Auth
found_in m site = find_by login_of m (logins_or_none site)

-- Of two lists of which the second has no more of that key.
first_of_alone :
    (b c : Bool) (x y : Option Auth)
    → (c ≡ true → y ≡ none)
    → first_of (if b && c then x else none) (if b then y else none)
      ≡ (if b then (if c then x else y) else none)
first_of_alone false c x y h = refl
first_of_alone true true none y h = h refl
first_of_alone true true (some a) y h = refl
first_of_alone true false x y h = refl

chosen_site :
    (m : CStr) (c : Bool) (s : Site) (o : Option Site)
    → (if c then find_by login_of m s.logins else found_in m o)
      ≡ found_in m (if c then some s else o)
chosen_site m true s o = refl
chosen_site m false s o = refl

find_entry-site_entries :
    (d : CStr) (sites : List Site) (e j m : CStr)
    → DistinctKeys site_key sites
    → AreOwn sites
    → find_entry (site_entries d sites) e j m
      ≡ (if str_eq d e then found_in m (find_by site_key j sites) else none)
unfolding find_by
find_entry-site_entries d [] e j m h own = ground arith
find_entry-site_entries d (s ∷ ss) e j m (new, hs) (own, owns) =
    find_entry-append (tagged d s.logins) (site_entries d ss) e j m
    ∙ rw (find_entry-tagged d s.s_id s.logins e j m own, find_entry-site_entries d ss e j m hs owns)
        (first_of_alone (str_eq d e) (str_eq s.s_id j) (find_by login_of m s.logins)
          (found_in m (find_by site_key j ss)) (λ same. rw (← str_eq→eq s.s_id j same, new) refl))
    ∙ ap (λ o. if str_eq d e then o else none)
        (chosen_site m (str_eq s.s_id j) s (find_by site_key j ss))

abbrev found_under : CStr → CStr → Option Db → Option Auth
found_under j m db = found_in m (find_by site_key j (sites_or_none db))

first_alone :
    (b : Bool) (x y : Option Auth)
    → (b ≡ true → y ≡ none)
    → first_of (if b then x else none) y ≡ (if b then x else y)
first_alone true none y h = h refl
first_alone true (some a) y h = refl
first_alone false x y h = refl

chosen_db :
    (j m : CStr) (b : Bool) (d : Db) (o : Option Db)
    → (if b then found_under j m (some d) else found_under j m o)
      ≡ found_under j m (if b then some d else o)
chosen_db j m true d o = refl
chosen_db j m false d o = refl

find_entry-dbs :
    (s : Store) (e j m : CStr)
    → IsTree s
    → find_entry (all_entries s) e j m ≡ found_under j m (find_by db_key e s)
unfolding find_by
find_entry-dbs [] e j m h = refl
find_entry-dbs (d ∷ ds) e j m (new, (sites, own), hs) =
    find_entry-append (site_entries d.db_id d.s_ids) (all_entries ds) e j m
    ∙ rw (find_entry-site_entries d.db_id d.s_ids e j m sites own, find_entry-dbs ds e j m hs)
        (first_alone (str_eq d.db_id e) (found_under j m (some d))
          (found_under j m (find_by db_key e ds))
          (λ same. rw (← str_eq→eq d.db_id e same, new) refl))
    ∙ chosen_db j m (str_eq d.db_id e) d (find_by db_key e ds)

-- What the keys find in a store whose names are distinct is the first entry with them that the walk
-- meets.
pub lookup-all_entries :
    (s : Store) (e j m : CStr) → IsTree s → lookup s e j m ≡ find_entry (all_entries s) e j m
unfolding lookup logins_of sites_of
lookup-all_entries s e j m h = sym (find_entry-dbs s e j m h)
