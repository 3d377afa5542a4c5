-- ===== src/Auth/Store/Walk.antt =====
-- src/auth/auth-basic.c: the walks over the tree of entries. A callback gives its new context and
-- whether it goes on; the null fields of a key are `none`.
pub mod Preserve
use rsmp_gatewa.Common.{
  ◌≡◌, refl, ◌∙◌, ℕ, suc, ◌+◌, Bool, true, false, Option, none, some, List, [], ◌∷◌, ◌++◌, arith,
  CStr, str_eq, str_eq_sym, str_eq_refl, if◌then◌else◌, length, length-append, last, foldl, find_by,
  DistinctKeys,
}
use rsmp_gatewa.Auth.Entry.{Key, Auth, login_of}
use rsmp_gatewa.Auth.Store.{Site, Store, db_key, site_key, sites_or_none, logins_or_none, logins_of}

-- What a key selects in a list: the item with this text, or the last one.
abbrev pub select : {A : Type 0} → (A → CStr) → Option CStr → List A → Option A
select key none l = last l
select key (some k) l = find_by key k l

-- The login of the key is not looked at.
unfoldable pub auth_get_first : Store → Key → Option Auth
auth_get_first s key =
    last (logins_or_none (select site_key key.s_id (sites_or_none (select db_key key.db_id s))))

-- The login after this one in its list, none behind the last.
unfoldable pub following : CStr → List Auth → Option Auth
following l [] = none
following l (a ∷ []) = none
following l (a ∷ b ∷ rest) = if str_eq a.login l then some b else following l (b ∷ rest)

-- The head of the list, if it is not this login.
unfoldable pub first_other : CStr → List Auth → Option Auth
first_other l [] = none
first_other l (a ∷ rest) = if str_eq a.login l then none else some a

abbrev pub some_or : Option Auth → Option Auth → Option Auth
some_or none o = o
some_or (some a) o = some a

-- The next login of the site of an entry, from its last to its first.
unfoldable pub auth_get_next_from_auth : Store → Auth → Option Auth
unfolding following first_other
auth_get_next_from_auth s auth =
    let logins = logins_of s auth.db_id auth.s_id in
    some_or (following auth.login logins) (first_other auth.login logins)

module _ {C : Type 0} (fct : C → CStr → Auth → C × Bool) where
  -- The context, and how many calls went on.
  unfoldable pub auth_foreach_login : C → CStr → List Auth → C × ℕ
  auth_foreach_login c db_id [] = (c, 0)
  auth_foreach_login c db_id (a ∷ rest) =
      let (c', more) = fct c db_id a in
      let (c'', n) = auth_foreach_login c' db_id rest in if more then (c'', suc n) else (c', 0)

  unfoldable pub auth_foreach_sites : C → CStr → List Site → C × ℕ
  unfolding auth_foreach_login
  auth_foreach_sites c db_id [] = (c, 0)
  auth_foreach_sites c db_id (s ∷ ss) =
      let (c', n) = auth_foreach_login c db_id s.logins in
      let (c'', m) = auth_foreach_sites c' db_id ss in (c'', n + m)

  unfoldable pub auth_foreach_s_id : C → CStr → Option CStr → List Site → C × ℕ
  unfolding auth_foreach_login auth_foreach_sites
  auth_foreach_s_id c db_id none sites = auth_foreach_sites c db_id sites
  auth_foreach_s_id c db_id (some i) sites = elim (find_by site_key i sites) [
    | none ↦ (c, 0)
    | some s ↦ auth_foreach_login c db_id s.logins
  ]

  unfoldable pub auth_foreach_dbs : C → Option CStr → Store → C × ℕ
  unfolding auth_foreach_s_id
  auth_foreach_dbs c s_id [] = (c, 0)
  auth_foreach_dbs c s_id (d ∷ ds) =
      let (c', n) = auth_foreach_s_id c d.db_id s_id d.s_ids in
      let (c'', m) = auth_foreach_dbs c' s_id ds in (c'', n + m)

  unfoldable pub auth_foreach : C → Option CStr → Option CStr → Store → C × ℕ
  unfolding auth_foreach_s_id auth_foreach_dbs
  auth_foreach c none s_id s = auth_foreach_dbs c s_id s
  auth_foreach c (some d) s_id s = elim (find_by db_key d s) [
    | none ↦ (c, 0)
    | some db ↦ auth_foreach_s_id c db.db_id s_id db.s_ids
  ]

-- Each login with the name of its database, in the order of the walk.
abbrev pub tagged : CStr → List Auth → List (CStr × Auth)
tagged d [] = []
tagged d (a ∷ rest) = (d, a) ∷ tagged d rest

abbrev pub site_entries : CStr → List Site → List (CStr × Auth)
site_entries d [] = []
site_entries d (s ∷ ss) = tagged d s.logins ++ site_entries d ss

abbrev pub all_entries : Store → List (CStr × Auth)
all_entries [] = []
all_entries (d ∷ ds) = site_entries d.db_id d.s_ids ++ all_entries ds

foldl-append :
    {C : Type 0} (g : C → CStr × Auth → C) (c : C) (xs ys : List (CStr × Auth))
    → foldl g c (xs ++ ys) ≡ foldl g (foldl g c xs) ys
foldl-append g c [] ys = refl
foldl-append g c (x ∷ xs) ys = foldl-append g (g c x) xs ys

-- A callback that always goes on.
abbrev pub steady : {C : Type 0} → (C → CStr × Auth → C) → C → CStr → Auth → C × Bool
steady g c d a = (g c (d, a), true)

foreach_login_steady :
    {C : Type 0} (g : C → CStr × Auth → C) (c : C) (d : CStr) (l : List Auth)
    → auth_foreach_login (steady g) c d l ≡ (foldl g c (tagged d l), length (tagged d l))
unfolding auth_foreach_login
foreach_login_steady g c d [] = refl
foreach_login_steady g c d (a ∷ rest) = rw (foreach_login_steady g (g c (d, a)) d rest) refl

foreach_sites_steady :
    {C : Type 0} (g : C → CStr × Auth → C) (c : C) (d : CStr) (l : List Site)
    → auth_foreach_sites (steady g) c d l
      ≡ (foldl g c (site_entries d l), length (site_entries d l))
unfolding auth_foreach_sites
foreach_sites_steady g c d [] = refl
foreach_sites_steady g c d (s ∷ ss) =
    rw
      (
        foreach_login_steady g c d s.logins,
        foreach_sites_steady g (foldl g c (tagged d s.logins)) d ss,
        foldl-append g c (tagged d s.logins) (site_entries d ss),
        length-append (tagged d s.logins) (site_entries d ss),
      )
      refl

foreach_dbs_steady :
    {C : Type 0} (g : C → CStr × Auth → C) (c : C) (s : Store)
    → auth_foreach_dbs (steady g) c none s ≡ (foldl g c (all_entries s), length (all_entries s))
unfolding auth_foreach_dbs auth_foreach_s_id
foreach_dbs_steady g c [] = refl
foreach_dbs_steady g c (d ∷ ds) =
    rw
      (
        foreach_sites_steady g c d.db_id d.s_ids,
        foreach_dbs_steady g (foldl g c (site_entries d.db_id d.s_ids)) ds,
        foldl-append g c (site_entries d.db_id d.s_ids) (all_entries ds),
        length-append (site_entries d.db_id d.s_ids) (all_entries ds),
      )
      refl

-- auth_foreach without a database and a site calls a callback that always goes on once for each entry
-- of the store, in order, and returns their number.
pub auth_foreach_all :
    {C : Type 0} (g : C → CStr × Auth → C) (c : C) (s : Store)
    → auth_foreach (steady g) c none none s ≡ (foldl g c (all_entries s), length (all_entries s))
unfolding auth_foreach
auth_foreach_all g c s = foreach_dbs_steady g c s

abbrev pub head : List Auth → Option Auth
head [] = none
head (a ∷ rest) = some a

not_in_middle :
    (pre post : List Auth) (a : Auth) (l : CStr)
    → find_by login_of l (pre ++ a ∷ post) ≡ none
    → str_eq a.login l ≡ false
unfolding find_by
not_in_middle [] post a l h = ground arith
not_in_middle (p ∷ pre) post a l h = ground (arith, not_in_middle pre post a l)

following_skip :
    (p : Auth) (pre post : List Auth) (a : Auth) (l : CStr)
    → str_eq p.login l ≡ false
    → following l (p ∷ pre ++ a ∷ post) ≡ following l (pre ++ a ∷ post)
unfolding following
following_skip p [] post a l h = rw h refl
following_skip p (q ∷ pre) post a l h = rw h refl

following_here :
    (post : List Auth) (a : Auth)
    → DistinctKeys login_of (a ∷ post)
    → following a.login (a ∷ post) ≡ head post
unfolding following
following_here [] a h = refl
following_here (b ∷ post) a h = rw (str_eq_refl a.login) refl

following-middle :
    (pre post : List Auth) (a : Auth)
    → DistinctKeys login_of (pre ++ a ∷ post)
    → following a.login (pre ++ a ∷ post) ≡ head post
following-middle [] post a h = following_here post a h
following-middle (p ∷ pre) post a h =
    following_skip p pre post a a.login
      (str_eq_sym p.login a.login ∙ not_in_middle pre post a p.login h.0)
    ∙ following-middle pre post a h.1

first_other-middle :
    (pre post : List Auth) (a : Auth)
    → DistinctKeys login_of (pre ++ a ∷ post)
    → first_other a.login (pre ++ a ∷ post) ≡ head pre
unfolding first_other
first_other-middle [] post a h = rw (str_eq_refl a.login) refl
first_other-middle (p ∷ pre) post a h =
    rw (str_eq_sym p.login a.login, not_in_middle pre post a p.login h.0) refl

round : (post pre : List Auth) → some_or (head post) (head pre) ≡ head (post ++ pre)
round [] pre = refl
round (a ∷ post) pre = refl

-- auth_get_next_from_auth goes round the logins of a site: it gives the entry behind this one, behind
-- the last one the first, and none where there is no other, if no two entries have one login.
pub auth_get_next_from_auth_circular :
    (s : Store) (a : Auth) (pre post : List Auth)
    → logins_of s a.db_id a.s_id ≡ pre ++ a ∷ post
    → DistinctKeys login_of (logins_of s a.db_id a.s_id)
    → auth_get_next_from_auth s a ≡ head (post ++ pre)
unfolding auth_get_next_from_auth
auth_get_next_from_auth_circular s a pre post e h =
    rw (e, following-middle pre post a (rw (← e) h), first_other-middle pre post a (rw (← e) h))
      (round post pre)
