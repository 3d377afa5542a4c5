-- ===== src/Auth/Store/Paths.antt =====
-- The lists of logins under the operations of src/auth/auth-basic.c.
use rsmp_gatewa.Common.{
  str_eq→eq, ◌≡◌, refl, Bool, true, false, ◌&&◌, Option, none, some, List, [], arith, CStr, str_eq,
  str_eq_iff, str_eq_refl, if◌then◌else◌, Bool-cases, inl, inr, Ldc, find_by, update_by,
  find_by-insert, find_by-update_by,
}
use rsmp_gatewa.Auth.Entry.{Auth}
use rsmp_gatewa.Auth.Store.{
  Site, Db, Store, db_key, site_key, logins_or_none, sites_of, logins_of, update_logins,
  auth_db_search, auth_s_id_search, ensure_path,
}

pub is_site : Option Site → Bool
is_site none = false
is_site (some s) = true

-- Whether the store has the site.
unfoldable pub has_site : Store → CStr → CStr → Bool
unfolding is_site
has_site s d i = is_site (find_by site_key i (sites_of s d))

pub is_db : Option Db → Bool
is_db none = false
is_db (some d) = true

sites_of-update_by :
    (s : Store) (d e : CStr) (f : List Site → List Site)
    → sites_of (update_by db_key d (λ db. record db { s_ids = f db.s_ids }) s) e ≡ (
        if str_eq d e
        then (if is_db (find_by db_key e s) then f (sites_of s e) else [])
        else sites_of s e)
unfolding sites_of is_db
sites_of-update_by s d e f =
    rw (find_by-update_by db_key d e (λ db. record db { s_ids = f db.s_ids }) s (λ a. refl))
      (ground arith)

-- The same for a change that leaves no sites as they are.
sites_of-update_keep :
    (s : Store) (d e : CStr) (f : List Site → List Site)
    → f [] ≡ []
    → sites_of (update_by db_key d (λ db. record db { s_ids = f db.s_ids }) s) e
      ≡ (if str_eq d e then f (sites_of s e) else sites_of s e)
unfolding sites_of
sites_of-update_keep s d e f h =
    rw (find_by-update_by db_key d e (λ db. record db { s_ids = f db.s_ids }) s (λ a. refl))
      (ground arith)

logins-update_by :
    (sites : List Site) (i j : CStr) (f : List Auth → List Auth)
    → logins_or_none
        (find_by site_key j (update_by site_key i (λ s. record s { logins = f s.logins }) sites))
      ≡ (if str_eq i j
          then (if is_site (find_by site_key j sites)
              then f (logins_or_none (find_by site_key j sites))
              else [])
          else logins_or_none (find_by site_key j sites))
unfolding is_site
logins-update_by sites i j f =
    rw (find_by-update_by site_key i j (λ s. record s { logins = f s.logins }) sites (λ a. refl))
      (ground arith)

-- A change of the logins of a site shows there and nowhere else.
pub logins_of-update_logins :
    (s : Store) (d i e j : CStr) (f : List Auth → List Auth)
    → logins_of (update_logins d i f s) e j ≡ (
        if str_eq d e && str_eq i j
        then (if has_site s d i then f (logins_of s d i) else [])
        else logins_of s e j)
unfolding logins_of update_logins has_site
logins_of-update_logins s d i e j f =
    rw
      (sites_of-update_keep s d e
        (update_by site_key i (λ site. record site { logins = f site.logins }))
        (unfold update_by in refl))
      (elim (Bool-cases (str_eq d e)) [
        | inl here ↦ rw here (
            ground
              (arith, str_eq→eq d e here, str_eq_iff i j, logins-update_by (sites_of s e) i j f))
        | inr away ↦ rw away refl
      ])

sites_of-auth_db_search :
    (ldc : Ldc) (s : Store) (d e : CStr) → sites_of (auth_db_search ldc d s) e ≡ sites_of s e
unfolding sites_of auth_db_search
sites_of-auth_db_search ldc s d e =
    ground (arith, str_eq_iff d e, find_by-insert db_key ldc e (record { db_id = d; s_ids = [] }) s)

is_db-auth_db_search :
    (ldc : Ldc) (s : Store) (d e : CStr)
    → str_eq d e ≡ true
    → is_db (find_by db_key e (auth_db_search ldc d s)) ≡ true
unfolding auth_db_search is_db
is_db-auth_db_search ldc s d e h =
    ground
      (arith, str_eq→eq d e h, find_by-insert db_key ldc e (record { db_id = d; s_ids = [] }) s)

logins-auth_s_id_search :
    (ldc : Ldc) (sites : List Site) (i j : CStr)
    → logins_or_none (find_by site_key j (auth_s_id_search ldc i sites))
      ≡ logins_or_none (find_by site_key j sites)
unfolding auth_s_id_search
logins-auth_s_id_search ldc sites i j =
    ground (
      arith,
      str_eq_iff i j,
      find_by-insert site_key ldc j (record { s_id = i; logins = [] }) sites,
    )

is_site-auth_s_id_search :
    (ldc : Ldc) (sites : List Site) (i : CStr)
    → is_site (find_by site_key i (auth_s_id_search ldc i sites)) ≡ true
unfolding auth_s_id_search is_site
is_site-auth_s_id_search ldc sites i =
    ground
      (arith, str_eq_refl i, find_by-insert site_key ldc i (record { s_id = i; logins = [] }) sites)

sites_of-ensure_path :
    (ldc : Ldc) (s : Store) (d i e : CStr)
    → sites_of (ensure_path ldc d i s) e
      ≡ (if str_eq d e then auth_s_id_search ldc i (sites_of s e) else sites_of s e)
unfolding ensure_path
sites_of-ensure_path ldc s d i e =
    rw
      (
        sites_of-update_by (auth_db_search ldc d s) d e (auth_s_id_search ldc i),
        sites_of-auth_db_search ldc s d e,
      )
      (ground (arith, is_db-auth_db_search ldc s d e))

-- The two searches create what is missing and change no list of logins.
pub logins_of-ensure_path :
    (ldc : Ldc) (s : Store) (d i e j : CStr)
    → logins_of (ensure_path ldc d i s) e j ≡ logins_of s e j
unfolding logins_of
logins_of-ensure_path ldc s d i e j =
    rw (sites_of-ensure_path ldc s d i e)
      (ground (arith, logins-auth_s_id_search ldc (sites_of s e) i j))

pub has_site-ensure_path :
    (ldc : Ldc) (s : Store) (d i : CStr) → has_site (ensure_path ldc d i s) d i ≡ true
unfolding has_site
has_site-ensure_path ldc s d i =
    rw (sites_of-ensure_path ldc s d i d, str_eq_refl d)
      (is_site-auth_s_id_search ldc (sites_of s d) i)

-- A site that the store does not have has no logins.
pub logins_of-no_site : (s : Store) (d i : CStr) → has_site s d i ≡ false → logins_of s d i ≡ []
unfolding logins_of has_site is_site
logins_of-no_site s d i h = ground arith
