-- ===== src/Auth/Store/Map.antt =====
-- The authentication store of src/auth/auth-basic.c seen as a map from three keys to an entry:
-- each operation changes one entry of the map, whatever the order in which lists are chained.
use mathlib.Core.Option
use rsmp_gatewa.Common.{
  ◌≡◌, refl, Bool, true, false, ◌&&◌, Option, none, some, List, [], arith, CStr, str_eq, str_eq_iff,
  str_eq_refl, if◌then◌else◌, Option-cases, inl, inr, Ldc, find_by, update_by, remove_by,
  find_by-insert, find_by-update_by, find_by-remove_by, DistinctKeys, KeepsKey,
}
use rsmp_gatewa.Auth.Entry.{Auth, login_of}
use rsmp_gatewa.Auth.Store.{
  Store, logins_of, lookup, update_logins, auth_update, ensure_path, auth_insert,
  auth_insert_or_update, auth_delete,
}
use rsmp_gatewa.Auth.Store.Paths.{
  logins_of-update_logins, logins_of-ensure_path, has_site-ensure_path, logins_of-no_site,
}

-- Whether two triples of keys are the same.
abbrev pub same_path : CStr → CStr → CStr → CStr → CStr → CStr → Bool
same_path d i l e j m = (str_eq d e && str_eq i j) && str_eq l m

-- No site has two entries with one login.
abbrev pub IsDistinct : Store → Type 0
IsDistinct s = (d i : CStr) → DistinctKeys login_of (logins_of s d i)

abbrev pub or_else : Option Auth → Auth → Option Auth
or_else none b = some b
or_else (some a) b = some a

abbrev pub is_none : Option Auth → Bool
is_none none = true
is_none (some a) = false

-- The logins of a site after the searches and a change.
pub logins_after :
    (ldc : Ldc) (s : Store) (d i e j : CStr) (f : List Auth → List Auth)
    → logins_of (update_logins d i f (ensure_path ldc d i s)) e j
      ≡ (if str_eq d e && str_eq i j then f (logins_of s d i) else logins_of s e j)
logins_after ldc s d i e j f = rw (
  logins_of-update_logins (ensure_path ldc d i s) d i e j f,
  has_site-ensure_path ldc s d i,
  logins_of-ensure_path ldc s d i d i,
  logins_of-ensure_path ldc s d i e j,
)

lookup_as_find : (s : Store) (d i l : CStr) → lookup s d i l ≡ find_by login_of l (logins_of s d i)
unfolding lookup
lookup_as_find s d i l = refl

-- The entry found in a site after a change there.
lookup-logins_after :
    (ldc : Ldc) (s : Store) (d i e j m : CStr) (f : List Auth → List Auth)
    → lookup (update_logins d i f (ensure_path ldc d i s)) e j m ≡ (
        if str_eq d e && str_eq i j
        then find_by login_of m (f (logins_of s d i))
        else lookup s e j m)
unfolding lookup
lookup-logins_after ldc s d i e j m f = rw (logins_after ldc s d i e j f) (ground arith)

lookup-ensure_path :
    (ldc : Ldc) (s : Store) (d i e j m : CStr)
    → lookup (ensure_path ldc d i s) e j m ≡ lookup s e j m
unfolding lookup
lookup-ensure_path ldc s d i e j m = rw (logins_of-ensure_path ldc s d i e j) refl

find_inserted :
    (ldc : Ldc) (s : Store) (a : Auth) (e j m : CStr)
    → lookup s a.db_id a.s_id a.login ≡ none
    → (if str_eq a.db_id e && str_eq a.s_id j
        then find_by login_of m (ldc.insert a (logins_of s a.db_id a.s_id))
        else lookup s e j m)
      ≡ (if same_path a.db_id a.s_id a.login e j m then some a else lookup s e j m)
unfolding lookup
find_inserted ldc s a e j m h = ground (
  arith,
  str_eq_iff a.db_id e,
  str_eq_iff a.s_id j,
  find_by-insert login_of ldc m a (logins_of s a.db_id a.s_id),
)

find_replaced :
    (ldc : Ldc) (s : Store) (a : Auth) (e j m : CStr)
    → IsDistinct s
    → (if str_eq a.db_id e && str_eq a.s_id j
        then find_by login_of m
            (ldc.insert a (remove_by login_of a.login (logins_of s a.db_id a.s_id)))
        else lookup s e j m)
      ≡ (if same_path a.db_id a.s_id a.login e j m then some a else lookup s e j m)
unfolding lookup
find_replaced ldc s a e j m h = ground (
  arith,
  str_eq_iff a.db_id e,
  str_eq_iff a.s_id j,
  str_eq_refl a.login,
  find_by-remove_by login_of a.login a.login (logins_of s a.db_id a.s_id) (h a.db_id a.s_id),
  find_by-remove_by login_of a.login m (logins_of s a.db_id a.s_id) (h a.db_id a.s_id),
  find_by-insert login_of ldc m a (remove_by login_of a.login (logins_of s a.db_id a.s_id)),
)

find_removed :
    (s : Store) (d i l e j m : CStr)
    → IsDistinct s
    → (if str_eq d e && str_eq i j
        then find_by login_of m (remove_by login_of l (logins_of s d i))
        else lookup s e j m)
      ≡ (if same_path d i l e j m then none else lookup s e j m)
unfolding lookup
find_removed s d i l e j m h = ground (
  arith,
  str_eq_iff d e,
  str_eq_iff i j,
  find_by-remove_by login_of l m (logins_of s d i) (h d i),
)

find_updated :
    (s : Store) (d i l e j m : CStr) (f : Auth → Auth)
    → KeepsKey login_of f
    → (if str_eq d e && str_eq i j
        then find_by login_of m (update_by login_of l f (logins_of s d i))
        else lookup s e j m)
      ≡ (if same_path d i l e j m then Option.map f (lookup s e j m) else lookup s e j m)
unfolding lookup
find_updated s d i l e j m f h =
    ground
      (arith, str_eq_iff d e, str_eq_iff i j, find_by-update_by login_of l m f (logins_of s d i) h)

find_same :
    (s : Store) (d i l e j m : CStr) (old : Auth)
    → lookup s d i l ≡ some old
    → lookup s e j m ≡ (if same_path d i l e j m then some old else lookup s e j m)
find_same s d i l e j m old h = ground (arith, str_eq_iff d e, str_eq_iff i j, str_eq_iff l m)

-- auth_insert adds its entry where the map has none, says so, and changes nothing else: an entry
-- that is there already stays.
pub lookup-auth_insert :
    (ldc : Ldc) (s : Store) (a : Auth) (e j m : CStr)
    → (lookup (auth_insert ldc a s).0 e j m ≡ (
        if same_path a.db_id a.s_id a.login e j m
        then or_else (lookup s a.db_id a.s_id a.login) a
        else lookup s e j m))
      × ((auth_insert ldc a s).1 ≡ is_none (lookup s a.db_id a.s_id a.login))
unfolding auth_insert
lookup-auth_insert ldc s a e j m = elim (Option-cases (lookup s a.db_id a.s_id a.login)) [
  | inl missing ↦
      rw
        (
          auth_insert,
          logins_of-ensure_path ldc s a.db_id a.s_id a.db_id a.s_id,
          ← lookup_as_find s a.db_id a.s_id a.login,
          missing,
        )
        (
          rw (lookup-logins_after ldc s a.db_id a.s_id e j m (ldc.insert a))
              (find_inserted ldc s a e j m missing),
          refl,
        )
  | inr (old, found) ↦
      rw
        (
          auth_insert,
          logins_of-ensure_path ldc s a.db_id a.s_id a.db_id a.s_id,
          ← lookup_as_find s a.db_id a.s_id a.login,
          found,
        )
        (
          rw (lookup-ensure_path ldc s a.db_id a.s_id e j m)
              (find_same s a.db_id a.s_id a.login e j m old found),
          refl,
        )
]

-- auth_insert_or_update puts its entry in the map in place of the one that was there, if any, and
-- changes nothing else, in a store where no site has two entries with one login.
pub lookup-auth_insert_or_update :
    (ldc : Ldc) (s : Store) (a : Auth) (e j m : CStr)
    → IsDistinct s
    → lookup (auth_insert_or_update ldc a s) e j m
      ≡ (if same_path a.db_id a.s_id a.login e j m then some a else lookup s e j m)
unfolding auth_insert_or_update
lookup-auth_insert_or_update ldc s a e j m h =
    rw
      (lookup-logins_after ldc s a.db_id a.s_id e j m
        (λ logins. ldc.insert a (remove_by login_of a.login logins)))
      (find_replaced ldc s a e j m h)

-- A change of the logins of a site without the two searches.
lookup-update_logins :
    (s : Store) (d i e j m : CStr) (f : List Auth → List Auth)
    → f [] ≡ []
    → lookup (update_logins d i f s) e j m ≡ (
        if str_eq d e && str_eq i j
        then find_by login_of m (f (logins_of s d i))
        else lookup s e j m)
unfolding lookup
lookup-update_logins s d i e j m f h =
    rw (logins_of-update_logins s d i e j f) (ground (arith, h, logins_of-no_site s d i))

-- auth_delete_by_key takes the entry of its three keys out of the map and changes nothing else, in
-- a store where no site has two entries with one login.
pub lookup-auth_delete :
    (s : Store) (d i l e j m : CStr)
    → IsDistinct s
    → lookup (auth_delete d i l s) e j m ≡ (if same_path d i l e j m then none else lookup s e j m)
unfolding auth_delete
lookup-auth_delete s d i l e j m h =
    rw (lookup-update_logins s d i e j m (remove_by login_of l) (unfold remove_by in refl))
      (find_removed s d i l e j m h)

-- A change through the pointer that a key finds changes that entry alone, where the change keeps
-- the login.
pub lookup-auth_update :
    (s : Store) (d i l e j m : CStr) (f : Auth → Auth)
    → KeepsKey login_of f
    → lookup (auth_update d i l f s) e j m
      ≡ (if same_path d i l e j m then Option.map f (lookup s e j m) else lookup s e j m)
unfolding auth_update
lookup-auth_update s d i l e j m f h =
    rw (lookup-update_logins s d i e j m (update_by login_of l f) (unfold update_by in refl))
      (find_updated s d i l e j m f h)
