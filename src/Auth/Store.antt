-- ===== src/Auth/Store.antt =====
-- src/auth/auth-basic.c: the tree of databases, sites and logins. A pointer to an entry is the path
-- of its three keys: a change through it is `auth_update`. Locks are held by each operation as a
-- whole, allocation never fails, and the library that chains the lists is the parameter `ldc`.
pub mod Paths
pub mod Map
pub mod Reach
pub mod Assign
pub mod Walk
use rsmp_gatewa.Common.{
  ℕ, Bool, true, false, ◌&&◌, Option, none, some, List, [], ◌∷◌, CStr, if◌then◌else◌, Ldc, find_by,
  update_by, remove_by,
}
use rsmp_gatewa.Auth.Entry.{Key, Auth, login_of, auth_body, auth_secret_delete}

-- auth_sIds_t
pub record Site : Type 0 where
  pub s_id : CStr
  pub logins : List Auth

-- auth_db_t
pub record Db : Type 0 where
  pub db_id : CStr
  pub s_ids : List Site

abbrev pub Store : Type 0
Store = List Db

abbrev pub db_key : Db → CStr
db_key d = d.db_id

abbrev pub site_key : Site → CStr
site_key s = s.s_id

abbrev pub sites_or_none : Option Db → List Site
sites_or_none none = []
sites_or_none (some d) = d.s_ids

abbrev pub logins_or_none : Option Site → List Auth
logins_or_none none = []
logins_or_none (some s) = s.logins

unfoldable pub sites_of : Store → CStr → List Site
sites_of s d = sites_or_none (find_by db_key d s)

-- The logins under a database and a site, none where one of them is missing.
unfoldable pub logins_of : Store → CStr → CStr → List Auth
logins_of s d i = logins_or_none (find_by site_key i (sites_of s d))

-- auth_find_by_key on a key with no null field.
unfoldable pub lookup : Store → CStr → CStr → CStr → Option Auth
lookup s d i l = find_by login_of l (logins_of s d i)

unfoldable pub auth_find_by_key : Store → Key → Option Auth
unfolding lookup
auth_find_by_key s key = elim key.db_id [
  | none ↦ none
  | some d ↦ elim key.s_id [
    | none ↦ none
    | some i ↦ elim key.login [ none ↦ none | some l ↦ lookup s d i l ]
  ]
]

-- A change of the logins of a site, through pointers to it and to its database.
unfoldable pub update_logins : CStr → CStr → (List Auth → List Auth) → Store → Store
update_logins d i f = update_by db_key d (λ db. record db {
  s_ids = update_by site_key i (λ s. record s { logins = f s.logins }) db.s_ids;
})

unfoldable pub auth_update : CStr → CStr → CStr → (Auth → Auth) → Store → Store
unfolding update_logins
auth_update d i l f = update_logins d i (update_by login_of l f)

-- `p != NULL && *p != 0`
unfoldable pub is_named : Option CStr → Bool
is_named none = false
is_named (some []) = false
is_named (some (c ∷ cs)) = true

unfoldable pub text_or_empty : Option CStr → CStr
text_or_empty none = []
text_or_empty (some s) = s

-- The entry that auth_search_by_key creates: no password, inactive.
unfoldable pub blank_entry : ℕ → Key → Auth
unfolding text_or_empty auth_body
blank_entry now key =
    auth_body (text_or_empty key.db_id) (text_or_empty key.login) (text_or_empty key.s_id) none now
      false none false

module _ (ldc : Ldc) where
  unfoldable pub auth_db_search : CStr → Store → Store
  auth_db_search d s = elim (find_by db_key d s) [
    | none ↦ ldc.insert (record { db_id = d; s_ids = [] }) s
    | some db ↦ s
  ]

  unfoldable pub auth_s_id_search : CStr → List Site → List Site
  auth_s_id_search i sites = elim (find_by site_key i sites) [
    | none ↦ ldc.insert (record { s_id = i; logins = [] }) sites
    | some site ↦ sites
  ]

  -- The two searches with which every insertion begins.
  unfoldable pub ensure_path : CStr → CStr → Store → Store
  ensure_path d i s =
      update_by db_key d (λ db. record db { s_ids = auth_s_id_search i db.s_ids })
        (auth_db_search d s)

  -- The store, and whether the entry was inserted.
  unfoldable pub auth_insert : Auth → Store → Store × Bool
  unfolding ensure_path update_logins
  auth_insert item s =
      let s' = ensure_path item.db_id item.s_id s in
      elim (find_by login_of item.login (logins_of s' item.db_id item.s_id)) [
        | none ↦ (update_logins item.db_id item.s_id (ldc.insert item) s', true)
        | some old ↦ (s', false)
      ]

  -- The database is that of the item, which is not yet in the store.
  unfoldable pub auth_insert_or_update : Auth → Store → Store
  unfolding ensure_path update_logins
  auth_insert_or_update item s =
      update_logins item.db_id item.s_id
        (λ logins. ldc.insert item (remove_by login_of item.login logins))
        (ensure_path item.db_id item.s_id s)

  -- The key finds its entry, which is created if it is missing.
  unfoldable pub auth_search_by_key : ℕ → Key → Store → Store
  unfolding is_named blank_entry auth_insert
  auth_search_by_key now key s =
      if is_named key.db_id && (is_named key.login && is_named key.s_id)
      then (auth_insert (blank_entry now key) s).0
      else s

  unfoldable pub auth_insert_by_key : ℕ → Key → Store → Store × Bool
  unfolding is_named blank_entry auth_insert
  auth_insert_by_key now key s =
      if is_named key.db_id && (is_named key.login && is_named key.s_id)
      then auth_insert (blank_entry now key) s
      else (s, false)

-- auth_delete_by_key: the entry that the key finds is taken out of its list.
unfoldable pub auth_delete : CStr → CStr → CStr → Store → Store
unfolding update_logins
auth_delete d i l = update_logins d i (remove_by login_of l)

unfoldable pub auth_secret_delete_by_key : CStr → CStr → CStr → CStr → Store → Store
unfolding auth_update
auth_secret_delete_by_key d i l ref = auth_update d i l (auth_secret_delete ref)
