-- ===== src/Auth/Store/Reach.antt =====
-- The stores that the operations of src/auth/auth-basic.c build from the empty one: every site
-- keeps at most one entry for a login.
use rsmp_gatewa.Common.{
  refl, ℕ, ◌&&◌, List, [], CStr, str_eq, str_eq_refl, Bool-cases, Option-cases, inl, inr, Ldc,
  find_by, update_by, remove_by, find_by-remove_by, DistinctKeys, insert-DistinctKeys,
  remove_by-DistinctKeys, update_by-DistinctKeys, KeepsKey,
}
use rsmp_gatewa.Auth.Entry.{Key, Auth, login_of}
use rsmp_gatewa.Auth.Store.{
  Store, sites_of, logins_of, update_logins, auth_update, ensure_path, auth_insert,
  auth_insert_or_update, auth_delete, auth_search_by_key, blank_entry, is_named,
}
use rsmp_gatewa.Auth.Store.Paths.{logins_of-update_logins, logins_of-ensure_path, has_site}
use rsmp_gatewa.Auth.Store.Map.{IsDistinct, logins_after}

-- One operation on the store.
pub data StoreStep (ldc : Ldc) (s : Store) : Store → Type 0 where
  inserted : (a : Auth) → StoreStep ldc s (auth_insert ldc a s).0
  replaced : (a : Auth) → StoreStep ldc s (auth_insert_or_update ldc a s)
  searched : (now : ℕ) (key : Key) → StoreStep ldc s (auth_search_by_key ldc now key s)
  deleted : (d i l : CStr) → StoreStep ldc s (auth_delete d i l s)
  changed :
      (d i l : CStr) (f : Auth → Auth)
      → KeepsKey login_of f
      → StoreStep ldc s (auth_update d i l f s)

pub data Reach (ldc : Ldc) : Store → Type 0 where
  started : Reach ldc []
  stepped : {s t : Store} → Reach ldc s → StoreStep ldc s t → Reach ldc t

empty-IsDistinct : IsDistinct []
unfolding logins_of find_by sites_of
empty-IsDistinct d i = tt

update_logins-IsDistinct :
    (s : Store) (d i : CStr) (f : List Auth → List Auth)
    → DistinctKeys login_of (f (logins_of s d i))
    → IsDistinct s
    → IsDistinct (update_logins d i f s)
update_logins-IsDistinct s d i f g h e j =
    rw (logins_of-update_logins s d i e j f) (elim (Bool-cases (str_eq d e && str_eq i j)) [
      | inl here ↦ rw here (elim (Bool-cases (has_site s d i)) [
        | inl there ↦ rw there g
        | inr absent ↦ rw absent tt
      ])
      | inr away ↦ rw away (h e j)
    ])

after-IsDistinct :
    (ldc : Ldc) (s : Store) (d i : CStr) (f : List Auth → List Auth)
    → DistinctKeys login_of (f (logins_of s d i))
    → IsDistinct s
    → IsDistinct (update_logins d i f (ensure_path ldc d i s))
after-IsDistinct ldc s d i f g h e j =
    rw (logins_after ldc s d i e j f) (elim (Bool-cases (str_eq d e && str_eq i j)) [
      | inl here ↦ rw here g
      | inr away ↦ rw away (h e j)
    ])

auth_insert-IsDistinct :
    (ldc : Ldc) (s : Store) (a : Auth) → IsDistinct s → IsDistinct (auth_insert ldc a s).0
unfolding auth_insert
auth_insert-IsDistinct ldc s a h =
    elim (Option-cases (find_by login_of a.login (logins_of s a.db_id a.s_id))) [
      | inl missing ↦
          rw (auth_insert, logins_of-ensure_path ldc s a.db_id a.s_id a.db_id a.s_id, missing)
            (after-IsDistinct ldc s a.db_id a.s_id (ldc.insert a)
              (insert-DistinctKeys login_of ldc a (logins_of s a.db_id a.s_id) missing
                (h a.db_id a.s_id))
              h)
      | inr (old, found) ↦
          rw (auth_insert, logins_of-ensure_path ldc s a.db_id a.s_id a.db_id a.s_id, found)
            (λ e j. rw (logins_of-ensure_path ldc s a.db_id a.s_id e j) (h e j))
    ]

replaced_logins-IsDistinct :
    (ldc : Ldc) (a : Auth) (l : List Auth)
    → DistinctKeys login_of l
    → DistinctKeys login_of (ldc.insert a (remove_by login_of a.login l))
replaced_logins-IsDistinct ldc a l h =
    insert-DistinctKeys login_of ldc a (remove_by login_of a.login l)
      (rw (find_by-remove_by login_of a.login a.login l h, str_eq_refl a.login) refl)
      (remove_by-DistinctKeys login_of a.login l h)

auth_search_by_key-IsDistinct :
    (ldc : Ldc) (now : ℕ) (key : Key) (s : Store)
    → IsDistinct s
    → IsDistinct (auth_search_by_key ldc now key s)
unfolding auth_search_by_key
auth_search_by_key-IsDistinct ldc now key s h =
    elim (Bool-cases (is_named key.db_id && (is_named key.login && is_named key.s_id))) [
      | inl named ↦ rw named (auth_insert-IsDistinct ldc s (blank_entry now key) h)
      | inr unnamed ↦ rw unnamed h
    ]

Step-IsDistinct : (ldc : Ldc) {s t : Store} → StoreStep ldc s t → IsDistinct s → IsDistinct t
unfolding auth_insert_or_update auth_delete auth_update
Step-IsDistinct ldc {s} (inserted a) h = auth_insert-IsDistinct ldc s a h
Step-IsDistinct ldc {s} (replaced a) h =
    after-IsDistinct ldc s a.db_id a.s_id (λ l. ldc.insert a (remove_by login_of a.login l))
      (replaced_logins-IsDistinct ldc a (logins_of s a.db_id a.s_id) (h a.db_id a.s_id)) h
Step-IsDistinct ldc {s} (searched now key) h = auth_search_by_key-IsDistinct ldc now key s h
Step-IsDistinct ldc {s} (deleted d i l) h =
    update_logins-IsDistinct s d i (remove_by login_of l)
      (remove_by-DistinctKeys login_of l (logins_of s d i) (h d i)) h
Step-IsDistinct ldc {s} (changed d i l f k) h =
    update_logins-IsDistinct s d i (update_by login_of l f)
      (update_by-DistinctKeys login_of l f (logins_of s d i) k (h d i)) h

-- In every store that the operations build from the empty one, no site has two entries with one
-- login.
pub Reach-IsDistinct : (ldc : Ldc) (s : Store) → Reach ldc s → IsDistinct s
Reach-IsDistinct ldc [] started = empty-IsDistinct
Reach-IsDistinct ldc s (stepped r step) = Step-IsDistinct ldc step (Reach-IsDistinct ldc _ r)
