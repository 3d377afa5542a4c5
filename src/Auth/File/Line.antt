-- ===== src/Auth/File/Line.antt =====
-- src/auth/auth-basic.c: the line of an entry, read into a store that has no entry of its keys.
use rsmp_gatewa.Common.{
  ◌≡◌, refl, ap, ◌∙◌, ℕ, Bool, true, false, Option, none, some, List, [], if◌then◌else◌, get_or,
  CStr, str_eq_refl, Ldc, returned, on,
}
use rsmp_gatewa.Auth.Pwd.{pwd_null}
use rsmp_gatewa.Auth.Entry.{Auth, auth_body}
use rsmp_gatewa.Auth.Store.{
  Store, lookup, auth_update, auth_search_by_key, auth_insert, blank_entry, text_or_empty,
}
use rsmp_gatewa.Auth.Store.Map.{same_path, lookup-auth_insert}
use rsmp_gatewa.Auth.Store.Assign.{lookup-assign}
use rsmp_gatewa.Auth.File.{FileTexts, columns, is_checked, changed_entry, load_entry, read_columns}
use rsmp_gatewa.Auth.File.Stored.{
  IsStored, restored, decode-IsKept, key_for, loaded-IsStored, restored_login, time_column-IsStored,
}

twice_if :
    {A : Type 0} (b : Bool) (x y z : A)
    → (if b then x else if b then y else z) ≡ (if b then x else z)
twice_if true x y z = refl
twice_if false x y z = refl

module _ (texts : FileTexts) (ldc : Ldc) (check_deb : Option (CStr → Bool)) where
  searched_inserts :
      (now : ℕ) (a : Auth) (s : Store)
      → IsStored texts a
      → auth_search_by_key ldc now (key_for a) s
        ≡ (auth_insert ldc (blank_entry now (key_for a)) s).0
  unfolding auth_search_by_key
  searched_inserts now a s h = rw (h.names_db, h.names_login, h.names_site) refl

  -- The store with the entry that the search of its key creates.
  searched-lookup :
      (now : ℕ) (a : Auth) (s : Store) (e j m : CStr)
      → IsStored texts a
      → lookup s a.db_id a.s_id a.login ≡ none
      → lookup (auth_search_by_key ldc now (key_for a) s) e j m ≡ (
          if same_path a.db_id a.s_id a.login e j m
          then some (blank_entry now (key_for a))
          else lookup s e j m)
  unfolding blank_entry auth_body text_or_empty
  searched-lookup now a s e j m h absent =
      ap (λ t. lookup t e j m) (searched_inserts now a s h)
      ∙ (lookup-auth_insert ldc s (blank_entry now (key_for a)) e j m).0
      ∙ rw absent refl

  searched-found :
      (now : ℕ) (a : Auth) (s : Store)
      → IsStored texts a
      → lookup s a.db_id a.s_id a.login ≡ none
      → lookup (auth_search_by_key ldc now (key_for a) s) a.db_id a.s_id a.login
        ≡ some (blank_entry now (key_for a))
  searched-found now a s h absent =
      searched-lookup now a s a.db_id a.s_id a.login h absent
      ∙ rw (str_eq_refl a.db_id, str_eq_refl a.s_id, str_eq_refl a.login) refl

  changed_entry-IsStored :
      (now n : ℕ) (fresh : List ℕ × List ℕ) (a : Auth) (s : Store)
      → IsStored texts a
      → changed_entry texts ldc check_deb fresh
          (columns texts n a.db_id a)
          a.pwd
          a.timestamp
          s
          (some (blank_entry now (key_for a)))
        ≡ (auth_update a.db_id a.s_id a.login (λ old. restored a) s, returned true)
  unfolding changed_entry columns on
  changed_entry-IsStored now n fresh a s h =
      ap
        (λ o. on s o (λ b. (
          auth_update (get_or (columns texts n a.db_id a) 1 [])
              (get_or (columns texts n a.db_id a) 3 []) (get_or (columns texts n a.db_id a) 2 [])
              (λ old. b) s,
          returned true,
        )))
        (loaded-IsStored fresh texts n now a h)

  load_entry-IsStored :
      (now n : ℕ) (fresh : List ℕ × List ℕ) (a : Auth) (s : Store)
      → IsStored texts a
      → lookup s a.db_id a.s_id a.login ≡ none
      → load_entry texts ldc check_deb now fresh (columns texts n a.db_id a) a.pwd a.timestamp s ≡ (
        auth_update a.db_id a.s_id a.login
            (λ old. restored a)
            (auth_search_by_key ldc now (key_for a) s),
        returned true,
      )
  unfolding load_entry columns
  load_entry-IsStored now n fresh a s h absent =
      rw (h.names_db, h.names_login, h.names_site)
        (ap
            (changed_entry texts ldc check_deb fresh (columns texts n a.db_id a) a.pwd a.timestamp
              (auth_search_by_key ldc now (key_for a) s))
            (searched-found now a s h absent)
          ∙ changed_entry-IsStored now n fresh a (auth_search_by_key ldc now (key_for a) s) h)

  read_columns-load :
      (now n : ℕ) (fresh : List ℕ × List ℕ) (a : Auth) (s : Store)
      → IsStored texts a
      → is_checked texts ldc check_deb a.db_id ≡ true
      → read_columns texts ldc check_deb now fresh (columns texts n a.db_id a) s
        ≡ load_entry texts ldc check_deb now fresh (columns texts n a.db_id a) a.pwd a.timestamp s
  unfolding read_columns columns
  read_columns-load now n fresh a s h checked =
      rw (checked, time_column-IsStored texts a h, decode-IsKept [] pwd_null a.pwd h.keeps_pwd) refl

  -- The line of an entry that is not in the store is counted, and puts the restored entry there.
  pub read_columns-lookup :
      (now n : ℕ) (fresh : List ℕ × List ℕ) (a : Auth) (s : Store)
      → IsStored texts a
      → is_checked texts ldc check_deb a.db_id ≡ true
      → lookup s a.db_id a.s_id a.login ≡ none
      → ((read_columns texts ldc check_deb now fresh (columns texts n a.db_id a) s).1
          ≡ returned true)
        × ((e j m : CStr)
            → lookup
                (read_columns texts ldc check_deb now fresh (columns texts n a.db_id a) s).0
                e
                j
                m
              ≡ (if same_path a.db_id a.s_id a.login e j m
                  then some (restored a)
                  else lookup s e j m))
  read_columns-lookup now n fresh a s h checked absent =
      let searched : Store = auth_search_by_key ldc now (key_for a) s in
      let all =
        read_columns-load now n fresh a s h checked
        ∙ load_entry-IsStored now n fresh a s h absent in
      (
        ap (λ z. z.1) all,
        λ e j m.
            ap (λ z. lookup z.0 e j m) all
            ∙ lookup-assign searched a.db_id a.s_id a.login e j m (blank_entry now (key_for a))
                (restored a) (searched-found now a s h absent) (restored_login a)
            ∙ rw (searched-lookup now a s e j m h absent) (
                twice_if (same_path a.db_id a.s_id a.login e j m) (some (restored a))
                  (some (blank_entry now (key_for a))) (lookup s e j m)),
      )
