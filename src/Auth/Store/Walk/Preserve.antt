-- ===== src/Auth/Store/Walk/Preserve.antt =====
-- A property of the context that a callback keeps is kept by the walks of src/auth/auth-basic.c.
use rsmp_gatewa.Common.{
  Bool, Option, none, some, List, [], ◌∷◌, CStr, Bool-cases, Option-cases, inl, inr, find_by,
}
use rsmp_gatewa.Auth.Entry.{Auth}
use rsmp_gatewa.Auth.Store.{Site, Store, site_key, db_key}
use rsmp_gatewa.Auth.Store.Walk.{
  auth_foreach_login, auth_foreach_sites, auth_foreach_s_id, auth_foreach_dbs, auth_foreach,
}

module _ {C : Type 0} (P : C → Type 0) (fct : C → CStr → Auth → C × Bool)
    (keeps : (c : C) (d : CStr) (a : Auth) → P c → P (fct c d a).0) where
  foreach_login_preserve :
      (c : C) (d : CStr) (l : List Auth) → P c → P (auth_foreach_login fct c d l).0
  unfolding auth_foreach_login
  foreach_login_preserve c d [] h = h
  foreach_login_preserve c d (a ∷ rest) h = elim (Bool-cases (fct c d a).1) [
    | inl more ↦ rw more (foreach_login_preserve (fct c d a).0 d rest (keeps c d a h))
    | inr stop ↦ rw stop (keeps c d a h)
  ]

  foreach_sites_preserve :
      (l : List Site) (c : C) (d : CStr) → P c → P (auth_foreach_sites fct c d l).0
  unfolding auth_foreach_sites
  foreach_sites_preserve [] c d h = h
  foreach_sites_preserve (s ∷ ss) c d h =
      foreach_sites_preserve ss _ d (foreach_login_preserve c d s.logins h)

  foreach_s_id_preserve :
      (c : C) (d : CStr) (i : Option CStr) (l : List Site)
      → P c
      → P (auth_foreach_s_id fct c d i l).0
  unfolding auth_foreach_s_id
  foreach_s_id_preserve c d none l h = foreach_sites_preserve l c d h
  foreach_s_id_preserve c d (some i) l h = elim (Option-cases (find_by site_key i l)) [
    | inl missing ↦ rw (auth_foreach_s_id, missing) h
    | inr (s, found) ↦ rw (auth_foreach_s_id, found) (foreach_login_preserve c d s.logins h)
  ]

  foreach_dbs_preserve :
      (s : Store) (c : C) (i : Option CStr) → P c → P (auth_foreach_dbs fct c i s).0
  unfolding auth_foreach_dbs
  foreach_dbs_preserve [] c i h = h
  foreach_dbs_preserve (d ∷ ds) c i h =
      foreach_dbs_preserve ds _ i (foreach_s_id_preserve c d.db_id i d.s_ids h)

  pub auth_foreach_preserve :
      (c : C) (d i : Option CStr) (s : Store) → P c → P (auth_foreach fct c d i s).0
  unfolding auth_foreach
  auth_foreach_preserve c none i s h = foreach_dbs_preserve s c i h
  auth_foreach_preserve c (some d) i s h = elim (Option-cases (find_by db_key d s)) [
    | inl missing ↦ rw (auth_foreach, missing) h
    | inr (db, found) ↦ rw (auth_foreach, found) (foreach_s_id_preserve c db.db_id i db.s_ids h)
  ]
