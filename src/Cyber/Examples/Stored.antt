-- ===== src/Cyber/Examples/Stored.antt =====
-- A challenge and its answer on a store of two entries.
use rsmp_gatewa.Auth.Rotation.{auth_from_is, auth_to_is}
use rsmp_gatewa.Common.{
  str_eq, update_by, find_by, ◌≡◌, refl, ℕ, true, false, some, List, [], ◌∷◌, arith, codes, CStr,
  replicate, append_ldc,
}
use rsmp_gatewa.Crypt.Base64.{base64_encode}
use rsmp_gatewa.Auth.Pwd.{pwd_of, pwd_null}
use rsmp_gatewa.Auth.Entry.{Auth, auth_secret_delete}
use rsmp_gatewa.Auth.Store.{
  auth_s_id_search, auth_db_search, sites_of, logins_of, Store, auth_insert, lookup,
}
use rsmp_gatewa.Auth.Rotation.Agree.{with_new_pwd, switched}
use rsmp_gatewa.Cyber.State.{has_challenge, AuthRef, Cyber, ok}
use rsmp_gatewa.Cyber.Handle.{switch_entry, handle_change_pwd_request}
use rsmp_gatewa.Cyber.Reach.{cyber_new}
use rsmp_gatewa.Cyber.Switch.{switch_entry-lookup, handle_change_pwd_request-lookup}
use rsmp_gatewa.Cyber.Examples.{aes128, plain, inputs}

abbrev new_bytes : List ℕ
new_bytes = 65 ∷ 66 ∷ 67 ∷ []

abbrev entry : CStr → Auth
entry d = record {
  db_id = d;
  login = codes "a";
  s_id = codes "site";
  active = true;
  pwd = pwd_of (replicate 8 1);
  timestamp = 5;
  new_pwd_pending = false;
  new_pwd = pwd_null;
  secrets = record { ref = codes "AES128CTR"; bytes = 1 ∷ [] } ∷ [];
}

abbrev to_entry : Auth
to_entry = with_new_pwd new_bytes (entry (codes "to"))

abbrev store : Store
store = (auth_insert append_ldc (entry (codes "from")) (auth_insert append_ldc to_entry []).0).0

abbrev ref : CStr → AuthRef
ref d = record { db_id = d; s_id = codes "site"; login = codes "a" }

abbrev exchange : Cyber
exchange = record (cyber_new store) { cipher = some aes128 }

switch_entry-lookup_example :
    ((switch_entry plain append_ldc inputs (some (ref (codes "to"))) exchange).1 ≡ ok)
    × (lookup
          (switch_entry plain append_ldc inputs (some (ref (codes "to"))) exchange).0.store
          (codes "to")
          (codes "site")
          (codes "a")
        ≡ some
            (auth_secret_delete (codes "AES128CTR") (switched 1000 new_bytes (entry (codes "to")))))
unfolding lookup find_by logins_of sites_of auth_insert update_by auth_db_search str_eq
    auth_s_id_search auth_to_is
switch_entry-lookup_example =
    switch_entry-lookup plain append_ldc inputs (ref (codes "to")) (entry (codes "to")) new_bytes
      aes128 exchange (codes "to") (codes "site") (codes "a") refl refl refl (omega arith) refl

handle_change_pwd_request-lookup_example :
    lookup
      (handle_change_pwd_request plain append_ldc inputs
        (some (ref (codes "from")))
        (replicate 36 70)
        (base64_encode new_bytes)
        exchange).0.store
      (codes "from")
      (codes "site")
      (codes "a")
    ≡ some (
        auth_secret_delete
          (codes "AES128CTR")
          (record (entry (codes "from")) { pwd = pwd_of new_bytes; timestamp = 1000 }))
unfolding has_challenge lookup find_by logins_of sites_of auth_insert update_by auth_db_search
    str_eq auth_s_id_search auth_from_is
handle_change_pwd_request-lookup_example =
    handle_change_pwd_request-lookup plain append_ldc inputs (ref (codes "from"))
      (entry (codes "from")) new_bytes aes128 (replicate 36 70) exchange (codes "from")
      (codes "site") (codes "a") refl refl refl refl (omega arith) (ground arith) refl
