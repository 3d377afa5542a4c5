-- ===== src/Auth/Examples.antt =====
-- Entries on which the theorems about src/auth apply.
use rsmp_gatewa.Common.{
  str_eq, ◌≡◌, refl, ℕ, true, false, some, List, [], ◌∷◌, arith, codes, CStr, append_ldc, returned,
  ◌<◌,
}
use rsmp_gatewa.Auth.Pwd.{pwd_null, pwd_of}
use rsmp_gatewa.Auth.Entry.{Auth}
use rsmp_gatewa.Auth.Store.{Store, lookup, auth_insert, auth_insert_or_update}
use rsmp_gatewa.Auth.Store.Map.{IsDistinct, lookup-auth_insert_or_update}
use rsmp_gatewa.Auth.Store.Reach.{Reach, started, stepped, inserted, Reach-IsDistinct}
use rsmp_gatewa.Auth.Rotation.{auth_from_is, auth_to_is}
use rsmp_gatewa.Auth.Rotation.Agree.{CanRotate, rotate, rotate-agree}

abbrev eight : List ℕ
eight = 1 ∷ 2 ∷ 3 ∷ 4 ∷ 5 ∷ 6 ∷ 7 ∷ 8 ∷ []

abbrev entry : (d l : CStr) → Auth
entry d l = record {
  db_id = d;
  login = l;
  s_id = codes "site";
  active = true;
  pwd = pwd_of eight;
  timestamp = 5;
  new_pwd_pending = false;
  new_pwd = pwd_null;
  secrets = [];
}

abbrev to_a : Auth
to_a = entry (codes "to") (codes "a")

abbrev to_b : Auth
to_b = entry (codes "to") (codes "b")

abbrev from_a : Auth
from_a = entry (codes "from") (codes "a")

abbrev one_login : Store
one_login = (auth_insert append_ldc to_a []).0

abbrev two_logins : Store
two_logins = (auth_insert append_ldc to_b one_login).0

two_logins-Reach : Reach append_ldc two_logins
two_logins-Reach = stepped (stepped started (inserted to_a)) (inserted to_b)

lookup-auth_insert_or_update_example :
    lookup
      (auth_insert_or_update append_ldc to_b two_logins)
      (codes "to")
      (codes "site")
      (codes "b")
    ≡ some to_b
unfolding str_eq
lookup-auth_insert_or_update_example =
    lookup-auth_insert_or_update append_ldc two_logins to_b (codes "to") (codes "site") (codes "b")
      (Reach-IsDistinct append_ldc two_logins two_logins-Reach)

abbrev stamp : Auth → Auth
stamp a = record a { timestamp = 9 }

Reach-IsDistinct_example : IsDistinct two_logins
Reach-IsDistinct_example = Reach-IsDistinct append_ldc two_logins two_logins-Reach

abbrev draws : ℕ → ℕ
draws i = i

to_a-CanRotate : CanRotate to_a
unfolding auth_to_is str_eq
to_a-CanRotate = (refl, (refl, (omega arith, omega arith)))

rotate-agree_example :
    (a' : Auth) × (b' : Auth) × ((rotate draws 7 8 to_a from_a ≡ returned (a', b'))
      × ((a'.pwd ≡ b'.pwd) × ((0 < a'.pwd.len) × (a'.new_pwd_pending ≡ false))))
unfolding auth_from_is str_eq
rotate-agree_example = rotate-agree draws 7 8 to_a from_a to_a-CanRotate refl refl
