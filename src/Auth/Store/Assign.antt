-- ===== src/Auth/Store/Assign.antt =====
-- A pointer to an entry of src/auth/auth-basic.c through which the whole entry is written.
use mathlib.Core.Option
use rsmp_gatewa.Common.{
  ◌≡◌, refl, sym, ap, ◌∙◌, some, List, [], ◌∷◌, arith, CStr, str_eq, str_eq_refl, str_eq_iff,
  str_eq→eq, if◌then◌else◌, Bool-cases, inl, inr, update_by, KeepsKey, find_by-key,
}
use rsmp_gatewa.Auth.Entry.{Auth, login_of}
use rsmp_gatewa.Auth.Store.{Store, lookup, update_logins, auth_update, logins_of}
use rsmp_gatewa.Auth.Store.Map.{same_path, lookup-auth_update}

-- The same write, which leaves other logins as they are.
abbrev written : CStr → Auth → Auth → Auth
written l a x = if str_eq x.login l then a else x

update_by-written :
    (l : CStr) (a : Auth) (logins : List Auth)
    → update_by login_of l (λ x. a) logins ≡ update_by login_of l (written l a) logins
unfolding update_by
update_by-written l a [] = refl
update_by-written l a (x ∷ logins) = elim (Bool-cases (str_eq x.login l)) [
  | inl same ↦ rw same refl
  | inr other ↦ rw other (ap (λ rest. x ∷ rest) (update_by-written l a logins))
]

auth_update-written :
    (d i l : CStr) (a : Auth) (s : Store)
    → auth_update d i l (λ x. a) s ≡ auth_update d i l (written l a) s
unfolding auth_update
auth_update-written d i l a s =
    ap (λ f. update_logins d i f s) (λ t logins. update_by-written l a logins t)

written-KeepsKey : (l : CStr) (a : Auth) → a.login ≡ l → KeepsKey login_of (written l a)
written-KeepsKey l a e x = elim (Bool-cases (str_eq x.login l)) [
  | inl same ↦ rw same (e ∙ sym (str_eq→eq x.login l same))
  | inr other ↦ rw other refl
]

pub lookup-login : (s : Store) (d i l : CStr) (a : Auth) → lookup s d i l ≡ some a → a.login ≡ l
unfolding lookup
lookup-login s d i l a e = find_by-key login_of l (logins_of s d i) a e

written-old : (l : CStr) (a old : Auth) → old.login ≡ l → written l a old ≡ a
written-old l a old e = rw (e, str_eq_refl l) refl

-- A write through the pointer to an entry that is there, which keeps the login, is found under its
-- keys and leaves every other entry.
pub lookup-assign :
    (s : Store) (d i l e j m : CStr) (old a : Auth)
    → lookup s d i l ≡ some old
    → a.login ≡ l
    → lookup (auth_update d i l (λ x. a) s) e j m
      ≡ (if same_path d i l e j m then some a else lookup s e j m)
lookup-assign s d i l e j m old a found k =
    let here : Option.map (written l a) (lookup s d i l) ≡ some a =
      ap (Option.map (written l a)) found
      ∙ ap some (written-old l a old (lookup-login s d i l old found)) in
    ap (λ t. lookup t e j m) (auth_update-written d i l a s)
    ∙ lookup-auth_update s d i l e j m (written l a) (written-KeepsKey l a k)
    ∙ ground (arith, str_eq_iff d e, str_eq_iff i j, str_eq_iff l m, here)
