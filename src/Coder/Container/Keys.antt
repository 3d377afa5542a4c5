-- ===== src/Coder/Container/Keys.antt =====
-- src/coder/coder.c: the key of an entry, and that it stays when the entry keeps its secret.
use rsmp_gatewa.Common.{
  ◌≡◌, ℕ, refl, sym, ◌∙◌, true, none, some, List, CStr, str_eq_refl, Ldc, Outcome, returned, ◌>>=◌,
  Option-cases, inl, inr, find_by, find_by-insert,
}
use rsmp_gatewa.Auth.Entry.{Auth, Secret, ref_of, auth_secret_get, auth_secret_add_or_update}
use rsmp_gatewa.Auth.Store.{Store, lookup, auth_find_by_key}
use rsmp_gatewa.Auth.Store.Map.{same_path}
use rsmp_gatewa.Auth.Store.Assign.{lookup-assign, lookup-login}
use rsmp_gatewa.Coder.Secrets.{
  Backend, Action, to_encrypt, to_decrypt, coder_secret_get, get_current_passphrase,
  get_passphrase_for_pwd,
}
use rsmp_gatewa.Coder.Secrets.Agree.{IsCoherent, derived, bind_assoc}
use rsmp_gatewa.Coder.Container.{db_of, auth_for, if_active, coder_auth_get, keep}

-- A secret has no part in the derivation of another.
derived_secrets :
    (backend : Backend) (lib local : CStr) (action : Action) (a : Auth) (l : List Secret)
    → derived backend lib local (record a { secrets = l }) action
      ≡ derived backend lib local a action
unfolding derived get_current_passphrase get_passphrase_for_pwd
derived_secrets backend lib local to_encrypt a l = refl
derived_secrets backend lib local to_decrypt a l = refl

module _ (backend : Backend) (ldc : Ldc) (lib local : CStr) (action : Action) where
  -- The entry gives this key, whether it keeps the secret or not.
  abbrev pub GivesKey : List ℕ → Auth → Type 0
  GivesKey key a =
      (a.active ≡ true)
      × ((derived backend lib local a action ≡ returned key)
          × IsCoherent backend lib local a action)

  -- The store has an entry of that site and login that gives this key.
  abbrev pub HasKey : CStr → CStr → List ℕ → Store → Type 0
  HasKey i l key s = (a : Auth) × (lookup s (db_of action) i l ≡ some a) × GivesKey key a

  -- secret_to and secret_from
  abbrev pub secret_for : CStr → CStr → Store → Store × Outcome (Auth × List ℕ)
  secret_for i l s = keep action (some i) s (
      (coder_auth_get s (some l) (some i) action).1 >>= λ a.
      coder_secret_get backend ldc lib a local action)

  added-GivesKey :
      (key : List ℕ) (a : Auth)
      → auth_secret_get a lib ≡ none
      → GivesKey key a
      → GivesKey key (auth_secret_add_or_update ldc lib key a)
  unfolding auth_secret_add_or_update auth_secret_get
  added-GivesKey key a missing (live, (gives, coherent)) =
      let inserted : find_by ref_of lib (ldc.insert (record { ref = lib; bytes = key }) a.secrets)
          ≡ some (record { ref = lib; bytes = key }) =
        find_by-insert ref_of ldc lib (record { ref = lib; bytes = key }) a.secrets missing
        ∙ rw (str_eq_refl lib) refl in
      rw (auth_secret_add_or_update, missing)
        (
          live,
          (
            derived_secrets backend lib local action a
                  (ldc.insert (record { ref = lib; bytes = key }) a.secrets)
                ∙ gives,
            λ secret found.
                derived_secrets backend lib local action a
                  (ldc.insert (record { ref = lib; bytes = key }) a.secrets)
                ∙ cc (gives, found, inserted),
          ),
        )

  derive_missing :
      (a : Auth)
      → auth_secret_get a lib ≡ none
      → coder_secret_get backend ldc lib a local action ≡ (
          derived backend lib local a action >>= λ key.
          returned (auth_secret_add_or_update ldc lib key a, key))
  unfolding coder_secret_get derived
  derive_missing a missing =
      rw (coder_secret_get, missing)
        (sym (
          bind_assoc (get_current_passphrase local a action) (λ source. backend.key_gen lib source)
            (λ key. returned (auth_secret_add_or_update ldc lib key a, key))))

  keeps_found :
      (key : List ℕ) (a : Auth)
      → derived backend lib local a action ≡ returned key
      → IsCoherent backend lib local a action
      → (secret : Secret) → auth_secret_get a lib ≡ some secret
      → coder_secret_get backend ldc lib a local action ≡ returned (a, key)
  unfolding coder_secret_get
  keeps_found key a gives coherent secret found =
      let same : returned secret.bytes ≡ returned key = sym (coherent secret found) ∙ gives in
      rw (coder_secret_get, found) (cc same)

  login_added :
      (key : List ℕ) (a : Auth) → (auth_secret_add_or_update ldc lib key a).login ≡ a.login
  unfolding auth_secret_add_or_update
  login_added key a = elim (Option-cases (auth_secret_get a lib)) [
    | inl missing ↦ rw (auth_secret_add_or_update, missing) refl
    | inr (secret, found) ↦ rw (auth_secret_add_or_update, found) refl
  ]

  -- What coder_secret_get gives of an entry with a key: the key, and an entry with it.
  coder_secret_get-GivesKey :
      (key : List ℕ) (a : Auth)
      → GivesKey key a
      → (b : Auth) × (coder_secret_get backend ldc lib a local action ≡ returned (b, key))
        × (b.login ≡ a.login)
        × GivesKey key b
  coder_secret_get-GivesKey key a (live, (gives, coherent)) =
      elim (Option-cases (auth_secret_get a lib)) [
        | inr (secret, found) ↦
            (a, keeps_found key a gives coherent secret found, refl, (live, (gives, coherent)))
        | inl missing ↦ (
          auth_secret_add_or_update ldc lib key a,
          derive_missing a missing ∙ rw gives refl,
          login_added key a,
          added-GivesKey key a missing (live, (gives, coherent)),
        )
      ]

  -- An active entry is the one that coder_auth_get gives.
  pub coder_auth_get-lookup :
      (i l : CStr) (s : Store) (a : Auth)
      → lookup s (db_of action) i l ≡ some a
      → a.active ≡ true
      → (coder_auth_get s (some l) (some i) action).1 ≡ returned a
  unfolding coder_auth_get auth_for auth_find_by_key if_active
  coder_auth_get-lookup i l s a found live = rw (found, live) refl

  same_self : (i l : CStr) → same_path (db_of action) i l (db_of action) i l ≡ true
  same_self i l = rw (str_eq_refl (db_of action), str_eq_refl i, str_eq_refl l) refl

  -- The entry is found, gives its key, and is kept so that it gives it again.
  pub secret_for-HasKey :
      (i l : CStr) (key : List ℕ) (s : Store)
      → HasKey i l key s
      → (b : Auth) × ((secret_for i l s).1 ≡ returned (b, key))
        × (b.login ≡ l)
        × HasKey i l key (secret_for i l s).0
  unfolding keep
  secret_for-HasKey i l key s (a, found, has) =
      let (b, gets, same, has') = coder_secret_get-GivesKey key a has in
      let login : b.login ≡ l = same ∙ lookup-login s (db_of action) i l a found in
      rw (coder_auth_get-lookup i l s a found has.0, gets, login)
        (
          b,
          refl,
          login,
          (
            b,
            lookup-assign s (db_of action) i l (db_of action) i l a b found login
                ∙ rw (same_self i l) refl,
            has',
          ),
        )
