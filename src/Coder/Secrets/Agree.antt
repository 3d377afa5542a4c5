-- ===== src/Coder/Secrets/Agree.antt =====
-- src/coder/coder.c: both peers derive one key from one password.
use rsmp_gatewa.Common.{
  ◌≡◌, refl, sym, ap, ◌∙◌, ℕ, some, List, CStr, Ldc, Outcome, returned, failed, fault, ◌>>=◌,
  Option-cases, inl, inr, str_eq_refl, find_by-remove_by, DistinctKeys,
}
use rsmp_gatewa.Auth.Pwd.{Pwd}
use rsmp_gatewa.Auth.Entry.{
  Auth, Secret, ref_of, auth_secret_get, auth_secret_add_or_update, auth_secret_delete,
}
use rsmp_gatewa.Coder.Secrets.{
  Backend, Action, to_encrypt, to_decrypt, get_passphrase_for_pwd, get_current_passphrase,
  coder_secret_get,
}

-- The entry of "to" at one site and the entry of "from" at the other are about each other.
abbrev pub AreMates : CStr → Auth → CStr → Auth → Type 0
AreMates a_site a b_site b = (a.s_id ≡ b_site) × ((b.s_id ≡ a_site) × (a.login ≡ b.login))

-- What the sender derives a key from to encrypt and what its peer derives it from to decrypt are the
-- same, for one password.
pub passphrase-agree :
    (a_site b_site : CStr) (a b : Auth) (pwd : Pwd)
    → AreMates a_site a b_site b
    → get_passphrase_for_pwd a_site a to_encrypt pwd
      ≡ get_passphrase_for_pwd b_site b to_decrypt pwd
unfolding get_passphrase_for_pwd
passphrase-agree a_site b_site a b pwd (e, (f, g)) = rw (e, f, g) refl

-- What key_gen gives for the current password.
unfoldable pub derived : Backend → CStr → CStr → Auth → Action → Outcome (List ℕ)
derived backend lib s_id auth action =
    get_current_passphrase s_id auth action >>= λ source. backend.key_gen lib source

-- A secret that is kept under the name of the cipher is the one that the current password gives.
abbrev pub IsCoherent : Backend → CStr → CStr → Auth → Action → Type 0
IsCoherent backend lib s_id auth action =
    (secret : Secret)
    → auth_secret_get auth lib ≡ some secret
    → derived backend lib s_id auth action ≡ returned secret.bytes

abbrev pub secret_of : Outcome (Auth × List ℕ) → Outcome (List ℕ)
secret_of o = o >>= λ r. returned r.1

first_secret :
    (ldc : Ldc) (lib : CStr) (auth : Auth) (o : Outcome (List ℕ))
    → secret_of (o >>= λ key. returned (auth_secret_add_or_update ldc lib key auth, key)) ≡ o
first_secret ldc lib auth (returned key) = refl
first_secret ldc lib auth failed = refl
first_secret ldc lib auth fault = refl

pub bind_assoc :
    {A B C : Type 0} (o : Outcome A) (f : A → Outcome B) (g : B → Outcome C)
    → (o >>= f >>= g) ≡ (o >>= λ a. f a >>= g)
bind_assoc (returned a) f g = refl
bind_assoc failed f g = refl
bind_assoc fault f g = refl

-- coder_secret_get gives the key that the current password gives, from the entry or derived now,
-- where a secret that the entry keeps is the one of that password.
pub coder_secret_get_lem :
    (backend : Backend) (ldc : Ldc) (lib : CStr) (auth : Auth) (s_id : CStr) (action : Action)
    → IsCoherent backend lib s_id auth action
    → secret_of (coder_secret_get backend ldc lib auth s_id action)
      ≡ derived backend lib s_id auth action
unfolding coder_secret_get derived
coder_secret_get_lem backend ldc lib auth s_id action h =
    elim (Option-cases (auth_secret_get auth lib)) [
      | inl missing ↦
          rw (coder_secret_get, missing)
            (ap secret_of (
                sym (
                  bind_assoc (get_current_passphrase s_id auth action)
                    (λ source. backend.key_gen lib source)
                    (λ key. returned (auth_secret_add_or_update ldc lib key auth, key))))
              ∙ first_secret ldc lib auth (derived backend lib s_id auth action))
      | inr (secret, found) ↦ rw (coder_secret_get, found) (sym (h secret found))
    ]

-- Two peers whose entries are about each other and hold one password get one key, the sender to
-- encrypt and the receiver to decrypt, where the secrets they keep are those of their passwords.
pub coder_secret_get-agree :
    (backend : Backend) (ldc : Ldc) (lib a_site b_site : CStr) (a b : Auth)
    → AreMates a_site a b_site b
    → a.pwd ≡ b.pwd
    → IsCoherent backend lib a_site a to_encrypt
    → IsCoherent backend lib b_site b to_decrypt
    → secret_of (coder_secret_get backend ldc lib a a_site to_encrypt)
      ≡ secret_of (coder_secret_get backend ldc lib b b_site to_decrypt)
unfolding derived get_current_passphrase
coder_secret_get-agree backend ldc lib a_site b_site a b mates same ca cb =
    coder_secret_get_lem backend ldc lib a a_site to_encrypt ca
    ∙ ap (λ o. o >>= λ source. backend.key_gen lib source)
        (passphrase-agree a_site b_site a b a.pwd mates
          ∙ ap (get_passphrase_for_pwd b_site b to_decrypt) same)
    ∙ sym (coder_secret_get_lem backend ldc lib b b_site to_decrypt cb)

-- Once auth_secret_delete_by_key has taken the old secret out of an entry that has one secret for a
-- cipher at most, the entry is coherent whatever its password is now.
pub auth_secret_delete-IsCoherent :
    (backend : Backend) (lib s_id : CStr) (auth : Auth) (action : Action)
    → DistinctKeys ref_of auth.secrets
    → IsCoherent backend lib s_id (auth_secret_delete lib auth) action
unfolding auth_secret_delete auth_secret_get
auth_secret_delete-IsCoherent backend lib s_id auth action h secret found =
    cc (found, find_by-remove_by ref_of lib lib auth.secrets h, str_eq_refl lib)
