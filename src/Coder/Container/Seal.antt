-- ===== src/Coder/Container/Seal.antt =====
-- src/coder/coder.c: coder_encrypt and Encrypted_encode.
use rsmp_gatewa.Common.{
  Option, none, some, List, [], ◌∷◌, ℕ, CStr, codes, Ldc, Outcome, returned, failed, fault, on,
  ◌>>=◌,
}
use rsmp_gatewa.Auth.Entry.{Auth}
use rsmp_gatewa.Auth.Store.{Store}
use rsmp_gatewa.Coder.Message.{Object, str, strings}
use rsmp_gatewa.Coder.Secrets.{Backend, to_encrypt, Class, ptxt_serialize, coder_secret_get}
use rsmp_gatewa.Coder.Container.{Ptxt, coder_auth_get, keep}

-- ptxt_serialize of a text whose pointers may be null.
unfoldable pub sealed_text : Backend → Option CStr → Option Class → ℕ → Outcome CStr
unfolding ptxt_serialize
sealed_text backend none class ts = fault
sealed_text backend (some original) none ts = failed
sealed_text backend (some original) (some class) ts =
    returned (ptxt_serialize backend ts original class)

module _ (backend : Backend) (ldc : Ldc) (lib : CStr) (s_id_local : CStr) where
  -- The entry of the peer, whose secret is derived if it has none, and the secret.
  unfoldable pub secret_to : Option CStr → Option CStr → Store → Store × Outcome (Auth × List ℕ)
  unfolding keep coder_auth_get
  secret_to login s_id s = keep to_encrypt s_id s (
      (coder_auth_get s login s_id to_encrypt).1 >>= λ a.
      coder_secret_get backend ldc lib a s_id_local to_encrypt)

  -- The login of the entry, and the encrypted text.
  unfoldable pub coder_encrypt :
      Option CStr → Option CStr → CStr → Store → Store × Outcome (CStr × CStr)
  unfolding secret_to
  coder_encrypt login s_id input s =
      let (s', o) = secret_to login s_id s in
      (s', o >>= λ r. backend.encrypt lib r.1 input >>= λ c. returned (r.0.login, c))

  -- The loop over the texts: the login of the last entry, and the encrypted texts.
  unfoldable pub encode_items :
      Option CStr → Option CStr → CStr → List Ptxt → Store → Store × Outcome (CStr × List CStr)
  unfolding sealed_text coder_encrypt on
  encode_items login s_id current [] s = (s, returned (current, []))
  encode_items login s_id current (p ∷ ps) s =
      on s (sealed_text backend p.original p.class p.timestamp) (λ input.
        let (s', o) = coder_encrypt login s_id input s in
        on s' o (λ r.
          let (s'', rest) = encode_items login s_id r.0 ps s' in
          (s'', rest >>= λ q. returned (q.0, r.1 ∷ q.1))))

  -- The object that is printed.
  abbrev pub container : CStr → CStr → List CStr → Object
  container uuid login items =
      (codes "mType", str (codes "eRMsg"))
      ∷ (codes "type", str (codes "Encrypted"))
      ∷ (codes "mId", str uuid)
      ∷ (codes "sId", str s_id_local)
      ∷ (codes "data", strings items)
      ∷ (codes "login", str login)
      ∷ []

  -- The cipher and the local site are not null here.
  unfoldable pub encrypted_encode :
      CStr → Option CStr → Option CStr → List Ptxt → Store → Store × Outcome CStr
  unfolding encode_items
  encrypted_encode uuid login none ps s = (s, failed)
  encrypted_encode uuid login (some s_id) [] s = (s, failed)
  encrypted_encode uuid login (some s_id) (p ∷ ps) s =
      let (s', o) = encode_items login (some s_id) [] (p ∷ ps) s in
      (s', o >>= λ r. returned (backend.print (container uuid r.0 r.1)))
