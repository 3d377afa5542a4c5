-- ===== src/Coder/Secrets.antt =====
-- src/coder/coder.c: the keys that are derived from a password, the text that is encrypted, and its
-- encryption. The functions of a cipher (OpenSSL), the printing of JSON (json-c) and that of a time
-- (strftime) are the parameter `Backend`.
pub mod Agree
use rsmp_gatewa.Common.{
  ℕ, Bool, true, false, ◌&&◌, ◌||◌, none, some, List, [], ◌∷◌, ◌++◌, ◌==◌, CStr, codes,
  if◌then◌else◌, Ldc, Outcome, returned, failed, ◌>>=◌,
}
use rsmp_gatewa.Auth.Pwd.{Pwd}
use rsmp_gatewa.Auth.Entry.{Auth, auth_secret_get, auth_secret_add_or_update}
use rsmp_gatewa.Auth.Rotation.{bytes_at}
use rsmp_gatewa.Coder.Message.{Object, Message, str, serialize_message}

pub record Backend : Type 0 where
  -- key_gen of the cipher of a name
  pub key_gen : CStr → List ℕ → Outcome (List ℕ)
  -- encrypt of the cipher of a name, under a key
  pub encrypt : CStr → List ℕ → CStr → Outcome CStr
  pub print : Object → CStr
  pub time_text : ℕ → CStr

-- coder_enum_action_t
pub data Action : Type 0 where
  to_encrypt to_decrypt : Action

-- `sId` is the local site; the entry has the remote one.
unfoldable pub get_passphrase_for_pwd : CStr → Auth → Action → Pwd → Outcome (List ℕ)
get_passphrase_for_pwd s_id auth to_decrypt pwd =
    bytes_at pwd.buf pwd.len >>= λ bs. returned (auth.s_id ++ (auth.login ++ (bs ++ s_id)))
get_passphrase_for_pwd s_id auth to_encrypt pwd =
    bytes_at pwd.buf pwd.len >>= λ bs. returned (s_id ++ (auth.login ++ (bs ++ auth.s_id)))

unfoldable pub get_current_passphrase : CStr → Auth → Action → Outcome (List ℕ)
get_current_passphrase s_id auth action = get_passphrase_for_pwd s_id auth action auth.pwd

unfoldable pub get_new_passphrase : CStr → Auth → Action → Outcome (List ℕ)
get_new_passphrase s_id auth action = get_passphrase_for_pwd s_id auth action auth.new_pwd

-- The entry, which keeps a secret that is derived here, and the secret.
unfoldable pub coder_secret_get :
    Backend → Ldc → CStr → Auth → CStr → Action → Outcome (Auth × List ℕ)
coder_secret_get backend ldc lib auth s_id action = elim (auth_secret_get auth lib) [
  | some secret ↦ returned (auth, secret.bytes)
  | none ↦ get_current_passphrase s_id auth action >>= λ source.
      backend.key_gen lib source >>= λ key.
      returned (auth_secret_add_or_update ldc lib key auth, key)
]

unfoldable pub compute_new_secret_auth_to : Backend → CStr → CStr → Auth → Outcome (List ℕ)
compute_new_secret_auth_to backend lib s_id auth =
    get_new_passphrase s_id auth to_encrypt >>= λ source. backend.key_gen lib source

-- The class that ptxt_set gives.
pub data Class : Type 0 where
  external internal : Class

unfoldable pub is_prefix : CStr → CStr → Bool
is_prefix [] s = true
is_prefix (c ∷ cs) [] = false
is_prefix (c ∷ cs) (d ∷ ds) = c == d && is_prefix cs ds

-- Whether strstr finds the second string in the first.
unfoldable pub strstr : CStr → CStr → Bool
unfolding is_prefix
strstr [] t = is_prefix t []
strstr (c ∷ cs) t = is_prefix t (c ∷ cs) || strstr cs t

abbrev pub external_mark : CStr
external_mark = codes "\"rSMsg\""

abbrev pub internal_mark : CStr
internal_mark = codes "\"eRMsg\""

unfoldable pub ptxt_class : CStr → Outcome Class
unfolding strstr
ptxt_class original =
    if strstr original external_mark
    then returned external
    else if strstr original internal_mark
    then returned internal
    else failed

abbrev pub class_text : Class → CStr
class_text external = codes "EXTERNAL"
class_text internal = codes "INTERNAL"

unfoldable pub ptxt_serialize : Backend → ℕ → CStr → Class → CStr
ptxt_serialize backend ts original class = backend.print (
    (codes "timestamp", str (backend.time_text ts))
    ∷ (codes "original", str original)
    ∷ (codes "class", str (class_text class))
    ∷ [])

unfoldable pub challenge_encode_data : Backend → CStr → ℕ → Message → List ℕ → Outcome CStr
unfolding ptxt_class ptxt_serialize
challenge_encode_data backend lib ts msg secret = serialize_message backend.print msg >>= λ payload.
    ptxt_class payload >>= λ class.
    backend.encrypt lib secret (ptxt_serialize backend ts payload class)
