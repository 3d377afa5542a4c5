-- ===== src/Coder/Container/Open.antt =====
-- src/coder/coder.c: coder_decrypt and Encrypted_decode.
use rsmp_gatewa.Common.{
  ℕ, suc, Bool, true, false, not, Option, none, some, List, [], ◌∷◌, ltb, CStr, codes, str_eq,
  if◌then◌else◌, Ldc, Outcome, returned, failed, fault, guard, require, ◌>>=◌, ◌>>◌,
}
use mathlib.Core.Option
use rsmp_gatewa.Auth.Entry.{Key, Auth}
use rsmp_gatewa.Auth.Store.{Store}
use rsmp_gatewa.Coder.Secrets.{Backend, to_decrypt, coder_secret_get}
use rsmp_gatewa.Auth.Rotation.{from_db_id}
use rsmp_gatewa.Coder.Container.{
  Opening, Ptxt, coder_auth_get, keep, object_get_ex, ptxt_deserial, ptxt_is_valid,
}
use rsmp_gatewa.Rsmp.Values.{
  Json, Items, nil, cons, nothing, text, boolean, number, large, real, array, object, c_str,
  array_items,
}

-- json_object_get_string
unfoldable pub json_string : (Json → CStr) → Json → Option CStr
unfolding c_str
json_string text_of nothing = none
json_string text_of (text s) = some (c_str s)
json_string text_of (boolean b) = some (text_of (boolean b))
json_string text_of (number n) = some (text_of (number n))
json_string text_of (large n) = some (text_of (large n))
json_string text_of (real n) = some (text_of (real n))
json_string text_of (array xs) = some (text_of (array xs))
json_string text_of (object o) = some (text_of (object o))

-- `strcmp(json_object_get_string(v), s) != 0` is refused; a null pointer is followed.
unfoldable pub text_is : CStr → Option CStr → Outcome (Unit {0})
unfolding str_eq
text_is s none = fault
text_is s (some t) = guard (str_eq t s)

-- What Encrypted_decode keeps of the payload.
pub record Container : Type 0 where
  pub login : Option CStr
  pub s_id : Option CStr
  pub items : Items

unfoldable pub is_empty : Items → Bool
is_empty nil = true
is_empty (cons v vs) = false

-- The members are all there before one is looked at.
unfoldable pub read_container : (Json → CStr) → Json → Outcome Container
unfolding object_get_ex json_string text_is array_items is_empty
read_container text_of v = do
  m_type ← require (object_get_ex v (codes "mType"))
  type ← require (object_get_ex v (codes "type"))
  m_id ← require (object_get_ex v (codes "mId"))
  login ← require (object_get_ex v (codes "login"))
  s_id ← require (object_get_ex v (codes "sId"))
  jdata ← require (object_get_ex v (codes "data"))
  text_is (codes "eRMsg") (json_string text_of m_type)
  text_is (codes "Encrypted") (json_string text_of type)
  items ← array_items jdata
  guard (not (is_empty items))
  returned
      (record { login = json_string text_of login; s_id = json_string text_of s_id; items = items })

-- The store after the call, what `auth` points to, and the result.
pub record Opened (A : Type 0) : Type 0 where
  pub store : Store
  pub auth : Option Key
  pub result : Outcome A

unfoldable pub coder_cipher_decrypt : Opening → CStr → List ℕ → Option CStr → Outcome CStr
coder_cipher_decrypt op lib key input =
    if op.context_new lib then op.decrypt lib key input else fault

-- The pointer that coder_auth_get set.
unfoldable pub path_from : Option CStr → Option Auth → Option Key
path_from s_id found =
    Option.map (λ a. record { db_id = some from_db_id; login = some a.login; s_id = s_id }) found

-- An item that is valid.
unfoldable pub accept : Opening → ℕ → Outcome CStr → Outcome Ptxt
unfolding ptxt_deserial ptxt_is_valid
accept op i decrypted = do
  payload ← decrypted
  p ← ptxt_deserial op payload
  ptxt_is_valid op.window (op.delta_ms i p.timestamp) p
  returned p

-- An item that is not valid is left out.
unfoldable pub collect : Outcome Ptxt → Opened (List Ptxt) → Opened (List Ptxt)
collect (returned p) rest = record rest { result = rest.result >>= λ ps. returned (p ∷ ps) }
collect failed rest = rest
collect fault rest = record rest { result = fault }

unfoldable pub if_some : List Ptxt → Outcome (List Ptxt)
if_some [] = failed
if_some (p ∷ ps) = returned (p ∷ ps)

module _ (op : Opening) (backend : Backend) (ldc : Ldc) (lib : CStr) (s_id_local : CStr) where
  -- The entry of the peer, whose secret is derived if it has none, and the secret.
  unfoldable pub secret_from : Option CStr → Option CStr → Store → Store × Outcome (Auth × List ℕ)
  unfolding keep coder_auth_get
  secret_from login s_id s = keep to_decrypt s_id s (
      (coder_auth_get s login s_id to_decrypt).1 >>= λ a.
      coder_secret_get backend ldc lib a s_id_local to_decrypt)

  unfoldable pub coder_decrypt : Option CStr → Option CStr → Option CStr → Store → Opened CStr
  unfolding secret_from coder_auth_get coder_cipher_decrypt path_from
  coder_decrypt login s_id input s =
      let (s', o) = secret_from login s_id s in
      record {
        store = s';
        auth = path_from s_id (coder_auth_get s login s_id to_decrypt).0;
        result = o >>= λ r. coder_cipher_decrypt op lib r.1 input;
      }

  -- The loop over the items, from the one of this number.
  unfoldable pub decode_items :
      Option CStr → Option CStr → ℕ → Items → Option Key → Store → Opened (List Ptxt)
  unfolding coder_decrypt json_string accept collect
  decode_items login s_id i nil auth s = record { store = s; auth = auth; result = returned [] }
  decode_items login s_id i (cons v vs) auth s =
      let o = coder_decrypt login s_id (json_string op.text_of v) s in
      collect (accept op i o.result) (decode_items login s_id (suc i) vs o.auth o.store)

  unfoldable pub open_container : Store → Outcome Container → Opened (List Ptxt)
  unfolding decode_items if_some
  open_container s failed = record { store = s; auth = none; result = failed }
  open_container s fault = record { store = s; auth = none; result = fault }
  open_container s (returned c) =
      let o = decode_items c.login c.s_id 0 c.items none s in
      record o { result = o.result >>= if_some }

  -- `auth` is null here where the source does not set it.
  unfoldable pub encrypted_decode : Option CStr → ℕ → Store → Opened (List Ptxt)
  unfolding open_container read_container
  encrypted_decode buf_in len s = open_container s (
      require buf_in >>= λ buf.
      guard (ltb 0 len) >> (require (op.parse buf) >>= read_container op.text_of))
