-- ===== src/Coder/Container/Sample.antt =====
-- src/coder/coder.c: two sites with one login and password, and the libraries that carry one text
-- between them, to run the models.
use rsmp_gatewa.Common.{
  ◌≡◌, on, ap, sym, ◌∙◌, subst, ℕ, refl, true, false, Option, none, some, List, [], ◌∷◌, ◌++◌, CStr,
  codes, returned, failed, fault, Outcome, append_ldc, find_by, str_eq,
}
use rsmp_gatewa.Auth.Pwd.{pwd_of, pwd_null}
use rsmp_gatewa.Auth.Entry.{Auth, auth_secret_get, auth_secret_add_or_update}
use rsmp_gatewa.Auth.Store.{Store, lookup, logins_of, sites_of}
use rsmp_gatewa.Coder.Message.{Object}
use rsmp_gatewa.Coder.Secrets.{
  Backend, Action, to_encrypt, external, get_current_passphrase, get_passphrase_for_pwd, strstr,
}
use rsmp_gatewa.Coder.Secrets.Agree.{IsCoherent, derived}
use rsmp_gatewa.Auth.Rotation.{bytes_at}
use rsmp_gatewa.Coder.Container.{Opening, Ptxt, object_get_ex, member_value, ptxt_is_valid}
use rsmp_gatewa.Coder.Container.Carried.{as_json, IsCarried, ptxt_object, some_ptxt}
use rsmp_gatewa.Coder.Container.Seal.{container, encode_items}
use rsmp_gatewa.Coder.Container.Open.{encrypted_decode}
use rsmp_gatewa.Coder.Container.Seal.{sealed_text, coder_encrypt, secret_to}
use rsmp_gatewa.Coder.Secrets.{ptxt_serialize, coder_secret_get}
use rsmp_gatewa.Coder.Container.{
  coder_auth_get, auth_for, if_active, keep, ptxt_deserial, read_ptxt, ptxt_json_extract_field,
  string_of, class_of_text,
}
use rsmp_gatewa.Auth.Store.{auth_find_by_key}
use rsmp_gatewa.Coder.Container.Open.{
  open_container, read_container, decode_items, coder_decrypt, secret_from, accept, collect,
  if_some, coder_cipher_decrypt, json_string, text_is, is_empty,
}
use rsmp_gatewa.Rsmp.Values.{array_items}
use rsmp_gatewa.Rsmp.Values.{Json, c_str}

abbrev pub lib : CStr
lib = codes "AES128CTR"

-- json-c on the two texts that the example prints.
abbrev pub print : Object → CStr
print [] = []
print (x ∷ []) = []
print (x ∷ y ∷ z ∷ []) = codes "p"
print (x ∷ y ∷ []) = []
print (x ∷ y ∷ z ∷ w ∷ o) = []

abbrev pub backend : Backend
backend = record {
  key_gen = λ name source. returned source;
  encrypt = λ name k t. returned t;
  print = print;
  time_text = λ t. codes "now";
}

abbrev pub original : CStr
original = codes "{\"rSMsg\"}"

abbrev pub sent : Ptxt
sent = some_ptxt 7 original external

abbrev pub sealed_json : Json
sealed_json =
    as_json (container backend append_ldc lib (codes "A") (codes "u") (codes "a") (codes "p" ∷ []))

abbrev pub parse : CStr → Option Json
parse [] = some sealed_json
parse (c ∷ s) = some (as_json (ptxt_object backend 7 original external))

abbrev pub decrypt : CStr → List ℕ → Option CStr → Outcome CStr
decrypt name k none = failed
decrypt name k (some t) = returned t

abbrev pub opening : (CStr → Option Json) → Opening
opening p = record {
  context_new = λ name. true;
  decrypt = decrypt;
  parse = p;
  text_of = λ v. [];
  read_time = λ s. some 7;
  delta_ms = λ i ts. 20;
  window = 500;
}

abbrev pub mate : (d site : CStr) → Auth
mate d site = record {
  db_id = d;
  login = codes "a";
  s_id = site;
  active = true;
  pwd = pwd_of (1 ∷ 2 ∷ 3 ∷ []);
  timestamp = 5;
  new_pwd_pending = false;
  new_pwd = pwd_null;
  secrets = [];
}

abbrev pub store_of : (d site : CStr) → Store
store_of d site =
    record { db_id = d; s_ids = record { s_id = site; logins = mate d site ∷ [] } ∷ [] } ∷ []

pub no_secret :
    (d site : CStr) (action : Action) (local : CStr)
    → IsCoherent backend lib local (mate d site) action
unfolding auth_secret_get find_by
no_secret d site action local secret found = cc found

abbrev pub key : List ℕ
key = codes "Aa" ++ (1 ∷ 2 ∷ 3 ∷ []) ++ codes "B"

pub key-derived :
    derived backend lib (codes "A") (mate (codes "to") (codes "B")) to_encrypt ≡ returned key
unfolding derived get_current_passphrase get_passphrase_for_pwd bytes_at
key-derived = refl

pub valid_sent : ptxt_is_valid 500 20 sent ≡ returned tt
unfolding ptxt_is_valid strstr
valid_sent = refl

pub carried : IsCarried (opening parse) backend lib key 0 sent
unfolding c_str
carried = record {
  original = original;
  kind = external;
  is_ptxt = refl;
  is_text = refl;
  reparses = refl;
  rereads = refl;
  sealed = codes "p";
  sealed_is_text = refl;
  encrypts = refl;
  decrypts = refl;
  is_valid = valid_sent;
}

pub at_a :
    lookup (store_of (codes "to") (codes "B")) (codes "to") (codes "B") (codes "a")
    ≡ some (mate (codes "to") (codes "B"))
unfolding lookup logins_of sites_of find_by str_eq
at_a = refl

pub at_b :
    lookup (store_of (codes "from") (codes "A")) (codes "from") (codes "A") (codes "a")
    ≡ some (mate (codes "from") (codes "A"))
unfolding lookup logins_of sites_of find_by str_eq
at_b = refl

abbrev pub encoded_texts : Outcome (CStr × List CStr)
encoded_texts =
    (encode_items backend append_ldc lib (codes "A") (some (codes "a")) (some (codes "B")) []
      (sent ∷ []) (store_of (codes "to") (codes "B"))).1

pub encoded_once : encoded_texts ≡ returned (codes "a", codes "p" ∷ [])
unfolding encode_items on sealed_text ptxt_serialize coder_encrypt secret_to coder_auth_get auth_for
    auth_find_by_key lookup logins_of sites_of find_by str_eq if_active coder_secret_get
    auth_secret_get get_current_passphrase get_passphrase_for_pwd bytes_at keep
    auth_secret_add_or_update
encoded_once = refl

abbrev pub items_of : (o : Outcome (CStr × List CStr)) → CStr × List CStr → CStr × List CStr
items_of (returned r) d = r
items_of failed d = d
items_of fault d = d

pub reparsed :
    (items : List CStr)
    → encoded_texts ≡ returned (codes "a", items)
    → parse (print (container backend append_ldc lib (codes "A") (codes "u") (codes "a") items))
      ≡ some (as_json (container backend append_ldc lib (codes "A") (codes "u") (codes "a") items))
reparsed items e =
    let same : codes "p" ∷ [] ≡ items = ap (λ o. (items_of o ([], [])).1) (sym encoded_once ∙ e) in
    subst
      (λ l.
        some sealed_json
        ≡ some (as_json (container backend append_ldc lib (codes "A") (codes "u") (codes "a") l)))
      same refl

pub decoded_once :
    (encrypted_decode
      (opening parse)
      backend
      append_ldc
      lib
      (codes "B")
      (some [])
      9
      (store_of (codes "from") (codes "A"))).result
    ≡ returned (sent ∷ [])
unfolding encrypted_decode open_container read_container object_get_ex member_value str_eq
    json_string text_is array_items is_empty c_str decode_items coder_decrypt secret_from
    coder_auth_get auth_for auth_find_by_key lookup logins_of sites_of find_by if_active
    coder_secret_get auth_secret_get get_current_passphrase get_passphrase_for_pwd bytes_at keep
    coder_cipher_decrypt accept ptxt_deserial read_ptxt ptxt_json_extract_field string_of
    class_of_text ptxt_is_valid strstr collect if_some
decoded_once = refl
