-- ===== src/Coder/Container/Carried.antt =====
-- src/coder/coder.c: what the libraries have to do for a text that is sent to a peer.
use rsmp_gatewa.Common.{
  ◌≡◌, ℕ, suc, refl, sym, ap, ◌∙◌, true, some, List, [], ◌∷◌, CStr, codes, str_eq, returned,
}
use rsmp_gatewa.Coder.Message.{Object, Value, str, bool, strings, other}
use rsmp_gatewa.Coder.Secrets.{Backend, Class, internal, external, class_text, ptxt_serialize}
use rsmp_gatewa.Coder.Container.{
  Opening, Ptxt, read_ptxt, ptxt_deserial, ptxt_is_valid, ptxt_json_extract_field, object_get_ex,
  member_value, string_of, class_of_text,
}
use rsmp_gatewa.Coder.Container.Seal.{sealed_text}
use rsmp_gatewa.Coder.Container.Open.{coder_cipher_decrypt, accept}
use rsmp_gatewa.Rsmp.Values.{
  Json, Items, nil, cons, Members, end, member, nothing, text, boolean, array, object, c_str,
}

-- What json-c reads of an object that it printed.
abbrev pub as_items : List CStr → Items
as_items [] = nil
as_items (s ∷ ss) = cons (text s) (as_items ss)

abbrev pub as_value : Value → Json
as_value (str s) = text s
as_value (bool b) = boolean b
as_value (strings l) = array (as_items l)
as_value other = nothing

abbrev pub as_members : Object → Members
as_members [] = end
as_members ((k, v) ∷ o) = member k (as_value v) (as_members o)

abbrev pub as_json : Object → Json
as_json o = object (as_members o)

-- A text without a NUL.
abbrev pub IsText : CStr → Type 0
IsText s = c_str s ≡ s

abbrev pub ptxt_object : Backend → ℕ → CStr → Class → Object
ptxt_object backend ts original class =
    (codes "timestamp", str (backend.time_text ts))
    ∷ (codes "original", str original)
    ∷ (codes "class", str (class_text class))
    ∷ []

abbrev pub some_ptxt : ℕ → CStr → Class → Ptxt
some_ptxt ts original class = record {
  original = some original;
  class = some class;
  timestamp = ts;
}

-- A text that the libraries carry under the key: json-c reads its object back, the time that is
-- printed is read back, the cipher decrypts what it encrypts, and the text is valid when it is read
-- as the item of this number.
pub record IsCarried (op : Opening) (backend : Backend) (lib : CStr) (key : List ℕ) (i : ℕ)
    (p : Ptxt) : Type 0 where
  pub original : CStr
  pub kind : Class
  pub is_ptxt : p ≡ some_ptxt p.timestamp original kind
  pub is_text : IsText original
  pub reparses :
      op.parse (backend.print (ptxt_object backend p.timestamp original kind))
      ≡ some (as_json (ptxt_object backend p.timestamp original kind))
  pub rereads : op.read_time (c_str (backend.time_text p.timestamp)) ≡ some p.timestamp
  pub sealed : CStr
  pub sealed_is_text : IsText sealed
  pub encrypts :
      backend.encrypt lib key (backend.print (ptxt_object backend p.timestamp original kind))
      ≡ returned sealed
  pub decrypts :
      op.decrypt lib key (some sealed)
      ≡ returned (backend.print (ptxt_object backend p.timestamp original kind))
  pub is_valid : ptxt_is_valid op.window (op.delta_ms i p.timestamp) p ≡ returned tt

abbrev pub AreCarried : Opening → Backend → CStr → List ℕ → ℕ → List Ptxt → Type 0
AreCarried op backend lib key i [] = Unit {0}
AreCarried op backend lib key i (p ∷ ps) =
    IsCarried op backend lib key i p × AreCarried op backend lib key (suc i) ps

read_class : (class : Class) → class_of_text (c_str (class_text class)) ≡ returned class
unfolding class_of_text c_str str_eq
read_class external = refl
read_class internal = refl

read_ptxt_object :
    (op : Opening) (backend : Backend) (ts : ℕ) (original : CStr) (class : Class)
    → IsText original
    → op.read_time (c_str (backend.time_text ts)) ≡ some ts
    → read_ptxt op (as_json (ptxt_object backend ts original class))
      ≡ returned (some_ptxt ts original class)
unfolding read_ptxt ptxt_json_extract_field object_get_ex member_value string_of str_eq
read_ptxt_object op backend ts original class t r = rw (r, read_class class, t) refl

pub accept-IsCarried :
    (op : Opening) (backend : Backend) (lib : CStr) (key : List ℕ) (i : ℕ) (p : Ptxt)
    → (h : IsCarried op backend lib key i p) → op.context_new lib ≡ true
    → accept op i (coder_cipher_decrypt op lib key (some h.sealed)) ≡ returned p
unfolding accept coder_cipher_decrypt ptxt_deserial
accept-IsCarried op backend lib key i p h context =
    let valid : ptxt_is_valid op.window (op.delta_ms i p.timestamp)
          (some_ptxt p.timestamp h.original h.kind)
        ≡ returned tt =
      ap (λ q. ptxt_is_valid op.window (op.delta_ms i p.timestamp) q) (sym h.is_ptxt)
      ∙ h.is_valid in
    rw
      (
        context,
        h.decrypts,
        h.reparses,
        read_ptxt_object op backend p.timestamp h.original h.kind h.is_text h.rereads,
        valid,
      )
      (ap returned (sym h.is_ptxt))

pub sealed_text-IsCarried :
    (op : Opening) (backend : Backend) (lib : CStr) (key : List ℕ) (i : ℕ) (p : Ptxt)
    → (h : IsCarried op backend lib key i p)
    → sealed_text backend p.original p.class p.timestamp
      ≡ returned (backend.print (ptxt_object backend p.timestamp h.original h.kind))
unfolding sealed_text ptxt_serialize
sealed_text-IsCarried op backend lib key i p h =
    ap (λ (q : Ptxt). sealed_text backend q.original q.class p.timestamp) h.is_ptxt
