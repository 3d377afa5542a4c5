-- ===== src/Coder/Container/Crashes.antt =====
-- src/coder/coder.c: payloads that stop Encrypted_decode before it decrypts anything.
use rsmp_gatewa.Common.{
  ◌≡◌, ◌⊎◌, inl, inr, ℕ, refl, ap, ◌∙◌, true, Option, List, none, some, ltb, arith, CStr, codes,
  str_eq, Ldc, Outcome, returned, fault, ◌<◌, not, guard, ◌>>=◌, ◌>>◌,
}
use rsmp_gatewa.Auth.Store.{Store}
use rsmp_gatewa.Coder.Secrets.{Backend}
use rsmp_gatewa.Coder.Container.{Opening, Ptxt, keep, object_get_ex}
use rsmp_gatewa.Coder.Container.Open.{
  Container, read_container, accept, collect, coder_decrypt, secret_from, decode_items, json_string,
  encrypted_decode, open_container, text_is, is_empty,
}
use rsmp_gatewa.Rsmp.Values.{Json, Items, cons, nothing, array_items}

-- The six members of the payload.
pub record Members6 (v : Json) : Type 0 where
  pub m_type : Json
  pub type : Json
  pub m_id : Json
  pub login : Json
  pub s_id : Json
  pub jdata : Json
  pub has_m_type : object_get_ex v (codes "mType") ≡ some m_type
  pub has_type : object_get_ex v (codes "type") ≡ some type
  pub has_m_id : object_get_ex v (codes "mId") ≡ some m_id
  pub has_login : object_get_ex v (codes "login") ≡ some login
  pub has_s_id : object_get_ex v (codes "sId") ≡ some s_id
  pub has_data : object_get_ex v (codes "data") ≡ some jdata

module _ (text_of : Json → CStr) where
  -- What is done with the members once they are there.
  judged : (m_type type login s_id jdata : Json) → Outcome Container
  unfolding text_is
  judged m_type type login s_id jdata =
      text_is (codes "eRMsg") (json_string text_of m_type)
      >> (text_is (codes "Encrypted") (json_string text_of type)
          >> (array_items jdata >>= λ items.
              guard (not (is_empty items))
              >> returned (record {
                login = json_string text_of login;
                s_id = json_string text_of s_id;
                items = items;
              })))

  read_container-judged :
      (v : Json) (m : Members6 v)
      → read_container text_of v ≡ judged m.m_type m.type m.login m.s_id m.jdata
  unfolding read_container judged
  read_container-judged v m =
      rw (m.has_m_type, m.has_type, m.has_m_id, m.has_login, m.has_s_id, m.has_data) refl

  judged_untyped : (ty l i d : Json) → judged nothing ty l i d ≡ fault
  unfolding judged text_is json_string
  judged_untyped ty l i d = refl

  judged_half :
      (m l i d : Json)
      → json_string text_of m ≡ some (codes "eRMsg")
      → judged m nothing l i d ≡ fault
  unfolding judged text_is json_string str_eq
  judged_half m l i d right = rw right refl

  judged_right :
      (m ty l i d : Json)
      → json_string text_of m ≡ some (codes "eRMsg")
      → json_string text_of ty ≡ some (codes "Encrypted")
      → judged m ty l i d ≡ (
          array_items d >>= λ items.
          guard (not (is_empty items))
          >> returned (record {
            login = json_string text_of l;
            s_id = json_string text_of i;
            items = items;
          }))
  unfolding judged text_is str_eq
  judged_right m ty l i d right right' = rw (right, right') refl

  judged_bad :
      (m ty l i d : Json)
      → json_string text_of m ≡ some (codes "eRMsg")
      → json_string text_of ty ≡ some (codes "Encrypted")
      → array_items d ≡ fault
      → judged m ty l i d ≡ fault
  judged_bad m ty l i d right right' bad = judged_right m ty l i d right right' ∙ rw bad refl

  judged_no_site :
      (m ty l d w : Json) (ws : Items)
      → json_string text_of m ≡ some (codes "eRMsg")
      → json_string text_of ty ≡ some (codes "Encrypted")
      → array_items d ≡ returned (cons w ws)
      → judged m ty l nothing d
        ≡ returned (record { login = json_string text_of l; s_id = none; items = cons w ws })
  unfolding is_empty json_string
  judged_no_site m ty l d w ws right right' items =
      judged_right m ty l nothing d right right' ∙ rw items refl

-- A container of a payload without a site stops at its first item.
no_site :
    (op : Opening) (backend : Backend) (ldc : Ldc) (lib local : CStr) (s : Store)
    → (login : Option CStr) (w : Json) (ws : Items)
    → (open_container op backend ldc lib local s
        (returned (record { login = login; s_id = none; items = cons w ws }))).result
      ≡ fault
unfolding open_container decode_items coder_decrypt secret_from keep accept collect
no_site op backend ldc lib local s login w ws = refl

stopped :
    (op : Opening) (backend : Backend) (ldc : Ldc) (lib local : CStr) (s : Store)
    → (open_container op backend ldc lib local s fault).result ≡ fault
unfolding open_container
stopped op backend ldc lib local s = refl

-- A payload with the six members, of which mType is null, makes Encrypted_decode follow a null
-- pointer; so does one whose mType is right and whose type is null; and so does one whose header is
-- right, and whose data is no array (an assertion of json-c fails), or whose data is an array with
-- an item and whose sId is null (an assertion of coder_auth_get fails). No login, no key and no
-- entry has a part in it.
pub encrypted_decode_null :
    (op : Opening) (backend : Backend) (ldc : Ldc) (lib local buf : CStr) (len : ℕ) (s : Store)
    → (v : Json) (m : Members6 v) → 0 < len
    → op.parse buf ≡ some v
    → (m.m_type ≡ nothing)
      ⊎ ((json_string op.text_of m.m_type ≡ some (codes "eRMsg"))
          × ((m.type ≡ nothing)
              ⊎ ((json_string op.text_of m.type ≡ some (codes "Encrypted"))
                  × ((array_items m.jdata ≡ fault)
                      ⊎ ((w : Json) × (ws : Items) × (array_items m.jdata ≡ returned (cons w ws))
                          × (m.s_id ≡ nothing))))))
    → (encrypted_decode op backend ldc lib local (some buf) len s).result ≡ fault
unfolding encrypted_decode
encrypted_decode_null op backend ldc lib local buf len s v m pos parses h =
    let sent : ltb 0 len ≡ true = ground arith in
    let opened : Outcome Container → Outcome (List Ptxt) =
      λ c. (open_container op backend ldc lib local s c).result in
    rw (sent, parses)
      (ap opened (read_container-judged op.text_of v m) ∙ elim h [
        | inl absent ↦
            ap opened (
              ap (λ x. judged op.text_of x m.type m.login m.s_id m.jdata) absent
              ∙ judged_untyped op.text_of m.type m.login m.s_id m.jdata)
            ∙ stopped op backend ldc lib local s
        | inr (right, inl absent) ↦
            ap opened (
              ap (λ x. judged op.text_of m.m_type x m.login m.s_id m.jdata) absent
              ∙ judged_half op.text_of m.m_type m.login m.s_id m.jdata right)
            ∙ stopped op backend ldc lib local s
        | inr (right, inr (right', inl bad)) ↦
            ap opened
              (judged_bad op.text_of m.m_type m.type m.login m.s_id m.jdata right right' bad)
            ∙ stopped op backend ldc lib local s
        | inr (right, inr (right', inr (w, ws, items, absent))) ↦
            ap opened (
              ap (λ x. judged op.text_of m.m_type m.type m.login x m.jdata) absent
              ∙ judged_no_site op.text_of m.m_type m.type m.login m.jdata w ws right right' items)
            ∙ no_site op backend ldc lib local s (json_string op.text_of m.login) w ws
      ])
