-- ===== src/Rsmp/Coder.antt =====
-- src/rsmp/coder/json.c and the descriptions of src/rsmp/fields/fields.h: how the fields of a
-- message, which a description names one by one, become the members of a JSON object, and how they
-- are read from one. The memory of a message is the tuple of the fields that its description names.
pub mod RoundTrip
pub mod Codecs
pub mod Overflow
use rsmp_gatewa.Common.{
  Option, none, some, List, [], ◌∷◌, if◌then◌else◌, CStr, Outcome, returned, failed, ◌>>=◌,
}
use rsmp_gatewa.Rsmp.Values.{
  Var, Json, Items, Members, nil, cons, end, array, object, object_add, json_object_get,
  json_object_from_var, json2vars, is_container, array_items,
}
use rsmp_gatewa.Rsmp.Fields.{Codec}

-- rsmp_field_desc_t[]: field, table (of plain values), array (of records with a description of
-- their own) and object, which the coder skips.
pub data Desc : Type 1 where
  stop : Desc
  field : (A : Type 0) → CStr → Codec A → Desc → Desc
  table : (A : Type 0) → CStr → Codec A → Desc → Desc
  records : CStr → Desc → Desc → Desc
  skipped : CStr → Desc → Desc → Desc

abbrev pub Memory : Desc → Type 0
Memory stop = Unit {0}
Memory (field A lib c d) = A × Memory d
Memory (table A lib c d) = List A × Memory d
Memory (records lib e d) = List (Memory e) × Memory d
Memory (skipped lib e d) = Memory d

-- calloc. The arrays of new items have 0 as the size of their items; those of them that a description
-- reaches are arrays of characters, whose decoding uses that size (`calloc_item_len`).
unfoldable pub zeroed : (d : Desc) → Memory d
zeroed stop = tt
zeroed (field A lib c d) = (c.zero_value, zeroed d)
zeroed (table A lib c d) = ([], zeroed d)
zeroed (records lib e d) = ([], zeroed d)
zeroed (skipped lib e d) = zeroed d

-- One value of a field or of a table.
unfoldable pub encoded : {A : Type 0} → Codec A → A → Outcome Json
encoded c x = c.encode x >>= json_object_from_var

unfoldable pub json_add_table : {A : Type 0} → Codec A → List A → Outcome Items
unfolding encoded
json_add_table c [] = returned nil
json_add_table c (x ∷ xs) =
    encoded c x >>= λ v. json_add_table c xs >>= λ rest. returned (cons v rest)

unfoldable pub json_add_array {ℓ} :
    {M : Type ℓ} → (M → Members → Outcome Members) → List M → Outcome Items
json_add_array add [] = returned nil
json_add_array add (m ∷ ms) =
    add m end >>= λ o. json_add_array add ms >>= λ rest. returned (cons (object o) rest)

unfoldable pub json_add_fields : (d : Desc) → Memory d → Members → Outcome Members
unfolding encoded json_add_table json_add_array
json_add_fields stop m o = returned o
json_add_fields (field A lib c d) (x, m) o =
    encoded c x >>= λ v. json_add_fields d m (object_add lib v o)
json_add_fields (table A lib c d) (xs, m) o =
    json_add_table c xs >>= λ vs. json_add_fields d m (object_add lib (array vs) o)
json_add_fields (records lib e d) (ms, m) o = json_add_array (json_add_fields e) ms >>= λ vs.
    json_add_fields d m (object_add lib (array vs) o)
json_add_fields (skipped lib e d) m o = json_add_fields d m o

-- The decoding of the variable; without one the field is refused.
unfoldable pub decoded : {A : Type 0} → Codec A → Option Var → A → Outcome A
decoded c none x = failed
decoded c (some var) x = c.decode var x

unfoldable pub json_extract_field : {A : Type 0} → Codec A → Json → A → Outcome A
unfolding decoded
json_extract_field c v x = decoded c (json2vars v) x

-- The elements are read into new memory.
unfoldable pub json_extract_table : {A : Type 0} → Codec A → Items → Outcome (List A)
unfolding json_extract_field
json_extract_table c nil = returned []
json_extract_table c (cons v vs) =
    json_extract_field c v c.zero_value >>= λ x. json_extract_table c vs >>= λ xs. returned (x ∷ xs)

unfoldable pub json_extract_array {ℓ} :
    {M : Type ℓ} → (Json → M → Outcome M) → M → Items → Outcome (List M)
json_extract_array extract new nil = returned []
json_extract_array extract new (cons v vs) =
    extract v new >>= λ m. json_extract_array extract new vs >>= λ ms. returned (m ∷ ms)

-- The value of a field that the description names; without one the message is refused.
unfoldable pub named {ℓ} : {A : Type ℓ} → Option Json → (Json → Outcome A) → Outcome A
named none k = failed
named (some v) k = k v

-- A plain field is refused for an array or an object.
unfoldable pub plain {ℓ} : {A : Type ℓ} → Json → Outcome A → Outcome A
unfolding is_container
plain v k = if is_container v then failed else k

unfoldable pub json_extract_fields : (d : Desc) → Json → Memory d → Outcome (Memory d)
unfolding json_extract_field json_extract_table json_extract_array named plain
json_extract_fields stop v m = returned m
json_extract_fields (field A lib c d) v (x, m) =
    named (json_object_get v lib) (λ w. plain w (json_extract_field c w x)) >>= λ x'.
    json_extract_fields d v m >>= λ m'. returned (x', m')
json_extract_fields (table A lib c d) v (xs, m) =
    named (json_object_get v lib) (λ w. array_items w >>= json_extract_table c) >>= λ xs'.
    json_extract_fields d v m >>= λ m'. returned (xs', m')
json_extract_fields (records lib e d) v (ms, m) =
    named (json_object_get v lib)
      (λ w. array_items w >>= json_extract_array (json_extract_fields e) (zeroed e))
    >>= λ ms'. json_extract_fields d v m >>= λ m'. returned (ms', m')
json_extract_fields (skipped lib e d) v m =
    let found : Outcome (Unit {0}) = named (json_object_get v lib) (λ w. returned tt) in
    found >>= λ u. json_extract_fields d v m
