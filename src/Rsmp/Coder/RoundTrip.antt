-- ===== src/Rsmp/Coder/RoundTrip.antt =====
-- What json_add_fields of src/rsmp/coder/json.c writes, json_extract_fields reads.
use rsmp_gatewa.Common.{
  ◌≡◌, refl, ◌∙◌, false, some, List, [], ◌∷◌, All, CStr, str_eq, str_eq_refl, str_eq→eq, inl, inr,
  Bool-cases, returned, ◌>>=◌,
}
use rsmp_gatewa.Rsmp.Values.{
  Var, Json, Items, Members, nil, cons, end, member, object, array, object_add, pointer,
  find_member, json_object_get, json2vars, is_container, array_items,
}
use rsmp_gatewa.Rsmp.Fields.{Codec}
use rsmp_gatewa.Rsmp.Coder.{
  Desc, stop, field, table, records, skipped, Memory, zeroed, encoded, json_add_table,
  json_add_array, json_add_fields, decoded, json_extract_field, json_extract_table,
  json_extract_array, json_extract_fields, named, plain,
}

-- A value that is written as one that is read as it.
pub record Reads {A : Type 0} (c : Codec A) (x : A) : Type 0 where
  pub value : Json
  pub var : Var
  pub written : encoded c x ≡ returned value
  pub filled : pointer value ≡ some value
  pub flat : is_container value ≡ false
  pub converted : json2vars value ≡ some var
  pub reads : (old : A) → c.decode var old ≡ returned x

-- Each field of a message is such a value, down to those of its records.
abbrev pub IsReadable : (d : Desc) → Memory d → Type 0
IsReadable stop m = Unit
IsReadable (field A lib c d) (x, m) = Reads c x × IsReadable d m
IsReadable (table A lib c d) (xs, m) = All (Reads c) xs × IsReadable d m
IsReadable (records lib e d) (ms, m) = All (IsReadable e) ms × IsReadable d m
IsReadable (skipped lib e d) m = ⊥

-- A description has no field of that name.
abbrev pub IsFresh : CStr → Desc → Type 0
IsFresh k stop = Unit
IsFresh k (field A lib c d) = (str_eq lib k ≡ false) × IsFresh k d
IsFresh k (table A lib c d) = (str_eq lib k ≡ false) × IsFresh k d
IsFresh k (records lib e d) = (str_eq lib k ≡ false) × IsFresh k d
IsFresh k (skipped lib e d) = (str_eq lib k ≡ false) × IsFresh k d

-- No description has two fields of one name.
abbrev pub IsDistinct : Desc → Type 0
IsDistinct stop = Unit
IsDistinct (field A lib c d) = IsFresh lib d × IsDistinct d
IsDistinct (table A lib c d) = IsFresh lib d × IsDistinct d
IsDistinct (records lib e d) = IsFresh lib d × IsDistinct e × IsDistinct d
IsDistinct (skipped lib e d) = IsDistinct d

pub find_member-object_add_self :
    (k : CStr) (v : Json) (o : Members) → find_member k (object_add k v o) ≡ pointer v
unfolding find_member object_add
find_member-object_add_self k v end = rw (str_eq_refl k)
find_member-object_add_self k v (member j w o) = elim (Bool-cases (str_eq j k)) [
  | inl same ↦ rw (same, find_member) (rw same refl)
  | inr other ↦ rw (other, find_member) (rw other (find_member-object_add_self k v o))
]

pub find_member-object_add :
    (j k : CStr) (v : Json) (o : Members)
    → str_eq k j ≡ false
    → find_member j (object_add k v o) ≡ find_member j o
unfolding find_member object_add
find_member-object_add j k v end h = rw h refl
find_member-object_add j k v (member i w o) h = elim (Bool-cases (str_eq i k)) [
  | inl same ↦ rw (same, find_member) (let e = str_eq→eq i k same in rw e (rw h refl))
  | inr other ↦ rw (other, find_member) (rw (find_member-object_add j k v o h) refl)
]

-- The value is read back through the member that holds it.
pub extract-encoded :
    {A : Type 0} (c : Codec A) (x old : A) (r : Reads c x)
    → plain r.value (json_extract_field c r.value old) ≡ returned x
unfolding plain json_extract_field decoded
extract-encoded c x old r = rw (r.flat, r.converted) (r.reads old)

pub table-round :
    {A : Type 0} (c : Codec A) (xs : List A)
    → All (Reads c) xs
    → (vs : Items) × (json_add_table c xs ≡ returned vs) × (json_extract_table c vs ≡ returned xs)
unfolding json_add_table json_extract_table json_extract_field decoded
table-round c [] h = (nil, refl, refl)
table-round c (x ∷ xs) (r, h) =
    let (vs, w, back) = table-round c xs h in
    (
      cons r.value vs,
      rw r.written (rw w refl),
      rw r.converted (rw (r.reads c.zero_value) (rw back refl)),
    )

-- What a description and a value of it owe: the object that gets the members, the value that is
-- read from it, and every other member as it was.
abbrev pub RoundTrips : (d : Desc) → Memory d → Members → Type 0
RoundTrips d m o =
    (o' : Members) × (json_add_fields d m o ≡ returned o')
    × ((old : Memory d) → json_extract_fields d (object o') old ≡ returned m)
    × ((k : CStr) → IsFresh k d → find_member k o' ≡ find_member k o)

pub records-round :
    (e : Desc) (ms : List (Memory e))
    → ((m : Memory e) → IsReadable e m → RoundTrips e m end)
    → All (IsReadable e) ms
    → (vs : Items) × (json_add_array (json_add_fields e) ms ≡ returned vs)
      × (json_extract_array (json_extract_fields e) (zeroed e) vs ≡ returned ms)
unfolding json_add_array json_extract_array
records-round e [] ih h = (nil, refl, refl)
records-round e (m ∷ ms) ih (r, h) =
    let (o, w, back, other) = ih m r in
    let (vs, ws, backs) = records-round e ms ih h in
    (cons (object o) vs, rw w (rw ws refl), rw (back (zeroed e)) (rw backs refl))

-- The member that was added is found behind the fields that follow it.
pub kept :
    (lib : CStr) (d : Desc) (v : Json) (o o' : Members)
    → ((k : CStr) → IsFresh k d → find_member k o' ≡ find_member k (object_add lib v o))
    → IsFresh lib d
    → pointer v ≡ some v
    → json_object_get (object o') lib ≡ some v
unfolding json_object_get
kept lib d v o o' other fresh filled =
    other lib fresh ∙ (find_member-object_add_self lib v o ∙ filled)

pub array-pointer : (vs : Items) → pointer (array vs) ≡ some (array vs)
unfolding pointer
array-pointer vs = refl

pub fields-round :
    (d : Desc) (m : Memory d) (o : Members) → IsDistinct d → IsReadable d m → RoundTrips d m o
unfolding json_add_fields json_extract_fields array_items
fields-round stop m o distinct r = (o, refl, λ old. refl, λ k fresh. refl)
fields-round (field A lib c d) (x, m) o (fresh, distinct) (r, rs) =
    let (o', w, back, other) = fields-round d m (object_add lib r.value o) distinct rs in
    (
      o',
      rw r.written w,
      λ (x0, m0).
          rw (kept lib d r.value o o' other fresh r.filled, named)
            (rw (extract-encoded c x x0 r) (rw (back m0) refl)),
      λ k (off, free). other k free ∙ find_member-object_add k lib r.value o off,
    )
fields-round (table A lib c d) (xs, m) o (fresh, distinct) (r, rs) =
    let (vs, ws, backs) = table-round c xs r in
    let (o', w, back, other) = fields-round d m (object_add lib (array vs) o) distinct rs in
    (
      o',
      rw ws w,
      λ (xs0, m0).
          rw (kept lib d (array vs) o o' other fresh (array-pointer vs), named)
            (rw (array_items, backs) (rw (back m0) refl)),
      λ k (off, free). other k free ∙ find_member-object_add k lib (array vs) o off,
    )
fields-round (records lib e d) (ms, m) o (fresh, inner, distinct) (r, rs) =
    let (vs, ws, backs) = records-round e ms (λ n q. fields-round e n end inner q) r in
    let (o', w, back, other) = fields-round d m (object_add lib (array vs) o) distinct rs in
    (
      o',
      rw ws w,
      λ (ms0, m0).
          rw (kept lib d (array vs) o o' other fresh (array-pointer vs), named)
            (rw (array_items, backs) (rw (back m0) refl)),
      λ k (off, free). other k free ∙ find_member-object_add k lib (array vs) o off,
    )
fields-round (skipped lib e d) m o distinct r = absurd r

-- For a description whose names are distinct, and a message of values that are each written as one
-- that is read as it: json_add_fields gives an object, and json_extract_fields reads the message
-- from it, whatever the memory held before. The records of an array are included.
pub json_extract_fields-json_add_fields :
    (d : Desc) (m old : Memory d)
    → IsDistinct d
    → IsReadable d m
    → (json_add_fields d m end >>= λ o. json_extract_fields d (object o) old) ≡ returned m
json_extract_fields-json_add_fields d m old distinct r =
    let (o, w, back, other) = fields-round d m end distinct r in rw w (back old)
