-- ===== src/Rsmp/Coder/Overflow.antt =====
-- What json_extract_fields of src/rsmp/coder/json.c does with a message of which one value does not fit
-- its memory when it is decoded.
use rsmp_gatewa.Common.{
  ◌≡◌, refl, ◌∙◌, false, some, List, [], ◌∷◌, All, ℕ, ◌*◌, leb, length, arith, inl, inr, ◌⊎◌,
  returned, fault,
}
use rsmp_gatewa.Rsmp.Values.{
  Var, Json, Items, Members, cons, end, object, array, text, string, object_add, pointer,
  find_member, json2vars, is_container, array_items, json_object_from_var,
}
use rsmp_gatewa.Rsmp.Fields.{Codec, v_codec, v_decode, copied_into}
use rsmp_gatewa.Rsmp.Coder.{
  Desc, stop, field, table, records, skipped, Memory, zeroed, encoded, json_add_array,
  json_add_fields, decoded, json_extract_field, json_extract_array, json_extract_fields, named,
  plain,
}
use rsmp_gatewa.Rsmp.Coder.RoundTrip.{
  Reads, IsReadable, IsFresh, IsDistinct, RoundTrips, find_member-object_add, extract-encoded,
  table-round, records-round, kept, array-pointer, fields-round,
}

-- A value that is written, and whose decoding writes behind its memory.
pub record Overflows {A : Type 0} (c : Codec A) (x : A) : Type 0 where
  pub value : Json
  pub var : Var
  pub written : encoded c x ≡ returned value
  pub filled : pointer value ≡ some value
  pub flat : is_container value ≡ false
  pub converted : json2vars value ≡ some var
  pub overflows : (old : A) → c.decode var old ≡ fault

-- An array of characters that is not empty.
pub v-Overflows : (c : ℕ) (cs : List ℕ) → Overflows v_codec (c ∷ cs)
unfolding v_codec encoded json_object_from_var json2vars pointer is_container v_decode copied_into
v-Overflows c cs = record {
  value = text (c ∷ cs);
  var = string (some (c ∷ cs));
  written = refl;
  filled = refl;
  flat = refl;
  converted = refl;
  overflows = λ old.
      let short : leb (length (c ∷ cs)) (length (c ∷ cs) * 0) ≡ false = ground arith in
      rw short refl;
}

-- One of the items has the one property, and all others the other one.
abbrev pub Once : {M : Type 0} → (M → Type 0) → (M → Type 0) → List M → Type 0
Once P Q [] = ⊥
Once P Q (m ∷ ms) = (P m × All Q ms) ⊎ (Q m × Once P Q ms)

-- One value of a message overflows, which may stand in a record of an array, and all others are read
-- back.
abbrev pub IsOverflowing : (d : Desc) → Memory d → Type 0
IsOverflowing stop m = ⊥
IsOverflowing (field A lib c d) (x, m) =
    (Reads c x × IsOverflowing d m) ⊎ (Overflows c x × IsReadable d m)
IsOverflowing (table A lib c d) (xs, m) = All (Reads c) xs × IsOverflowing d m
IsOverflowing (records lib e d) (ms, m) =
    (All (IsReadable e) ms × IsOverflowing d m)
    ⊎ (Once (IsOverflowing e) (IsReadable e) ms × IsReadable d m)
IsOverflowing (skipped lib e d) m = ⊥

abbrev Breaks : (d : Desc) → Memory d → Members → Type 0
Breaks d m o =
    (o' : Members) × (json_add_fields d m o ≡ returned o')
    × ((old : Memory d) → json_extract_fields d (object o') old ≡ fault)
    × ((k : List ℕ) → IsFresh k d → find_member k o' ≡ find_member k o)

extract-Overflows :
    {A : Type 0} (c : Codec A) (x old : A) (r : Overflows c x)
    → plain r.value (json_extract_field c r.value old) ≡ fault
unfolding plain json_extract_field decoded
extract-Overflows c x old r = rw (r.flat, r.converted) (r.overflows old)

records-overflow :
    (e : Desc) (ms : List (Memory e))
    → ((m : Memory e) → IsOverflowing e m → Breaks e m end)
    → ((m : Memory e) → IsReadable e m → RoundTrips e m end)
    → Once (IsOverflowing e) (IsReadable e) ms
    → (vs : Items) × (json_add_array (json_add_fields e) ms ≡ returned vs)
      × (json_extract_array (json_extract_fields e) (zeroed e) vs ≡ fault)
unfolding json_add_array json_extract_array
records-overflow e [] breaks rounds h = absurd h
records-overflow e (m ∷ ms) breaks rounds (inl (b, rs)) =
    let (o, w, back, other) = breaks m b in
    let (vs, ws, backs) = records-round e ms rounds rs in
    (cons (object o) vs, rw w (rw ws refl), rw (back (zeroed e)) refl)
records-overflow e (m ∷ ms) breaks rounds (inr (r, h)) =
    let (o, w, back, other) = rounds m r in
    let (vs, ws, backs) = records-overflow e ms breaks rounds h in
    (cons (object o) vs, rw w (rw ws refl), rw (back (zeroed e)) (rw backs refl))

pub fields-overflow :
    (d : Desc) (m : Memory d) (o : Members) → IsDistinct d → IsOverflowing d m → Breaks d m o
unfolding json_add_fields json_extract_fields array_items
fields-overflow stop m o distinct h = absurd h
fields-overflow (field A lib c d) (x, m) o (fresh, distinct) (inl (r, b)) =
    let (o', w, back, other) = fields-overflow d m (object_add lib r.value o) distinct b in
    (
      o',
      rw r.written w,
      λ (x0, m0).
          rw (kept lib d r.value o o' other fresh r.filled, named)
            (rw (extract-encoded c x x0 r) (rw (back m0) refl)),
      λ k (off, free). other k free ∙ find_member-object_add k lib r.value o off,
    )
fields-overflow (field A lib c d) (x, m) o (fresh, distinct) (inr (r, rs)) =
    let (o', w, back, other) = fields-round d m (object_add lib r.value o) distinct rs in
    (
      o',
      rw r.written w,
      λ (x0, m0).
          rw (kept lib d r.value o o' other fresh r.filled, named)
            (rw (extract-Overflows c x x0 r) refl),
      λ k (off, free). other k free ∙ find_member-object_add k lib r.value o off,
    )
fields-overflow (table A lib c d) (xs, m) o (fresh, distinct) (r, b) =
    let (vs, ws, backs) = table-round c xs r in
    let (o', w, back, other) = fields-overflow d m (object_add lib (array vs) o) distinct b in
    (
      o',
      rw ws w,
      λ (xs0, m0).
          rw (kept lib d (array vs) o o' other fresh (array-pointer vs), named)
            (rw (array_items, backs) (rw (back m0) refl)),
      λ k (off, free). other k free ∙ find_member-object_add k lib (array vs) o off,
    )
fields-overflow (records lib e d) (ms, m) o (fresh, inner, distinct) (inl (r, b)) =
    let (vs, ws, backs) = records-round e ms (λ n q. fields-round e n end inner q) r in
    let (o', w, back, other) = fields-overflow d m (object_add lib (array vs) o) distinct b in
    (
      o',
      rw ws w,
      λ (ms0, m0).
          rw (kept lib d (array vs) o o' other fresh (array-pointer vs), named)
            (rw (array_items, backs) (rw (back m0) refl)),
      λ k (off, free). other k free ∙ find_member-object_add k lib (array vs) o off,
    )
fields-overflow (records lib e d) (ms, m) o (fresh, inner, distinct) (inr (b, rs)) =
    let (vs, ws, backs) =
      records-overflow e ms (λ n q. fields-overflow e n end inner q)
        (λ n q. fields-round e n end inner q) b in
    let (o', w, back, other) = fields-round d m (object_add lib (array vs) o) distinct rs in
    (
      o',
      rw ws w,
      λ (ms0, m0).
          rw (kept lib d (array vs) o o' other fresh (array-pointer vs), named)
            (rw (array_items, backs) refl),
      λ k (off, free). other k free ∙ find_member-object_add k lib (array vs) o off,
    )
fields-overflow (skipped lib e d) m o distinct h = absurd h
