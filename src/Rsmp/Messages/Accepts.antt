-- ===== src/Rsmp/Messages/Accepts.antt =====
-- What rsmp_json_payload2msg of src/rsmp/coder/json.c delivers, and what it does with a payload that
-- it cannot decode.
use rsmp_gatewa.Common.{
  ℕ, ◌≤◌, ◌≡◌, ◌≢◌, ◌⊎◌, refl, true, false, Option, none, some, arith, CStr, inl, inr, Outcome,
  returned, failed, fault, ◌>>=◌, ◌==◌,
}
use rsmp_gatewa.Rsmp.Values.{Json, json_object_get}
use rsmp_gatewa.Rsmp.Fields.{Texts}
use rsmp_gatewa.Rsmp.Coder.{
  Desc, stop, field, table, records, skipped, named, Memory, json_extract_fields,
}
use rsmp_gatewa.Rsmp.Descriptions.{
  MsgDesc, msg_no, message_desc_get, with_header, entry_at, if_active, active_entry,
}
use rsmp_gatewa.Rsmp.Messages.Distinct.{described-lt}
use rsmp_gatewa.Rsmp.Messages.{
  json_m_type_check, json_extract_type, Delivery, no_message, delivered, freed, after_extract,
  extract_body, extract_entry, extract_typed, read_object, read_parsed, payload2msg,
}

-- A description names a field so.
abbrev pub Names : CStr → Desc → Type 0
Names k stop = ⊥
Names k (field A lib c d) = (lib ≡ k) ⊎ Names k d
Names k (table A lib c d) = (lib ≡ k) ⊎ Names k d
Names k (records lib e d) = (lib ≡ k) ⊎ Names k d
Names k (skipped lib e d) = (lib ≡ k) ⊎ Names k d

-- A chain whose second step never returns does not return.
rest-ne-returned :
    {A B C : Type 0} (r : Outcome A) (s : Outcome C) (g : A → C → B) (b : B)
    → ((c : C) → s ≢ returned c)
    → (r >>= λ a. s >>= λ c. returned (g a c)) ≢ returned b
rest-ne-returned (returned a) (returned c) g b never e = never c refl
rest-ne-returned (returned a) failed g b never e = cc
rest-ne-returned (returned a) fault g b never e = cc
rest-ne-returned failed s g b never e = cc
rest-ne-returned fault s g b never e = cc

then-ne-returned :
    {A B : Type 0} (r : Outcome A) (s : Outcome B) (b : B)
    → s ≢ returned b
    → (r >>= λ a. s) ≢ returned b
then-ne-returned (returned a) s b never e = never e
then-ne-returned failed s b never e = cc
then-ne-returned fault s b never e = cc

failed-ne-returned {ℓ} : {B : Type ℓ} (b : B) → failed ≢ returned b
failed-ne-returned b e = cc

-- Without a member that the description names, the fields are not read.
extract-ne-returned :
    (d : Desc) (k : CStr) (v : Json) (m m' : Memory d)
    → Names k d
    → json_object_get v k ≡ none
    → json_extract_fields d v m ≢ returned m'
unfolding json_extract_fields named
extract-ne-returned stop k v m m' h missing = absurd h
extract-ne-returned (field A lib c d) k v (x, m) m' (inl same) missing =
    rw same (rw missing (failed-ne-returned m'))
extract-ne-returned (field A lib c d) k v (x, m) m' (inr below) missing =
    rest-ne-returned _ (json_extract_fields d v m) (λ y n. (y, n)) m'
      (λ n. extract-ne-returned d k v m n below missing)
extract-ne-returned (table A lib c d) k v (xs, m) m' (inl same) missing =
    rw same (rw missing (failed-ne-returned m'))
extract-ne-returned (table A lib c d) k v (xs, m) m' (inr below) missing =
    rest-ne-returned _ (json_extract_fields d v m) (λ y n. (y, n)) m'
      (λ n. extract-ne-returned d k v m n below missing)
extract-ne-returned (records lib e d) k v (ms, m) m' (inl same) missing =
    rw same (rw missing (failed-ne-returned m'))
extract-ne-returned (records lib e d) k v (ms, m) m' (inr below) missing =
    rest-ne-returned _ (json_extract_fields d v m) (λ y n. (y, n)) m'
      (λ n. extract-ne-returned d k v m n below missing)
extract-ne-returned (skipped lib e d) k v m m' (inl same) missing =
    rw same (rw missing (failed-ne-returned m'))
extract-ne-returned (skipped lib e d) k v m m' (inr below) missing =
    then-ne-returned _ (json_extract_fields d v m) m' (extract-ne-returned d k v m m' below missing)

-- The pointer to memory that was freed, or an access outside.
abbrev pub IsDangling : Outcome Delivery → Type 0
IsDangling (returned freed) = Unit
IsDangling fault = Unit
IsDangling (returned no_message) = ⊥
IsDangling (returned (delivered t d m)) = ⊥
IsDangling failed = ⊥

after_extract-IsDangling :
    (t : ℕ) (d : Desc) (r : Outcome (Memory d))
    → ((m : Memory d) → r ≢ returned m)
    → IsDangling (after_extract t d r)
unfolding after_extract
after_extract-IsDangling t d (returned m) never = absurd (never m refl)
after_extract-IsDangling t d failed never = tt
after_extract-IsDangling t d fault never = tt

left_out : (t : ℕ) → 9 ≤ t → t ≤ 12 → (t ≡ 9) ⊎ ((t ≡ 10) ⊎ ((t ≡ 11) ⊎ (t ≡ 12)))
left_out t low high = ground arith

module _ (texts : Texts) (parse : CStr → Option Json) (start : (d : Desc) → Memory d) where
  -- A payload with the header of the protocol and a type of a described message, in which a member
  -- is missing that the description of the type names, is never delivered as a message; the pointer
  -- that rsmp_json_payload2msg returns is not null either, but that of the message that it freed
  -- (or the call made an access outside an object before).
  pub payload2msg_missing :
      (payload k : CStr) (v : Json) (e : MsgDesc) (d : Desc)
      → parse payload ≡ some v
      → json_m_type_check v ≡ true
      → message_desc_get texts (json_extract_type v) ≡ some e
      → e.body ≡ some d
      → Names k d
      → json_object_get v k ≡ none
      → IsDangling (payload2msg texts parse start payload)
  unfolding payload2msg read_parsed read_object extract_typed extract_entry extract_body
  payload2msg_missing payload k v e d parsed ours known has names missing =
      let t = json_extract_type v in
      let small : (json_extract_type v == msg_no) ≡ false =
        ground (arith, described-lt texts (json_extract_type v) e known) in
      rw parsed (
        rw ours (
          rw small (
            rw known (
              rw has (
                after_extract-IsDangling t (with_header d)
                  (json_extract_fields (with_header d) v (tt, (t, start d)))
                  (λ m.
                    extract-ne-returned (with_header d) k v (tt, (t, start d)) m (inr (inr names))
                      missing))))))

  undescribed : (v : Json) (t : ℕ) → 9 ≤ t → t ≤ 12 → extract_typed texts parse start v t ≡ fault
  unfolding extract_typed message_desc_get entry_at active_entry if_active extract_entry
      extract_body
  undescribed v t low high = elim (left_out t low high) [
    | inl e ↦ rw e refl
    | inr (inl e) ↦ rw e refl
    | inr (inr (inl e)) ↦ rw e refl
    | inr (inr (inr e)) ↦ rw e refl
  ]

  -- A payload with the header of the protocol, whose type is one of the four messages with the
  -- acknowledgement included, which the table of the descriptions leaves out, makes
  -- rsmp_json_payload2msg call a null pointer, whatever else it holds.
  pub payload2msg_undescribed :
      (payload : CStr) (v : Json)
      → parse payload ≡ some v
      → json_m_type_check v ≡ true
      → 9 ≤ json_extract_type v
      → json_extract_type v ≤ 12
      → payload2msg texts parse start payload ≡ fault
  unfolding payload2msg read_parsed read_object
  payload2msg_undescribed payload v parsed ours low high =
      let small : (json_extract_type v == msg_no) ≡ false = ground arith in
      rw parsed (rw ours (rw small (undescribed v (json_extract_type v) low high)))
