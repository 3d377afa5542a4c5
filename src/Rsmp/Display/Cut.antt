-- ===== src/Rsmp/Display/Cut.antt =====
-- src/rsmp/sxl/display/disp_json_generic.c: a text that is as long as its array leaves no NUL in it.
use rsmp_gatewa.Common.{
  ◌≡◌, refl, ap, ◌∙◌, ℕ, ◌≤◌, arith, false, some, [], ◌∷◌, length, take, ltb, CStr, str_eq,
  returned, fault, ◌>>=◌,
}
use rsmp_gatewa.Coder.Container.{object_get_ex, member_value}
use rsmp_gatewa.Coder.Container.Open.{json_string}
use rsmp_gatewa.Coder.Container.Carried.{IsText}
use rsmp_gatewa.Rsmp.Values.{Json, text}
use rsmp_gatewa.Rsmp.Display.{
  JsonReading, array_text, array_string, strncpy, copy_member, read_text, DisplayPoolElement,
  element_json, read_element, encode_element, decode_element,
}
use rsmp_gatewa.Rsmp.Display.RoundTrip.{Fits, copy_member_lem}

length_take : (n : ℕ) (s : CStr) → n ≤ length s → length (take n s) ≡ n
length_take ℕ.zero s h = refl
length_take (ℕ.suc n) [] h = absurd (omega arith)
length_take (ℕ.suc n) (c ∷ cs) h = ap ℕ.suc (length_take n cs (omega arith))

copy_member_cut :
    (rd : JsonReading) (n : ℕ) (s old : CStr)
    → IsText s
    → copy_member rd n (some (text s)) old ≡ returned (take n s)
unfolding copy_member strncpy json_string
copy_member_cut rd n s old plain = rw plain refl

array_string_cut : (n : ℕ) (s : CStr) → n ≤ length s → array_string n s ≡ fault
unfolding array_string array_text
array_string_cut n s full = let over : ltb (length s) n ≡ false = ground arith in rw over refl

encode_element_cut : (d : DisplayPoolElement) → 64 ≤ length d.msg_id → encode_element d ≡ fault
unfolding encode_element
encode_element_cut d full = rw (array_string_cut 64 d.msg_id full) refl

-- An element of the pool of a display with an identifier of 64 bytes or more is decoded into one whose
-- array has 64 bytes and no NUL; to write it again reads behind the array.
pub decode_element_cut :
    (rd : JsonReading) (e : DisplayPoolElement)
    → IsText e.msg_id
    → 64 ≤ length e.msg_id
    → Fits 128 e.dynamic_data
    → (d : DisplayPoolElement) × (decode_element rd
          (element_json e (text e.msg_id) (text e.dynamic_data))
        ≡ returned d)
      × (length d.msg_id ≡ 64)
      × (encode_element d ≡ fault)
unfolding decode_element read_element read_text object_get_ex member_value str_eq
decode_element_cut rd e plain long fits =
    let v : Json = element_json e (text e.msg_id) (text e.dynamic_data) in
    let d : DisplayPoolElement = read_element rd v (take 64 e.msg_id) e.dynamic_data in
    (
      d,
      ap
            (λ o. o >>= λ id. copy_member rd 128 (some (text e.dynamic_data)) [] >>= λ dynamic.
              returned (read_element rd v id dynamic))
            (copy_member_cut rd 64 e.msg_id [] plain)
          ∙ ap (λ o. o >>= λ dynamic. returned (read_element rd v (take 64 e.msg_id) dynamic))
              (copy_member_lem rd 128 e.dynamic_data [] fits),
      length_take 64 e.msg_id long,
      encode_element_cut d (omega (arith, length_take 64 e.msg_id long)),
    )
