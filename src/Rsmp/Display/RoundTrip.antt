-- ===== src/Rsmp/Display/RoundTrip.antt =====
-- src/rsmp/sxl/display/disp_json_generic.c: what is written for a display is read as it was, and which
-- texts do not fit.
use rsmp_gatewa.Common.{
  ◌≡◌, refl, ap, ◌∙◌, ℕ, ◌<◌, arith, some, List, [], ◌∷◌, length, take, lt→ltb, All, CStr, codes,
  Outcome, str_eq, str_eq_refl, returned, ◌>>=◌,
}
use rsmp_gatewa.Coder.Container.{object_get_ex, member_value}
use rsmp_gatewa.Coder.Container.Open.{json_string}
use rsmp_gatewa.Coder.Container.Carried.{IsText}
use rsmp_gatewa.Rsmp.Values.{Json, text, array, object, Items, nil, cons, end, member, array_items}
use rsmp_gatewa.Rsmp.Display.{
  JsonReading, new_int, nearest_int, get_int, array_text, array_string, strncpy, decode_each,
  encode_each, copy_member, read_text, int_member, read_int, list_of, DisplayPoolElement,
  element_json, encode_element, read_element, decode_element, encode_disp_s40_status_response,
  decode_disp_s40_status_response, dup_string, string_items, encode_disp_s30_status_response,
  decode_disp_s30_status_response,
}

get_int-new_int : (rd : JsonReading) (w : ℕ) → w < 4294967296 → get_int rd (new_int w) ≡ w
unfolding get_int new_int nearest_int
get_int-new_int rd w h = ground arith

take_within : (n : ℕ) (s : CStr) → length s < n → take n s ≡ s
take_within ℕ.zero s h = absurd (omega arith)
take_within (ℕ.suc n) [] h = refl
take_within (ℕ.suc n) (c ∷ cs) h = ap (λ l. c ∷ l) (take_within n cs (omega arith))

-- A text that fits the array of its size, without a NUL.
abbrev pub Fits : ℕ → CStr → Type 0
Fits n s = (length s < n) × IsText s

pub array_string_lem : (n : ℕ) (s : CStr) → Fits n s → array_string n s ≡ returned (text s)
unfolding array_string array_text
array_string_lem n s fits = rw (lt→ltb _ _ fits.0) refl

pub copy_member_lem :
    (rd : JsonReading) (n : ℕ) (s old : CStr)
    → Fits n s
    → copy_member rd n (some (text s)) old ≡ returned s
unfolding copy_member strncpy json_string
copy_member_lem rd n s old fits = rw fits.1 (ap returned (take_within n s fits.0))

-- A round trip of every item is one of the list.
decode_each-encode_each :
    {A : Type 0} (P : A → Type 0) (f : A → Outcome Json) (g : Json → Outcome A)
    → ((a : A) → P a → (v : Json) × (f a ≡ returned v) × (g v ≡ returned a))
    → (l : List A) → All P l
    → (vs : Items) × (encode_each f l ≡ returned vs) × (decode_each g vs ≡ returned l)
unfolding encode_each decode_each
decode_each-encode_each P f g round [] h = (nil, refl, refl)
decode_each-encode_each P f g round (a ∷ l) (h, hs) =
    let (v, e, d) = round a h in
    let (vs, es, ds) = decode_each-encode_each P f g round l hs in
    (cons v vs, rw (e, es) refl, rw (d, ds) refl)

-- What an element of the pool of a display has to be: texts that fit and words.
pub record IsElement (e : DisplayPoolElement) : Type 0 where
  pub id_fits : Fits 64 e.msg_id
  pub data_fits : Fits 128 e.dynamic_data
  pub wait_word : e.max_wait_time < 4294967296
  pub wait_remain_word : e.max_wait_time_remain < 4294967296
  pub duration_word : e.display_duration < 4294967296
  pub duration_remain_word : e.display_duration_remain < 4294967296
  pub priority_word : e.display_priority < 4294967296

module _ (rd : JsonReading) (e : DisplayPoolElement) (ok : IsElement e) where
  abbrev written_element : Json
  written_element = element_json e (text e.msg_id) (text e.dynamic_data)

  texts_read :
      (read_text rd 64 written_element (codes "msgId") [] ≡ returned e.msg_id)
      × (read_text rd 128 written_element (codes "dynamicData") [] ≡ returned e.dynamic_data)
  unfolding read_text object_get_ex member_value str_eq
  texts_read = (
    copy_member_lem rd 64 e.msg_id [] ok.id_fits,
    copy_member_lem rd 128 e.dynamic_data [] ok.data_fits,
  )

  waits_read :
      (read_int rd written_element (codes "maxWaitTime") 0 ≡ e.max_wait_time)
      × (read_int rd written_element (codes "maxWaitTimeRemain") 0 ≡ e.max_wait_time_remain)
  unfolding read_int object_get_ex member_value int_member str_eq
  waits_read = (
    get_int-new_int rd e.max_wait_time ok.wait_word,
    get_int-new_int rd e.max_wait_time_remain ok.wait_remain_word,
  )

  durations_read :
      (read_int rd written_element (codes "displayDuration") 0 ≡ e.display_duration)
      × (read_int rd written_element (codes "displayDurationRemain") 0 ≡ e.display_duration_remain)
      × (read_int rd written_element (codes "displayPriority") 0 ≡ e.display_priority)
  unfolding read_int object_get_ex member_value int_member str_eq
  durations_read = (
    get_int-new_int rd e.display_duration ok.duration_word,
    get_int-new_int rd e.display_duration_remain ok.duration_remain_word,
    get_int-new_int rd e.display_priority ok.priority_word,
  )

  read_element_lem : read_element rd written_element e.msg_id e.dynamic_data ≡ e
  unfolding read_element
  read_element_lem =
      cc (waits_read.0, waits_read.1, durations_read.0, durations_read.1, durations_read.2)

  decode_element_lem : decode_element rd written_element ≡ returned e
  unfolding decode_element
  decode_element_lem =
      ap
        (λ o. o >>= λ id. read_text rd 128 written_element (codes "dynamicData") [] >>= λ dynamic.
          returned (read_element rd written_element id dynamic))
        texts_read.0
      ∙ ap (λ o. o >>= λ dynamic. returned (read_element rd written_element e.msg_id dynamic))
          texts_read.1
      ∙ ap returned read_element_lem

  encode_element_lem : encode_element e ≡ returned written_element
  unfolding encode_element
  encode_element_lem =
      rw (array_string_lem 64 e.msg_id ok.id_fits, array_string_lem 128 e.dynamic_data ok.data_fits)
        refl

list_of_lem :
    (key : CStr) (vs : Items)
    → list_of key (some (object (member key (array vs) end))) ≡ returned vs
unfolding list_of object_get_ex member_value array_items
list_of_lem key vs = rw (str_eq_refl key) refl

-- The pool of a display, of elements whose texts are without a NUL and fit their arrays, is written as
-- JSON and read back as it was.
pub decode_disp_s40-encode_disp_s40 :
    (rd : JsonReading) (es : List DisplayPoolElement)
    → All IsElement es
    → (v : Json) × (encode_disp_s40_status_response es ≡ returned v)
      × (decode_disp_s40_status_response rd (some v) ≡ returned es)
unfolding encode_disp_s40_status_response decode_disp_s40_status_response
decode_disp_s40-encode_disp_s40 rd es h =
    let (vs, encs, decs) =
      decode_each-encode_each IsElement encode_element (decode_element rd)
        (λ e ok. (
          element_json e (text e.msg_id) (text e.dynamic_data),
          encode_element_lem rd e ok,
          decode_element_lem rd e ok,
        ))
        es h in
    (
      object (member (codes "displayPoolList") (array vs) end),
      ap (λ o. o >>= λ vs'. returned (object (member (codes "displayPoolList") (array vs') end)))
          encs,
      ap (λ o. o >>= decode_each (decode_element rd)) (list_of_lem (codes "displayPoolList") vs)
          ∙ decs,
    )

each_dup_string :
    (rd : JsonReading) (ids : List CStr)
    → All IsText ids
    → decode_each (dup_string rd) (string_items ids) ≡ returned ids
unfolding decode_each string_items dup_string json_string
each_dup_string rd [] h = refl
each_dup_string rd (s ∷ ss) (h, hs) = rw (h, each_dup_string rd ss hs) refl

-- The list of the messages of a display is written as JSON and read back as it was.
pub decode_disp_s30-encode_disp_s30 :
    (rd : JsonReading) (ids : List CStr)
    → All IsText ids
    → decode_disp_s30_status_response rd (some (encode_disp_s30_status_response ids)) ≡ returned ids
unfolding encode_disp_s30_status_response decode_disp_s30_status_response
decode_disp_s30-encode_disp_s30 rd ids h =
    ap (λ o. o >>= decode_each (dup_string rd)) (list_of_lem (codes "msgIdList") (string_items ids))
    ∙ each_dup_string rd ids h
