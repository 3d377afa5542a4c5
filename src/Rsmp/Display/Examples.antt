-- ===== src/Rsmp/Display/Examples.antt =====
-- Displays on which the theorems about src/rsmp/sxl/display apply, and runs of its functions.
use rsmp_gatewa.Common.{
  ◌≡◌, refl, arith, some, [], ◌∷◌, replicate, length, CStr, codes, returned, failed, fault,
}
use rsmp_gatewa.Coder.Container.{object_get_ex, member_value}
use rsmp_gatewa.Rsmp.Values.{Json, text, object, end, c_str}
use rsmp_gatewa.Rsmp.Display.{
  JsonReading, DisplayPoolElement, element_json, encode_element, decode_element, copy_member,
  read_text, encode_disp_s40_status_response, decode_disp_s40_status_response,
  encode_disp_m32_command_request,
}
use rsmp_gatewa.Rsmp.Display.Commands.{status_of, behavior_of, decode_disp_m40_command_response}
use rsmp_gatewa.Rsmp.Display.RoundTrip.{IsElement, decode_disp_s40-encode_disp_s40}
use rsmp_gatewa.Rsmp.Display.Cut.{decode_element_cut}

abbrev reading : JsonReading
reading = record { text_of = λ v. []; int_of = λ v. 0 }

abbrev element_of : CStr → DisplayPoolElement
element_of id = record {
  msg_id = id;
  max_wait_time = 1000;
  max_wait_time_remain = 4294967295;
  display_duration = 5;
  display_duration_remain = 0;
  display_priority = 255;
  dynamic_data = codes "x";
}

element_of-IsElement : IsElement (element_of (codes "m1"))
unfolding c_str
element_of-IsElement = record {
  id_fits = (omega arith, refl);
  data_fits = (omega arith, refl);
  wait_word = omega arith;
  wait_remain_word = omega arith;
  duration_word = omega arith;
  duration_remain_word = omega arith;
  priority_word = omega arith;
}

decode_disp_s40-encode_disp_s40_example :
    (v : Json) × (encode_disp_s40_status_response (element_of (codes "m1") ∷ []) ≡ returned v)
    × (decode_disp_s40_status_response reading (some v) ≡ returned (element_of (codes "m1") ∷ []))
decode_disp_s40-encode_disp_s40_example =
    decode_disp_s40-encode_disp_s40 reading (element_of (codes "m1") ∷ [])
      (element_of-IsElement, tt)

abbrev long_id : CStr
long_id = replicate 70 b'm'

decode_element_cut_example :
    (d : DisplayPoolElement) × (decode_element reading
        (element_json (element_of long_id) (text long_id) (text (codes "x")))
      ≡ returned d)
    × (length d.msg_id ≡ 64)
    × (encode_element d ≡ fault)
unfolding c_str
decode_element_cut_example =
    decode_element_cut reading (element_of long_id) refl (omega arith) (omega arith, refl)

-- The array of an answer to M40 keeps what it had where the member is missing.
m40_keeps :
    decode_disp_m40_command_response reading (some (object end)) (record {
      msg_id = codes "old";
      behavior_used = [];
      ret_status = record { code = []; rea = [] };
    })
    ≡ returned (record {
      msg_id = codes "old";
      behavior_used = [];
      ret_status = record { code = []; rea = [] };
    })
unfolding decode_disp_m40_command_response read_text copy_member object_get_ex member_value
    behavior_of status_of
m40_keeps = refl

m32_empty : encode_disp_m32_command_request [] ≡ failed
unfolding encode_disp_m32_command_request
m32_empty = refl
