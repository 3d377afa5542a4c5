-- ===== src/Rsmp/Display/Commands.antt =====
-- src/rsmp/sxl/display/disp_json_generic.c: the commands M31, M40 and M41 for displays, and the answers
-- to M31, M32, M40 and M41. The structure of an answer to M40 and M41 is not cleared before it is
-- filled, so that it is an argument.
use rsmp_gatewa.Common.{
  ℕ, Option, none, some, List, [], ◌∷◌, CStr, codes, Outcome, returned, require, ◌>>=◌,
}
use rsmp_gatewa.Coder.Container.{object_get_ex}
use rsmp_gatewa.Coder.Container.Open.{json_string}
use rsmp_gatewa.Rsmp.Values.{Json, text, array, object, Members, end, member}
use rsmp_gatewa.Rsmp.Display.{
  JsonReading, new_int, array_string, strncpy, encode_each, decode_each, read_text, read_int,
  list_of,
}

pub record Content : Type 0 where
  pub content_type : CStr
  pub context_text : CStr
  pub on_duration : ℕ

pub record Animation : Type 0 where
  pub zone_id : CStr
  pub anim_type : CStr
  pub contents : List Content

pub record Sequence : Type 0 where
  pub template_id : CStr
  pub end_mode : CStr
  pub animations : List Animation

-- MessageObject
pub record DisplayMessage : Type 0 where
  pub msg_id : CStr
  pub repeat_count : ℕ
  pub sequences : List Sequence

unfoldable pub encode_content : Content → Outcome Json
unfolding array_string new_int
encode_content c = do
  type ← array_string 16 c.content_type
  context ← array_string 256 c.context_text
  returned (
      object (
        member (codes "contentType") type (
          member (codes "contextText") context (
            member (codes "duration")
              (object (member (codes "onDuration") (new_int c.on_duration) end)) end))))

unfoldable pub encode_animation : Animation → Outcome Json
unfolding array_string encode_each encode_content
encode_animation a = do
  zone ← array_string 32 a.zone_id
  type ← array_string 16 a.anim_type
  contents ← encode_each encode_content a.contents
  returned (
      object (
        member (codes "zoneId") zone
          (member (codes "animType") type (member (codes "contents") (array contents) end))))

unfoldable pub encode_sequence : Sequence → Outcome Json
unfolding array_string encode_each encode_animation
encode_sequence s = do
  template ← array_string 32 s.template_id
  ending ← array_string 16 s.end_mode
  animations ← encode_each encode_animation s.animations
  returned (
      object (
        member (codes "templateId") template
          (member (codes "end") ending (member (codes "animations") (array animations) end))))

unfoldable pub encode_message : DisplayMessage → Outcome Json
unfolding array_string new_int encode_each encode_sequence
encode_message m = do
  id ← array_string 64 m.msg_id
  sequences ← encode_each encode_sequence m.sequences
  returned (
      object (
        member (codes "msgId") id (
          member (codes "repeatCount") (new_int m.repeat_count)
            (member (codes "sequences") (array sequences) end))))

unfoldable pub encode_disp_m31_command_request : List DisplayMessage → Outcome Json
unfolding encode_each encode_message
encode_disp_m31_command_request ms = encode_each encode_message ms >>= λ vs.
    returned (object (member (codes "messages") (array vs) end))

-- RetStatusObject
pub record RetStatus : Type 0 where
  pub code : CStr
  pub rea : CStr

pub record RetMessage : Type 0 where
  pub msg_id : CStr
  pub ret_status : RetStatus

module _ (rd : JsonReading) where
  unfoldable pub status_of : Option Json → RetStatus → Outcome RetStatus
  unfolding read_text
  status_of none old = returned old
  status_of (some w) old = do
    code ← read_text rd 32 w (codes "code") old.code
    rea ← read_text rd 256 w (codes "rea") old.rea
    returned (record { code = code; rea = rea })

  unfoldable pub decode_ret_message : Json → Outcome RetMessage
  unfolding read_text status_of object_get_ex
  decode_ret_message v = do
    id ← read_text rd 64 v (codes "msgId") []
    status ← status_of (object_get_ex v (codes "retStatus")) (record { code = []; rea = [] })
    returned (record { msg_id = id; ret_status = status })

  -- The same code stands in decode_disp_m31_command_response and in decode_disp_m32_command_response.
  unfoldable pub decode_command_response : Option Json → Outcome (List RetMessage)
  unfolding list_of decode_each decode_ret_message
  decode_command_response root =
      list_of (codes "retMessages") root >>= decode_each decode_ret_message

-- DispM40CommandRequest
pub record M40Request : Type 0 where
  pub msg_id : CStr
  pub display_behavior : CStr
  pub max_wait_time : ℕ
  pub display_duration : ℕ
  pub display_priority : ℕ
  pub dynamic_data : CStr

-- The member is left out where it is empty.
unfoldable pub dynamic_member : CStr → Members
dynamic_member [] = end
dynamic_member (c ∷ cs) = member (codes "dynamicData") (text (c ∷ cs)) end

unfoldable pub encode_disp_m40_command_request : M40Request → Outcome Json
unfolding array_string new_int dynamic_member
encode_disp_m40_command_request r = do
  id ← array_string 64 r.msg_id
  behavior ← array_string 16 r.display_behavior
  dynamic ← array_string 256 r.dynamic_data
  returned (
      object (
        member (codes "msgId") id (
          member (codes "displayBehavior") behavior (
            member (codes "maxWaitTime") (new_int r.max_wait_time) (
              member (codes "displayDuration") (new_int r.display_duration) (
                member (codes "displayPriority") (new_int r.display_priority)
                  (dynamic_member r.dynamic_data)))))))

pub record M40Response : Type 0 where
  pub msg_id : CStr
  pub behavior_used : CStr
  pub ret_status : RetStatus

unfoldable pub or_empty : Option CStr → CStr
or_empty none = []
or_empty (some s) = s

module _ (rd : JsonReading) where
  -- A null text of behaviorUsed counts as an empty one.
  unfoldable pub behavior_of : Option Json → CStr → Outcome CStr
  unfolding json_string or_empty strncpy
  behavior_of none old = returned old
  behavior_of (some w) old = strncpy 16 (some (or_empty (json_string rd.text_of w)))

  unfoldable pub decode_disp_m40_command_response : Option Json → M40Response → Outcome M40Response
  unfolding read_text behavior_of status_of object_get_ex
  decode_disp_m40_command_response root res = do
    v ← require root
    id ← read_text rd 64 v (codes "msgId") res.msg_id
    behavior ← behavior_of (object_get_ex v (codes "behaviorUsed")) res.behavior_used
    status ← status_of rd (object_get_ex v (codes "retStatus")) res.ret_status
    returned (record { msg_id = id; behavior_used = behavior; ret_status = status })

unfoldable pub encode_disp_m41_command_request : CStr → ℕ → Outcome Json
unfolding array_string new_int
encode_disp_m41_command_request msg_id priority = do
  id ← array_string 64 msg_id
  returned
      (object (member (codes "msgId") id (member (codes "displayPriority") (new_int priority) end)))

pub record M41Response : Type 0 where
  pub msg_id : CStr
  pub display_priority : ℕ
  pub ret_status : RetStatus

unfoldable pub decode_disp_m41_command_response :
    JsonReading → Option Json → M41Response → Outcome M41Response
unfolding read_text read_int status_of object_get_ex
decode_disp_m41_command_response rd root res = do
  v ← require root
  id ← read_text rd 64 v (codes "msgId") res.msg_id
  status ← status_of rd (object_get_ex v (codes "retStatus")) res.ret_status
  returned (record {
    msg_id = id;
    display_priority = read_int rd v (codes "displayPriority") res.display_priority;
    ret_status = status;
  })
