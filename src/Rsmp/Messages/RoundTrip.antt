-- ===== src/Rsmp/Messages/RoundTrip.antt =====
-- The payload of a message, which rsmp_json_msg2payload of src/rsmp/coder/json.c writes, is read back
-- by rsmp_json_payload2msg.
use rsmp_gatewa.Common.{
  ℕ, ◌<◌, ◌≡◌, refl, ◌∙◌, true, false, Option, none, some, arith, CStr, codes, str_eq, inl, inr,
  Bool-cases, Outcome, returned, failed, ◌>>=◌, ◌==◌,
}
use rsmp_gatewa.Coder.Secrets.{strstr}
use rsmp_gatewa.Rsmp.Values.{
  Json, Members, end, member, object, text, array, object_add, find_member, json_object_get,
  json_object_from_var, text_or_empty, c_str,
}
use rsmp_gatewa.Rsmp.Fields.{Texts, m_type_check, m_type_codec, enum_codec}
use rsmp_gatewa.Rsmp.Fields.Names.{type_lib, lib_get}
use rsmp_gatewa.Rsmp.Fields.Tables.{enum-IsTable, find-get, get-IsText, lib_get-some}
use rsmp_gatewa.Rsmp.Coder.{Desc, Memory, json_add_fields, json_extract_fields, encoded}
use rsmp_gatewa.Rsmp.Coder.RoundTrip.{
  IsReadable, IsFresh, IsDistinct, fields-round, find_member-object_add,
}
use rsmp_gatewa.Rsmp.Coder.Codecs.{enum-Reads, m_type-Reads}
use rsmp_gatewa.Rsmp.Descriptions.{MsgDesc, msg_no, message_desc_get, with_header}
use rsmp_gatewa.Rsmp.Messages.{
  BodyMemory, EntryMemory, sxlg_items, with_sxlg, add_sxlg_to_json, with_version_mark,
  described_payload, body_payload, msg2payload, string_value, type_of_text, parsed_sxlg,
  entry_payload, extract_entry, read_parsed, json_m_type_check, json_extract_type, Delivery,
  no_message, delivered, after_extract, extract_body, extract_typed, read_object, payload2msg,
}
use rsmp_gatewa.Rsmp.Messages.Distinct.{
  IsClean, described-IsClean, described-lt, extract-object_add,
}

-- The object that begins every message.
abbrev pub header : CStr → Members
header s = member (codes "mType") (text (codes "rSMsg")) (member (codes "type") (text s) end)

-- What an object gives from which a message is read, with this result.
pub record Holds (t : ℕ) (d : Desc) (r : Outcome (Memory (with_header d))) (o : Members)
    : Type 0 where
  pub is_ours : json_m_type_check (object o) ≡ true
  pub has_type : json_extract_type (object o) ≡ t
  pub holds :
      (old : Memory (with_header d)) → json_extract_fields (with_header d) (object o) old ≡ r

-- The header is written first.
pub after-header :
    (t : ℕ) (d : Desc) (m : Memory d) (s : CStr)
    → lib_get type_lib t ≡ some s
    → json_add_fields (with_header d) (tt, (t, m)) end ≡ json_add_fields d m (header s)
unfolding json_add_fields encoded m_type_codec enum_codec json_object_from_var text_or_empty
    object_add str_eq
after-header t d m s has = rw has refl

-- The header is found in what follows it.
pub header-found :
    (t : ℕ) (s : CStr) (o : Members)
    → t < msg_no
    → lib_get type_lib t ≡ some s
    → find_member (codes "mType") o ≡ some (text (codes "rSMsg"))
    → find_member (codes "type") o ≡ some (text s)
    → (json_m_type_check (object o) ≡ true) × (json_extract_type (object o) ≡ t)
unfolding json_m_type_check json_extract_type type_of_text string_value json_object_get m_type_check
    c_str str_eq
header-found t s o lt has ours typed =
    let (filled, whole) = get-IsText type_lib t s (enum-IsTable 0 type_lib refl) has in
    (rw ours refl, rw typed (rw whole (find-get type_lib t s (enum-IsTable 0 type_lib refl) has)))

-- The members of a message: those of its header, and those of its body.
built :
    (t : ℕ) (d : Desc) (m : Memory d)
    → t < msg_no
    → IsDistinct (with_header d)
    → IsReadable d m
    → (o : Members) × (json_add_fields (with_header d) (tt, (t, m)) end ≡ returned o)
      × Holds t d (returned (tt, (t, m))) o
unfolding find_member str_eq
built t d m lt distinct r =
    let (s, has) = lib_get-some type_lib t lt in
    let (o, w, back, other) =
      fields-round (with_header d) (tt, (t, m)) end distinct
        (m_type-Reads, (enum-Reads 0 type_lib false t refl lt, r)) in
    let (o', w', back', other') = fields-round d m (header s) (distinct.1.1) r in
    let same : o ≡ o' = cc (w, w', after-header t d m s has) in
    let found =
      header-found t s o lt has (rw same (other' (codes "mType") (distinct.0.1) ∙ refl))
        (rw same (other' (codes "type") (distinct.1.0) ∙ refl)) in
    (o, w, record { is_ours = found.0; has_type = found.1; holds = back })

-- The member SXLG makes no difference to it.
Holds-sxlg :
    (t : ℕ) (d : Desc) (r : Outcome (Memory (with_header d))) (o : Members)
    → IsFresh (codes "SXLG") (with_header d)
    → Holds t d r o
    → Holds t d r (object_add (codes "SXLG") (array sxlg_items) o)
unfolding json_m_type_check json_extract_type json_object_get str_eq
Holds-sxlg t d r o fresh h = record {
  is_ours =
      rw (find_member-object_add (codes "mType") (codes "SXLG") (array sxlg_items) o refl)
        (h.is_ours);
  has_type =
      rw (find_member-object_add (codes "type") (codes "SXLG") (array sxlg_items) o refl)
        (h.has_type);
  holds = λ old.
      extract-object_add (with_header d) (codes "SXLG") (array sxlg_items) o old fresh
      ∙ h.holds old;
}

-- json-c reads back the objects that it printed for a message, with the member SXLG and without.
abbrev pub IsReprinted : (CStr → Option Json) → (Json → CStr) → Members → Type 0
IsReprinted parse print o =
    (parse (print (object o)) ≡ some (object o))
    × (parse (print (object (object_add (codes "SXLG") (array sxlg_items) o)))
        ≡ some (object (object_add (codes "SXLG") (array sxlg_items) o)))

-- A message of the described type is read as that description says.
pub read-entry :
    (texts : Texts) (parse : CStr → Option Json) (start : (d : Desc) → Memory d) (t : ℕ)
    (e : MsgDesc) (payload : CStr) (v : Json)
    → message_desc_get texts t ≡ some e
    → parse payload ≡ some v
    → json_m_type_check v ≡ true
    → json_extract_type v ≡ t
    → payload2msg texts parse start payload ≡ extract_body start v t e.body
unfolding payload2msg read_parsed read_object extract_typed extract_entry
read-entry texts parse start t e payload v known parsed ours typed =
    let small : (t == msg_no) ≡ false = ground (arith, described-lt texts t e known) in
    rw parsed (rw ours (rw typed (rw small (rw known refl))))

-- How a reader treats the objects of messages of a type.
abbrev pub Reader :
    (CStr → Option Json)
    → ((d : Desc) → Memory d)
    → ℕ
    → Option Desc
    → (CStr → Outcome Delivery)
    → Type 1
Reader parse start t b reader =
    (payload : CStr) (v : Json)
    → parse payload ≡ some v
    → json_m_type_check v ≡ true
    → json_extract_type v ≡ t
    → reader payload ≡ extract_body start v t b

Reader-Holds :
    (parse : CStr → Option Json) (start : (d : Desc) → Memory d) (t : ℕ) (d : Desc)
    (r : Outcome (Memory (with_header d))) (o : Members) (payload : CStr)
    (reader : CStr → Outcome Delivery)
    → Reader parse start t (some d) reader
    → parse payload ≡ some (object o)
    → Holds t d r o
    → reader payload ≡ after_extract t (with_header d) r
unfolding extract_body
Reader-Holds parse start t d r o payload reader reads parsed h =
    rw (reads payload (object o) parsed h.is_ours h.has_type) (rw (h.holds (tt, (t, start d))) refl)

-- The text of such an object is read as the message.
pub text-read :
    (print : Json → CStr) (parse : CStr → Option Json) (start : (d : Desc) → Memory d) (t : ℕ)
    (d : Desc) (r : Outcome (Memory (with_header d))) (o : Members)
    (reader : CStr → Outcome Delivery)
    → Reader parse start t (some d) reader
    → IsFresh (codes "SXLG") (with_header d)
    → Holds t d r o
    → IsReprinted parse print o
    → (with_version_mark print parse (print (object o)) >>= reader)
      ≡ after_extract t (with_header d) r
unfolding with_version_mark add_sxlg_to_json parsed_sxlg with_sxlg
text-read print parse start t d r o reader reads fresh h (plain, marked) =
    elim (Bool-cases (strstr (print (object o)) (codes "\"Version\""))) [
      | inl is ↦ rw is (
          rw plain (
            Reader-Holds parse start t d r (object_add (codes "SXLG") (array sxlg_items) o)
              (print (object (object_add (codes "SXLG") (array sxlg_items) o))) reader reads marked
              (Holds-sxlg t d r o fresh h)))
      | inr not ↦ rw not (Reader-Holds parse start t d r o (print (object o)) reader reads plain h)
    ]

-- A message that is read back, with the objects that json-c is given for it.
abbrev pub IsReadableBody : (b : Option Desc) → BodyMemory b → Type 0
IsReadableBody none m = ⊥
IsReadableBody (some d) m = IsReadable d m

abbrev pub IsReadableEntry : (r : Option MsgDesc) → EntryMemory r → Type 0
IsReadableEntry none m = ⊥
IsReadableEntry (some e) m = IsReadableBody e.body m

abbrev pub body_object : ℕ → (b : Option Desc) → BodyMemory b → Outcome Members
body_object t none m = failed
body_object t (some d) m = json_add_fields (with_header d) (tt, (t, m)) end

abbrev pub entry_object : ℕ → (r : Option MsgDesc) → EntryMemory r → Outcome Members
entry_object t none m = failed
entry_object t (some e) m = body_object t e.body m

abbrev pub body_delivery : ℕ → (b : Option Desc) → BodyMemory b → Delivery
body_delivery t none m = no_message
body_delivery t (some d) m = delivered t (with_header d) (tt, (t, m))

abbrev pub entry_delivery : ℕ → (r : Option MsgDesc) → EntryMemory r → Delivery
entry_delivery t none m = no_message
entry_delivery t (some e) m = body_delivery t e.body m

body-read :
    (print : Json → CStr) (parse : CStr → Option Json) (start : (d : Desc) → Memory d) (t : ℕ)
    (b : Option Desc) (m : BodyMemory b) (reader : CStr → Outcome Delivery)
    → t < msg_no
    → IsClean b
    → IsReadableBody b m
    → ((o : Members) → body_object t b m ≡ returned o → IsReprinted parse print o)
    → Reader parse start t b reader
    → (body_payload print parse t b m >>= reader) ≡ returned (body_delivery t b m)
unfolding body_payload described_payload
body-read print parse start t none m reader lt clean r json reads = absurd r
body-read print parse start t (some d) m reader lt clean r json reads =
    let (o, w, h) = built t d m lt (clean.0) r in
    rw w (
      text-read print parse start t d (returned (tt, (t, m))) o reader reads (clean.1) h (json o w)
      ∙ unfold after_extract in refl)

entry-read :
    (texts : Texts) (print : Json → CStr) (parse : CStr → Option Json)
    (start : (d : Desc) → Memory d) (t : ℕ) (r : Option MsgDesc) (m : EntryMemory r)
    → message_desc_get texts t ≡ r
    → IsReadableEntry r m
    → ((o : Members) → entry_object t r m ≡ returned o → IsReprinted parse print o)
    → (entry_payload print parse t r m >>= payload2msg texts parse start)
      ≡ returned (entry_delivery t r m)
unfolding entry_payload
entry-read texts print parse start t none m known r json = absurd r
entry-read texts print parse start t (some e) m known r json =
    body-read print parse start t e.body m (payload2msg texts parse start)
      (described-lt texts t e known) (described-IsClean texts t e known) r json
      (λ payload v parsed ours typed.
        read-entry texts parse start t e payload v known parsed ours typed)

-- For every message type that the table describes, and a message of values that are each written as
-- one that is read as it (of the arrays of characters v only the empty one): where json-c reads back
-- what it printed for the message, with the member SXLG and without, rsmp_json_msg2payload gives a
-- payload, and rsmp_json_payload2msg delivers the message from it, with its type and its fields,
-- whatever a new message of the type starts with.
pub payload2msg-msg2payload :
    (texts : Texts) (print : Json → CStr) (parse : CStr → Option Json)
    (start : (d : Desc) → Memory d) (t : ℕ) (m : EntryMemory (message_desc_get texts t))
    → IsReadableEntry (message_desc_get texts t) m
    → ((o : Members)
        → entry_object t (message_desc_get texts t) m ≡ returned o
        → IsReprinted parse print o)
    → (msg2payload print parse texts t m >>= payload2msg texts parse start)
      ≡ returned (entry_delivery t (message_desc_get texts t) m)
unfolding msg2payload
payload2msg-msg2payload texts print parse start t m r json =
    entry-read texts print parse start t (message_desc_get texts t) m refl r json
