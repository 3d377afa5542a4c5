-- ===== src/Rsmp/Messages/Distinct.antt =====
-- The names of the fields in the descriptions of src/rsmp/messages, and members that a description
-- does not name.
use rsmp_gatewa.Common.{
  subst, ℕ, zero, suc, ◌<◌, ◌≡◌, refl, ap, ◌∙◌, Option, none, some, List, [], ◌∷◌, arith, length,
  CStr, codes, str_eq, str_eq_sym,
}
use rsmp_gatewa.Rsmp.Values.{Json, Members, object, object_add, json_object_get}
use rsmp_gatewa.Rsmp.Fields.{Texts}
use rsmp_gatewa.Rsmp.Coder.{Desc, stop, field, table, records, skipped, Memory, json_extract_fields}
use rsmp_gatewa.Rsmp.Coder.RoundTrip.{IsFresh, IsDistinct, find_member-object_add}
use rsmp_gatewa.Rsmp.Descriptions.{
  MsgDesc, msg_no, msg_descs, entry_at, if_active, active_entry, message_desc_get, with_header,
}

-- No description of the table has two fields of one name, or one named SXLG.
abbrev pub IsClean : Option Desc → Type 0
IsClean none = Unit
IsClean (some d) = IsDistinct (with_header d) × IsFresh (codes "SXLG") (with_header d)

abbrev AreClean : List MsgDesc → Type 0
AreClean [] = Unit
AreClean (e ∷ es) = IsClean e.body × AreClean es

msg_descs-AreClean : (texts : Texts) → AreClean (msg_descs texts)
unfolding str_eq
msg_descs-AreClean texts = ground arith

entry_at-IsClean :
    (es : List MsgDesc) (t : ℕ) (e : MsgDesc)
    → AreClean es
    → entry_at es t ≡ some e
    → IsClean e.body
unfolding entry_at
entry_at-IsClean [] t e clean h = cc
entry_at-IsClean (x ∷ es) zero e clean h =
    let same : x ≡ e = cc in subst (λ y. IsClean y.body) same clean.0
entry_at-IsClean (x ∷ es) (suc t) e clean h = entry_at-IsClean es t e clean.1 h

-- An active description is that of its entry.
if_active-eq : (x e : MsgDesc) → if_active x ≡ some e → x ≡ e
unfolding if_active
if_active-eq x e h = ground arith

active-IsClean :
    (es : List MsgDesc) (t : ℕ) (e : MsgDesc) (r : Option MsgDesc)
    → AreClean es
    → entry_at es t ≡ r
    → active_entry r ≡ some e
    → IsClean e.body
unfolding active_entry
active-IsClean es t e none clean at h = cc
active-IsClean es t e (some x) clean at h =
    entry_at-IsClean es t e clean (at ∙ ap some (if_active-eq x e h))

pub described-IsClean :
    (texts : Texts) (t : ℕ) (e : MsgDesc) → message_desc_get texts t ≡ some e → IsClean e.body
unfolding message_desc_get
described-IsClean texts t e h =
    active-IsClean (msg_descs texts) t e (entry_at (msg_descs texts) t) (msg_descs-AreClean texts)
      refl h

-- A member that the description does not name makes no difference.
pub extract-object_add :
    (d : Desc) (k : CStr) (v : Json) (o : Members) (m : Memory d)
    → IsFresh k d
    → json_extract_fields d (object (object_add k v o)) m ≡ json_extract_fields d (object o) m
unfolding json_extract_fields json_object_get
extract-object_add stop k v o m fresh = refl
extract-object_add (field A lib c d) k v o (x, m) (off, fresh) =
    rw (find_member-object_add lib k v o (str_eq_sym k lib ∙ off))
      (rw (extract-object_add d k v o m fresh) refl)
extract-object_add (table A lib c d) k v o (xs, m) (off, fresh) =
    rw (find_member-object_add lib k v o (str_eq_sym k lib ∙ off))
      (rw (extract-object_add d k v o m fresh) refl)
extract-object_add (records lib e d) k v o (ms, m) (off, fresh) =
    rw (find_member-object_add lib k v o (str_eq_sym k lib ∙ off))
      (rw (extract-object_add d k v o m fresh) refl)
extract-object_add (skipped lib e d) k v o m (off, fresh) =
    rw (find_member-object_add lib k v o (str_eq_sym k lib ∙ off))
      (rw (extract-object_add d k v o m fresh) refl)

entry_at-lt : (es : List MsgDesc) (t : ℕ) (e : MsgDesc) → entry_at es t ≡ some e → t < length es
unfolding entry_at
entry_at-lt [] t e h = cc
entry_at-lt (x ∷ es) zero e h = omega arith
entry_at-lt (x ∷ es) (suc t) e h = omega (arith, entry_at-lt es t e h)

active-lt :
    (es : List MsgDesc) (t : ℕ) (e : MsgDesc) (r : Option MsgDesc)
    → entry_at es t ≡ r
    → active_entry r ≡ some e
    → t < length es
unfolding active_entry
active-lt es t e none at h = cc
active-lt es t e (some x) at h = entry_at-lt es t x at

pub described-lt :
    (texts : Texts) (t : ℕ) (e : MsgDesc) → message_desc_get texts t ≡ some e → t < msg_no
unfolding message_desc_get
described-lt texts t e h = active-lt (msg_descs texts) t e (entry_at (msg_descs texts) t) refl h
