-- ===== src/Rsmp/Coder/Codecs.antt =====
-- What the encoders of src/rsmp/fields and src/rsmp/vars write, their decoders read.
use rsmp_gatewa.Common.{
  ℕ, ◌<◌, ◌≡◌, refl, Bool, some, List, [], ◌∷◌, length, CStr, codes, returned, lt→ltb,
}
use rsmp_gatewa.Rsmp.Values.{
  string, bool, text, boolean, pointer, is_container, json2vars, json_object_from_var, c_str,
}
use rsmp_gatewa.Rsmp.Fields.{
  Texts, enum_codec, enum_decode, number_found, on_string, str_codec, bool_codec, v_codec,
  m_type_codec, m_type_check, uuid_codec, uuid_read, uuid_parsed, ts_codec, ts_decoded, read_str,
}
use rsmp_gatewa.Rsmp.Fields.Tables.{
  enum_tables, table_at, IsFilled, IsText, enum-IsTable, find-get, get-IsText, lib_get-some,
}
use rsmp_gatewa.Rsmp.Coder.{encoded}
use rsmp_gatewa.Rsmp.Coder.RoundTrip.{Reads}

-- A value of an enumeration.
pub enum-Reads :
    (n : ℕ) (list : List CStr) (strict : Bool) (x : ℕ)
    → table_at enum_tables n ≡ some list
    → x < length list
    → Reads (enum_codec list strict) x
unfolding enum_codec encoded json_object_from_var json2vars pointer is_container
enum-Reads n list strict x at lt =
    let (s, has) = lib_get-some list x lt in
    let (filled, whole) = get-IsText list x s (enum-IsTable n list at) has in
    record {
      value = text s;
      var = string (some s);
      written = rw has refl;
      filled = refl;
      flat = refl;
      converted = refl;
      reads = λ old.
          unfold enum_decode number_found on_string read_str in
          rw whole (
            rw (find-get list x s (enum-IsTable n list at) has)
              (rw (lt→ltb x (length list) lt) refl));
    }

-- A string that is not null and has no NUL.
pub str-Reads : (s : CStr) → c_str s ≡ s → Reads str_codec (some s)
unfolding str_codec encoded json_object_from_var json2vars pointer is_container on_string
str-Reads s whole = record {
  value = text s;
  var = string (some s);
  written = refl;
  filled = refl;
  flat = refl;
  converted = refl;
  reads = λ old. rw whole refl;
}

pub bool-Reads : (b : Bool) → Reads bool_codec b
unfolding bool_codec encoded json_object_from_var json2vars pointer is_container
bool-Reads b = record {
  value = boolean b;
  var = bool b;
  written = refl;
  filled = refl;
  flat = refl;
  converted = refl;
  reads = λ old. refl;
}

-- Of the arrays of characters only the empty one: what is decoded of another does not fit the memory
-- that is allocated for it.
pub v-Reads : Reads v_codec []
unfolding v_codec encoded json_object_from_var json2vars pointer is_container
v-Reads = record {
  value = text [];
  var = string (some []);
  written = refl;
  filled = refl;
  flat = refl;
  converted = refl;
  reads = λ old. refl;
}

pub m_type-Reads : Reads m_type_codec tt
unfolding m_type_codec encoded json_object_from_var json2vars pointer is_container on_string
    m_type_check
m_type-Reads = record {
  value = text (codes "rSMsg");
  var = string (some (codes "rSMsg"));
  written = refl;
  filled = refl;
  flat = refl;
  converted = refl;
  reads = λ old. refl;
}

module _ (texts : Texts) where
  -- A uuid whose text is read as it.
  pub uuid-Reads :
      (id : List ℕ)
      → IsText (texts.uuid_unparse id)
      → texts.uuid_parse (texts.uuid_unparse id) ≡ some id
      → Reads (uuid_codec texts) id
  unfolding uuid_codec encoded json_object_from_var json2vars pointer is_container on_string
      read_str
  uuid-Reads id (filled, whole) back = record {
    value = text (texts.uuid_unparse id);
    var = string (some (texts.uuid_unparse id));
    written = refl;
    filled = refl;
    flat = refl;
    converted = refl;
    reads = λ old. rw whole (read (texts.uuid_unparse id) filled back);
  }
    where
      read :
          (t : CStr)
          → IsFilled t
          → texts.uuid_parse t ≡ some id
          → uuid_read texts (some t) ≡ returned id
      read [] f e = absurd f
      read (c ∷ cs) f e = unfold uuid_read uuid_parsed in rw e refl

  -- A time after 1970 whose text is read as it.
  pub ts-Reads :
      (ts : ℕ × ℕ)
      → 0 < ts.0
      → c_str (texts.ts_print ts) ≡ texts.ts_print ts
      → texts.ts_read (texts.ts_print ts) ≡ ts
      → Reads (ts_codec texts) ts
  unfolding ts_codec encoded json_object_from_var json2vars pointer is_container on_string read_str
      ts_decoded
  ts-Reads ts after whole back = record {
    value = text (texts.ts_print ts);
    var = string (some (texts.ts_print ts));
    written = refl;
    filled = refl;
    flat = refl;
    converted = refl;
    reads = λ old. rw whole (rw back (rw (lt→ltb 0 (ts.0) after) refl));
  }
