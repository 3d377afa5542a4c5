-- ===== src/Rsmp/Fields/Tables.antt =====
-- The tables of the enumerations of src/rsmp/fields: a text and its number.
use rsmp_gatewa.Common.{
  ℕ, zero, subst, suc, ◌<◌, ◌≡◌, ◌↔◌, refl, sym, ap, false, Option, none, some, List, [], ◌∷◌,
  arith, length, All, CStr, str_eq, str_eq_refl, str_eq→eq, Bool-cases, inl, inr,
}
use rsmp_gatewa.Rsmp.Values.{c_str}
use rsmp_gatewa.Rsmp.Fields.Names.{
  type_lib, age_lib, q_lib, ack_lib, s_s_lib, cat_lib, a_s_lib, a_sp_lib, pri_lib, sg_lib, lib_get,
  lib_search, lib_find,
}

-- A list of the tables.
abbrev pub enum_tables : List (List CStr)
enum_tables =
    type_lib ∷ age_lib ∷ q_lib ∷ ack_lib ∷ s_s_lib ∷ cat_lib ∷ a_s_lib ∷ a_sp_lib ∷ pri_lib ∷ sg_lib
    ∷ []

abbrev pub table_at : List (List CStr) → ℕ → Option (List CStr)
table_at [] n = none
table_at (t ∷ ts) zero = some t
table_at (t ∷ ts) (suc n) = table_at ts n

abbrev pub IsFilled : CStr → Type 0
IsFilled [] = ⊥
IsFilled (c ∷ cs) = Unit

-- A text that is not empty, without NUL.
abbrev pub IsText : CStr → Type 0
IsText t = IsFilled t × (c_str t ≡ t)

-- Its texts are distinct.
abbrev pub IsTable : List CStr → Type 0
IsTable [] = Unit
IsTable (t ∷ ts) = All (λ s. str_eq s t ≡ false) ts × IsText t × IsTable ts

enum_tables-IsTable : All IsTable enum_tables
unfolding str_eq c_str
enum_tables-IsTable = ground arith

table_at-IsTable :
    (ts : List (List CStr)) (n : ℕ) (list : List CStr)
    → All IsTable ts
    → table_at ts n ≡ some list
    → IsTable list
table_at-IsTable [] n list h at = cc
table_at-IsTable (t ∷ ts) zero list h at = let same : t ≡ list = cc in rw (← same) h.0
table_at-IsTable (t ∷ ts) (suc n) list h at = table_at-IsTable ts n list h.1 at

-- What stands in a list has what all have.
get-All {ℓ} :
    (P : CStr → Type ℓ) (list : List CStr) (i : ℕ) (s : CStr)
    → All P list
    → lib_get list i ≡ some s
    → P s
unfolding lib_get
get-All P [] i s h at = cc
get-All P (t ∷ ts) zero s h at = let same : t ≡ s = cc in rw (← same) h.0
get-All P (t ∷ ts) (suc i) s h at = get-All P ts i s h.1 at

search-get :
    (list : List CStr) (i : ℕ) (s : CStr)
    → IsTable list
    → lib_get list i ≡ some s
    → lib_search list s ≡ i
unfolding lib_search lib_get
search-get [] i s h at = cc
search-get (t ∷ ts) zero s h at = let same : t ≡ s = cc in rw same (rw (str_eq_refl s))
search-get (t ∷ ts) (suc i) s (new, full, h) at =
    rw (get-All (λ x. str_eq x t ≡ false) ts i s new at) (ap suc (search-get ts i s h at))

get-search :
    (list : List CStr) (s : CStr)
    → lib_search list s < length list
    → lib_get list (lib_search list s) ≡ some s
unfolding lib_search lib_get
get-search [] s h = elim h [ ]
get-search (t ∷ ts) s h = elim (Bool-cases (str_eq s t)) [
  | inl same ↦ rw same (ap some (sym (str_eq→eq s t same)))
  | inr other ↦ rw other (get-search ts s (let small = rw other at h in omega arith))
]

get-lt : (list : List CStr) (i : ℕ) (s : CStr) → lib_get list i ≡ some s → i < length list
unfolding lib_get
get-lt [] i s h = cc
get-lt (t ∷ ts) zero s h = omega arith
get-lt (t ∷ ts) (suc i) s h = omega (arith, get-lt ts i s h)

pub get-IsText :
    (list : List CStr) (i : ℕ) (s : CStr) → IsTable list → lib_get list i ≡ some s → IsText s
unfolding lib_get
get-IsText [] i s h at = cc
get-IsText (t ∷ ts) zero s (new, full, h) at = let same : t ≡ s = cc in subst IsText same full
get-IsText (t ∷ ts) (suc i) s (new, full, h) at = get-IsText ts i s h at

pub find-get :
    (list : List CStr) (i : ℕ) (s : CStr)
    → IsTable list
    → lib_get list i ≡ some s
    → lib_find list (some s) ≡ i
unfolding lib_find
find-get list i [] h at = absurd ((get-IsText list i [] h at).0)
find-get list i (c ∷ cs) h at = search-get list i (c ∷ cs) h at

get-find :
    (list : List CStr) (i : ℕ) (s : CStr)
    → i < length list
    → lib_find list (some s) ≡ i
    → lib_get list i ≡ some s
unfolding lib_find
get-find list i [] lt e = absurd (omega arith)
get-find list i (c ∷ cs) lt e = rw (← e) (get-search list (c ∷ cs) (omega arith))

pub enum-IsTable : (n : ℕ) (list : List CStr) → table_at enum_tables n ≡ some list → IsTable list
enum-IsTable n list at = table_at-IsTable enum_tables n list enum_tables-IsTable at

-- In each table of the enumerations, the search for a text gives a number of the enumeration exactly
-- where that number has that text.
pub lib_find_iff :
    (n i : ℕ) (list : List CStr) (s : CStr)
    → table_at enum_tables n ≡ some list
    → i < length list
    → (lib_find list (some s) ≡ i) ↔ (lib_get list i ≡ some s)
lib_find_iff n i list s at lt = (get-find list i s lt, find-get list i s (enum-IsTable n list at))

-- Each number of an enumeration has a text.
pub lib_get-some :
    (list : List CStr) (i : ℕ) → i < length list → (s : CStr) × (lib_get list i ≡ some s)
unfolding lib_get
lib_get-some [] i h = elim h [ ]
lib_get-some (t ∷ ts) zero h = (t, refl)
lib_get-some (t ∷ ts) (suc i) h = lib_get-some ts i (omega arith)
