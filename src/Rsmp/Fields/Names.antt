-- ===== src/Rsmp/Fields/Names.antt =====
-- src/rsmp/fields: the names of the fields and the texts of the enumerations, with the search for
-- one. An enumeration is its number.
use rsmp_gatewa.Common.{
  ℕ, zero, suc, Option, none, some, List, [], ◌∷◌, if◌then◌else◌, length, CStr, codes, str_eq,
  Outcome, returned, fault,
}

-- _rsmp_fields_tab; the names of eSXLG, sg and ackMessage are not set.
abbrev pub fields_tab : List (Option CStr)
fields_tab =
    some (codes "aCId")
    ∷ some (codes "ack")
    ∷ some (codes "age")
    ∷ some (codes "arg")
    ∷ some (codes "aS")
    ∷ some (codes "aSp")
    ∷ some (codes "aSTS")
    ∷ some (codes "aTs")
    ∷ some (codes "cat")
    ∷ some (codes "cCI")
    ∷ some (codes "cId")
    ∷ some (codes "cO")
    ∷ some (codes "cTS")
    ∷ some (codes "fP")
    ∷ some (codes "fS")
    ∷ some (codes "mId")
    ∷ some (codes "mType")
    ∷ some (codes "n")
    ∷ some (codes "ntsOId")
    ∷ some (codes "oMId")
    ∷ some (codes "pri")
    ∷ some (codes "q")
    ∷ some (codes "rea")
    ∷ some (codes "RSMP")
    ∷ some (codes "rvs")
    ∷ some (codes "s")
    ∷ some (codes "sCI")
    ∷ some (codes "se")
    ∷ some (codes "sId")
    ∷ some (codes "siteId")
    ∷ some (codes "sOc")
    ∷ some (codes "sS")
    ∷ some (codes "sTs")
    ∷ some (codes "SXL")
    ∷ none
    ∷ none
    ∷ some (codes "type")
    ∷ some (codes "uRt")
    ∷ some (codes "v")
    ∷ some (codes "vers")
    ∷ some (codes "wTs")
    ∷ some (codes "xACId")
    ∷ some (codes "xNACId")
    ∷ some (codes "xNId")
    ∷ some (codes "uId")
    ∷ some (codes "data")
    ∷ some (codes "login")
    ∷ some (codes "cipher")
    ∷ none
    ∷ []

-- The text at a position of a table, null behind its end.
unfoldable pub text_at : List (Option CStr) → ℕ → Option CStr
text_at [] i = none
text_at (t ∷ ts) zero = t
text_at (t ∷ ts) (suc i) = text_at ts i

unfoldable pub field_lib_get : ℕ → Option CStr
unfolding text_at
field_lib_get field = text_at fields_tab field

-- The loop of _rsmp_field_from_lib; strcmp with a null pointer is a fault.
unfoldable pub field_search : CStr → List (Option CStr) → ℕ → Outcome ℕ
unfolding str_eq
field_search lib [] i = returned i
field_search lib (none ∷ ts) i = fault
field_search lib (some t ∷ ts) i =
    let rest = field_search lib ts (suc i) in if str_eq lib t then returned i else rest

unfoldable pub field_from_lib : CStr → Outcome ℕ
unfolding field_search
field_from_lib lib = field_search lib fields_tab 0

-- The texts of the enumerations, in their order.
abbrev pub type_lib : List CStr
type_lib =
    codes "Alarm"
    ∷ codes "AggregatedStatus"
    ∷ codes "AggregatedStatusRequest"
    ∷ codes "StatusRequest"
    ∷ codes "StatusResponse"
    ∷ codes "StatusSubscribe"
    ∷ codes "StatusUpdate"
    ∷ codes "StatusUnsubscribe"
    ∷ codes "CommandRequest"
    ∷ codes "CommandRequestAckIncluded"
    ∷ codes "CommandResponseAckIncluded"
    ∷ codes "StatusResponseAckIncluded"
    ∷ codes "StatusRequestAckIncluded"
    ∷ codes "CommandResponse"
    ∷ codes "MessageAck"
    ∷ codes "MessageNotAck"
    ∷ codes "Version"
    ∷ codes "Watchdog"
    ∷ []

abbrev pub age_lib : List CStr
age_lib = codes "unknown" ∷ codes "recent" ∷ codes "old" ∷ codes "undefined" ∷ []

abbrev pub q_lib : List CStr
q_lib = codes "unknown" ∷ codes "recent" ∷ codes "old" ∷ codes "undefined" ∷ []

abbrev pub ack_lib : List CStr
ack_lib = codes "notAcknowledged" ∷ codes "Acknowledged" ∷ []

abbrev pub s_s_lib : List CStr
s_s_lib = codes "Suspended" ∷ codes "notSuspended" ∷ []

abbrev pub cat_lib : List CStr
cat_lib = codes "T" ∷ codes "D" ∷ []

abbrev pub a_s_lib : List CStr
a_s_lib = codes "inActive" ∷ codes "Active" ∷ []

abbrev pub a_sp_lib : List CStr
a_sp_lib =
    codes "Issue" ∷ codes "Request" ∷ codes "Acknowledge" ∷ codes "Suspend" ∷ codes "Resume" ∷ []

abbrev pub pri_lib : List CStr
pri_lib = codes "1" ∷ codes "2" ∷ codes "3" ∷ []

abbrev pub sg_lib : List CStr
sg_lib = codes "GEN" ∷ codes "SLT" ∷ codes "IO" ∷ codes "VAR" ∷ []

-- rsmp_type_to_string and its likes: null for a number that is none of the enumeration.
unfoldable pub lib_get : List CStr → ℕ → Option CStr
lib_get [] i = none
lib_get (t ∷ ts) zero = some t
lib_get (t ∷ ts) (suc i) = lib_get ts i

-- The loop of rsmp_lib_find: the number of entries where there is none.
unfoldable pub lib_search : List CStr → CStr → ℕ
unfolding str_eq
lib_search [] str = 0
lib_search (t ∷ ts) str = let rest = suc (lib_search ts str) in if str_eq str t then 0 else rest

unfoldable pub lib_find : List CStr → Option CStr → ℕ
unfolding lib_search
lib_find list none = length list
lib_find list (some []) = length list
lib_find list (some (c ∷ cs)) = lib_search list (c ∷ cs)
