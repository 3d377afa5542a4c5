-- ===== src/Sync/Counted.antt =====
-- src/sync/ldc-mutex.c: a list of entries with their number, a size_t. An entry that a caller holds is
-- the first one for which a test holds; the lock makes each operation one step.
pub mod Number
use rsmp_gatewa.Common.{
  ℕ, zero, suc, ◌+◌, ◌-◌, ◌%◌, Bool, true, false, Option, none, some, List, [], ◌∷◌, if◌then◌else◌,
  Ldc,
}

pub record Counted (A : Type 0) : Type 0 where
  pub items : List A
  pub no : ℕ

-- 2 to the power of 64, the values of a size_t
abbrev pub size_values : ℕ
size_values = 18446744073709551616

unfoldable pub size_suc : ℕ → ℕ
size_suc n = (n + 1) % size_values

unfoldable pub size_pred : ℕ → ℕ
size_pred zero = size_values - 1
size_pred (suc n) = n

module _ {A : Type 0} where
  unfoldable pub ldc_mutex_initialize : Counted A
  ldc_mutex_initialize = record { items = []; no = 0 }

  -- The first entry for which the test holds, and the list without it.
  unfoldable pub find_first : (A → Bool) → List A → Option A
  find_first p [] = none
  find_first p (a ∷ l) = if p a then some a else find_first p l

  unfoldable pub suppress : (A → Bool) → List A → List A
  suppress p [] = []
  suppress p (a ∷ l) = if p a then l else a ∷ suppress p l

  unfoldable pub ldc_mutex_insert : Ldc → A → Counted A → Counted A
  ldc_mutex_insert ldc a l = record { items = ldc.insert a l.items; no = size_suc l.no }

  unfoldable pub ldc_mutex_find : (A → Bool) → Counted A → Option A
  ldc_mutex_find p l = find_first p l.items

  abbrev pub without : (A → Bool) → Counted A → Counted A
  without p l = record { items = suppress p l.items; no = size_pred l.no }

  unfoldable pub insert_updated : Ldc → Option A → Counted A → Counted A
  insert_updated ldc none l = l
  insert_updated ldc (some a) l = ldc_mutex_insert ldc a l

  -- The entry that is found is taken out, updated and put back; the update may make a new entry or
  -- drop the one it is given. An entry that it returns is unchained.
  unfoldable pub ldc_mutex_search :
      Ldc → (A → Bool) → (Option A → Option A) → Counted A → Counted A × Option A
  ldc_mutex_search ldc p update l =
      let found = find_first p l.items in
      let updated = update found in
      (insert_updated ldc updated (elim found [ none ↦ l | some a ↦ without p l ]), updated)

  abbrev pub extract_from : List A → Counted A → Counted A × Option A
  extract_from [] l = (l, none)
  extract_from (a ∷ rest) l = (record { items = rest; no = size_pred l.no }, some a)

  unfoldable pub ldc_mutex_extract : Counted A → Counted A × Option A
  ldc_mutex_extract l = extract_from l.items l

  -- The counter stays as it was.
  unfoldable pub ldc_mutex_extract_by_key : (A → Bool) → Counted A → Counted A × Option A
  ldc_mutex_extract_by_key p l = elim (find_first p l.items) [
    | none ↦ (l, none)
    | some a ↦ (record l { items = suppress p l.items }, some a)
  ]

  unfoldable pub ldc_mutex_suppress : (A → Bool) → Counted A → Counted A
  ldc_mutex_suppress p l = without p l

  -- The list, and the entries that the callback is given.
  unfoldable pub ldc_mutex_flush : Counted A → Counted A × ℕ
  ldc_mutex_flush l = (record { items = []; no = 0 }, l.no)

  unfoldable pub ldc_mutex_no : Counted A → ℕ
  ldc_mutex_no l = l.no

  unfoldable pub ldc_mutex_is_in : (A → Bool) → Counted A → Bool
  ldc_mutex_is_in p l = elim (find_first p l.items) [ none ↦ false | some a ↦ true ]

  -- The context and the number of calls that went on.
  unfoldable pub foreach_items : {C : Type 0} → (C → A → C × Bool) → C → List A → C × ℕ
  foreach_items cb c [] = (c, 0)
  foreach_items cb c (a ∷ l) =
      let (c', more) = cb c a in
      let (c'', n) = foreach_items cb c' l in if more then (c'', suc n) else (c', 0)

  unfoldable pub ldc_mutex_foreach : {C : Type 0} → (C → A → C × Bool) → C → Counted A → C × ℕ
  ldc_mutex_foreach cb c l = foreach_items cb c l.items
