-- ===== src/Rsmp/Arrays.antt =====
-- src/rsmp/vars/array.h: the arrays that its macros define, each with the function that frees one of
-- its items, if any. Memory that is not an item is a fault: a null pointer that is followed, a copy
-- from behind the end, and an allocation of more items than an address can count.
pub mod Laws
mod Examples
use rsmp_gatewa.Common.{
  ℕ, zero, suc, ◌+◌, ◌-◌, Bool, Option, none, some, List, [], ◌∷◌, ◌++◌, ltb, leb, ◌==◌,
  if◌then◌else◌, length, take, replicate, Outcome, returned, fault, ◌>>=◌,
}

module _ {A : Type 0} where
  abbrev pub drop : ℕ → List A → List A
  drop zero xs = xs
  drop (suc n) [] = []
  drop (suc n) (x ∷ xs) = drop n xs

  abbrev pub get_elem? : List A → ℕ → Option A
  get_elem? [] i = none
  get_elem? (x ∷ xs) zero = some x
  get_elem? (x ∷ xs) (suc i) = get_elem? xs i

-- rsmp_array_void_t: `has_free` says whether items hold memory of their own.
pub record Array (A : Type 0) : Type 0 where
  pub items : List A
  pub has_free : Bool

module _ {A : Type 0} where
  -- _shrink takes the items away, and then flushes the array with its length: the items of a null
  -- pointer are freed one by one where there is a function for it. At least as many as there are
  -- leave a length of 0, from which `delta` is subtracted once more.
  unfoldable pub shrink : ℕ → Array A → Outcome (Array A)
  shrink delta array =
      if leb (length array.items) delta
      then if delta == 0 then returned (record array { items = [] }) else fault
      else if array.has_free
      then fault
      else returned (record array { items = take (length array.items - delta) array.items })

  unfoldable pub get : Array A → ℕ → Option A
  get array i = get_elem? array.items i

  -- memcpy over the items from a position on
  unfoldable pub overwrite : ℕ → List A → List A → List A
  overwrite i new old = take i old ++ (new ++ drop (i + length new) old)

  -- memcpy of items from a position of another array
  unfoldable pub part : ℕ → ℕ → List A → Outcome (List A)
  part i n items = if leb (i + n) (length items) then returned (take n (drop i items)) else fault

  -- The position within the array.
  unfoldable pub clamped : ℕ → Array A → ℕ
  clamped i array = if ltb (length array.items) i then length array.items else i

-- `empty_item` is an item whose bytes are all zero.
module _ {A : Type 0} (empty_item : A) where
  -- _initialize, on an array whose items are there
  unfoldable pub initialize : ℕ → Array A → Array A
  initialize max array = record array { items = replicate max empty_item }

  -- _extend, which returns the new length
  unfoldable pub extend : ℕ → Array A → Array A
  extend add array = record array { items = array.items ++ replicate add empty_item }

  unfoldable pub new_item : Array A → Array A
  unfolding extend
  new_item array = extend 1 array

  -- `assert(i < array->len)` stands behind the extension, by one item too few.
  unfoldable pub set : ℕ → A → Array A → Outcome (Array A)
  unfolding extend overwrite
  set i item array =
      let extended =
        if leb (length array.items) i then extend (i - length array.items) array else array in
      if ltb i (length extended.items)
      then returned (record extended { items = overwrite i (item ∷ []) extended.items })
      else fault

  unfoldable pub extended_to : ℕ → Array A → Array A
  unfolding extend
  extended_to l array =
      if leb (length array.items) l then extend (l - length array.items) array else array

  unfoldable pub copied : ℕ → List A → Array A → Array A
  unfolding overwrite extended_to
  copied i new array =
      let extended = extended_to (i + length new) array in
      record array { items = overwrite i new extended.items }

  unfoldable pub cpy_pos : Array A → ℕ → Array A → ℕ → ℕ → Outcome (Array A)
  unfolding clamped copied part
  cpy_pos array1 i1 array2 i2 n2 =
      if length array2.items == 0
      then returned array1
      else if n2 == 0
      then returned array1
      else (part i2 n2 array2.items >>= λ new. returned (copied (clamped i1 array1) new array1))

  unfoldable pub cpy : Array A → Array A → Outcome (Array A)
  unfolding cpy_pos
  cpy array1 array2 = cpy_pos array1 0 array2 0 (length array2.items)

  unfoldable pub cat_n : Array A → Array A → ℕ → Outcome (Array A)
  unfolding cpy_pos
  cat_n array1 array2 n2 = cpy_pos array1 (length array1.items) array2 0 n2

  unfoldable pub cat : Array A → Array A → Outcome (Array A)
  unfolding cat_n
  cat array1 array2 = cat_n array1 array2 (length array2.items)

-- The result of a comparison of items, an int.
pub data Sign : Type 0 where
  less equal greater : Sign

unfoldable pub by_length : ℕ → ℕ → Sign
by_length m n = if ltb m n then less else if ltb n m then greater else equal

-- `if (ret) return ret;`
unfoldable pub if_equal : Sign → Option Sign → Option Sign
if_equal less rest = some less
if_equal greater rest = some greater
if_equal equal rest = rest

module _ {A : Type 0} (cmp_fct : A → A → Sign) where
  -- The loop of _cmp, whose `i` stays at 0, with a bound on its rounds; `none` is a run that has not
  -- ended.
  unfoldable pub cmp_loop : ℕ → A → A → Option Sign
  unfolding if_equal
  cmp_loop zero x y = none
  cmp_loop (suc rounds) x y = let rest = cmp_loop rounds x y in if_equal (cmp_fct x y) rest

  unfoldable pub cmp_items : ℕ → List A → List A → Option Sign
  unfolding cmp_loop by_length
  cmp_items rounds [] ys = some (by_length 0 (length ys))
  cmp_items rounds (x ∷ xs) [] = some (by_length (length (x ∷ xs)) 0)
  cmp_items rounds (x ∷ xs) (y ∷ ys) = cmp_loop rounds x y

  unfoldable pub cmp : ℕ → Array A → Array A → Option Sign
  unfolding cmp_items
  cmp rounds array1 array2 = cmp_items rounds array1.items array2.items
