-- ===== src/Rsmp/Arrays/Laws.antt =====
-- What the operations of src/rsmp/vars/array.h do to the items of an array.
use rsmp_gatewa.Common.{
  ℕ, zero, suc, ◌+◌, ◌-◌, ◌<◌, ◌≤◌, ◌≡◌, refl, sym, ap, ◌∙◌, Bool, true, false, none, some, List,
  [], ◌∷◌, ◌++◌, append-nil, arith, ltb, leb, ◌==◌, inl, inr, Bool-cases, length, length-append,
  take, take-length, replicate, lt→ltb, le→leb, returned, fault,
}
use rsmp_gatewa.Rsmp.Arrays.{
  drop, get_elem?, Array, extend, shrink, overwrite, set, part, clamped, extended_to, copied,
  cpy_pos, cpy, cat_n, cat, Sign, equal, cmp, cmp_items, cmp_loop,
}

module _ {A : Type 0} where
  take-drop : (n : ℕ) (xs : List A) → take n xs ++ drop n xs ≡ xs
  take-drop zero xs = refl
  take-drop (suc n) [] = refl
  take-drop (suc n) (x ∷ xs) = ap (λ ys. x ∷ ys) (take-drop n xs)

  take-append : (n : ℕ) (xs ys : List A) → n ≤ length xs → take n (xs ++ ys) ≡ take n xs
  take-append zero xs ys h = refl
  take-append (suc n) [] ys h = elim h [ ]
  take-append (suc n) (x ∷ xs) ys h = ap (λ zs. x ∷ zs) (take-append n xs ys (omega arith))

  take-past : (n : ℕ) (xs : List A) → length xs ≤ n → take n xs ≡ xs
  take-past zero [] h = refl
  take-past zero (x ∷ xs) h = elim h [ ]
  take-past (suc n) [] h = refl
  take-past (suc n) (x ∷ xs) h = ap (λ ys. x ∷ ys) (take-past n xs (omega arith))

  -- Behind the items there is nothing.
  drop-past : (n : ℕ) (xs : List A) → length xs ≤ n → drop n xs ≡ []
  drop-past zero [] h = refl
  drop-past zero (x ∷ xs) h = elim h [ ]
  drop-past (suc n) [] h = refl
  drop-past (suc n) (x ∷ xs) h = drop-past n xs (omega arith)

  length-replicate : (n : ℕ) (x : A) → length (replicate n x) ≡ n
  length-replicate zero x = refl
  length-replicate (suc n) x = ap suc (length-replicate n x)

  length-take : (n : ℕ) (xs : List A) → n ≤ length xs → length (take n xs) ≡ n
  length-take zero xs h = refl
  length-take (suc n) [] h = elim h [ ]
  length-take (suc n) (x ∷ xs) h = ap suc (length-take n xs (omega arith))

  length-drop : (n : ℕ) (xs : List A) → length (drop n xs) ≡ length xs - n
  length-drop zero xs = omega arith
  length-drop (suc n) [] = omega arith
  length-drop (suc n) (x ∷ xs) = omega (arith, length-drop n xs)

  module _ (z : A) where
    -- The extension is overwritten whole.
    overwrite-extended :
        (i : ℕ) (new : List A) (a : Array A)
        → i ≤ length a.items
        → (copied z i new a).items ≡ take i a.items ++ (new ++ drop (i + length new) a.items)
    unfolding copied overwrite extended_to extend
    overwrite-extended i new a h = elim (Bool-cases (leb (length a.items) (i + length new))) [
      | inl long ↦ rw long (
          rw (take-append i a.items (replicate (i + length new - length a.items) z) h) (
            rw
              (
                drop-past (i + length new)
                    (a.items ++ replicate (i + length new - length a.items) z)
                    (ground (
                      arith,
                      length-append a.items (replicate (i + length new - length a.items) z),
                      length-replicate (i + length new - length a.items) z,
                    )),
                drop-past (i + length new) a.items (ground arith),
              )
              refl))
      | inr short ↦ rw short refl
    ]

    -- A copy of no items.
    none-copied : (i : ℕ) (items : List A) → items ≡ take i items ++ ([] ++ drop (i + 0) items)
    none-copied i items = let e : i + 0 ≡ i = omega arith in rw e (sym (take-drop i items))

    -- Where the position lies behind the items, it is their end.
    clamped-copied :
        (i : ℕ) (new : List A) (a : Array A)
        → (copied z (clamped i a) new a).items
          ≡ take i a.items ++ (new ++ drop (i + length new) a.items)
    unfolding clamped
    clamped-copied i new a = elim (Bool-cases (ltb (length a.items) i)) [
      | inl behind ↦ rw behind (
          rw (overwrite-extended (length a.items) new a (omega arith)) (
            rw
              (
                drop-past (length a.items + length new) a.items (omega arith),
                drop-past (i + length new) a.items (ground arith),
                take-length a.items,
                take-past i a.items (ground arith),
              )
              refl))
      | inr within ↦ rw within (overwrite-extended i new a (ground arith))
    ]

    -- A copy of items that array2 has puts them at the position in array1, in place of those that
    -- stood there, and makes array1 as long as it takes; a position behind its end is its end.
    pub cpy_pos_lem :
        (a b : Array A) (i1 i2 n : ℕ)
        → i2 + n ≤ length b.items
        → cpy_pos z a i1 b i2 n
          ≡ returned (record a {
            items = take i1 a.items ++ (take n (drop i2 b.items) ++ drop (i1 + n) a.items);
          })
    unfolding cpy_pos part copied
    cpy_pos_lem a b i1 i2 zero h =
        let same = ap (λ t. returned (record a { items = t })) (none-copied i1 a.items) in
        elim (Bool-cases (length b.items == 0)) [
          | inl nothing ↦ rw nothing same
          | inr some_items ↦ rw some_items same
        ]
    cpy_pos_lem a b i1 i2 (suc n) h =
        let some_items : (length b.items == 0) ≡ false = ground arith in
        let count : length (take (suc n) (drop i2 b.items)) ≡ suc n =
          length-take (suc n) (drop i2 b.items) (omega (arith, length-drop i2 b.items)) in
        let more : (suc n == 0) ≡ false = ground arith in
        rw (some_items, more)
          (rw (le→leb (i2 + suc n) (length b.items) h) (
            ap (λ t. returned (record a { items = t }))
              (clamped-copied i1 (take (suc n) (drop i2 b.items)) a
                ∙ ap
                    (λ k.
                      take i1 a.items ++ (take (suc n) (drop i2 b.items) ++ drop (i1 + k) a.items))
                    count)))

    -- _cat puts the items of the second array behind those of the first. _cpy puts them over the
    -- first items of the first array, and leaves what it has more.
    pub cat-cpy_lem :
        (a b : Array A)
        → (cat z a b ≡ returned (record a { items = a.items ++ b.items }))
          × (cpy z a b ≡ returned (record a { items = b.items ++ drop (length b.items) a.items }))
    unfolding cat cat_n cpy
    cat-cpy_lem a b = (
      cpy_pos_lem a b (length a.items) 0 (length b.items) (omega arith)
          ∙ ap (λ t. returned (record a { items = t })) behind,
      cpy_pos_lem a b 0 0 (length b.items) (omega arith)
          ∙ ap (λ t. returned (record a { items = t })) over,
    )
      where
        behind :
            take (length a.items) a.items
              ++ (take (length b.items) b.items ++ drop (length a.items + length b.items) a.items)
            ≡ a.items ++ b.items
        behind =
            rw
              (
                take-length a.items,
                take-length b.items,
                drop-past (length a.items + length b.items) a.items (omega arith),
              )
              (ap (λ t. a.items ++ t) (append-nil b.items))

        over :
            take (length b.items) b.items ++ drop (0 + length b.items) a.items
            ≡ b.items ++ drop (length b.items) a.items
        over =
            let e : 0 + length b.items ≡ length b.items = omega arith in
            rw e (rw (take-length b.items) refl)

    get-append : (xs ys : List A) (x : A) → get_elem? (xs ++ (x ∷ ys)) (length xs) ≡ some x
    get-append [] ys x = refl
    get-append (y ∷ xs) ys x = get-append xs ys x

    -- _set puts an item at a position that the array has, and changes no other.
    pub set_lem :
        (i : ℕ) (item : A) (a : Array A)
        → i < length a.items
        → set z i item a
          ≡ returned (record a { items = take i a.items ++ (item ∷ drop (i + 1) a.items) })
    unfolding set overwrite
    set_lem i item a h =
        let there : leb (length a.items) i ≡ false = ground arith in
        rw there (rw (lt→ltb i (length a.items) h) refl)

    -- At the end of the array or behind it, the assertion that follows the extension of _set fails.
    pub set_past : (i : ℕ) (item : A) (a : Array A) → length a.items ≤ i → set z i item a ≡ fault
    unfolding set extend
    set_past i item a h =
        let still : ltb i (length (a.items ++ replicate (i - length a.items) z)) ≡ false = ground (
          arith,
          length-append a.items (replicate (i - length a.items) z),
          length-replicate (i - length a.items) z,
        ) in
        rw (le→leb (length a.items) i h) (rw still refl)

  -- Where the items have memory of their own, _shrink of an array with items always follows a null
  -- pointer, or asks for more memory than there is.
  pub shrink_own :
      (delta : ℕ) (a : Array A) → 0 < length a.items → a.has_free ≡ true → shrink delta a ≡ fault
  unfolding shrink
  shrink_own delta a h own = elim (Bool-cases (leb (length a.items) delta)) [
    | inl all ↦ let some_items : (delta == 0) ≡ false = ground arith in rw all (rw some_items refl)
    | inr part ↦ rw part (rw own refl)
  ]

  -- _cmp of two arrays whose first items are equal does not end, however many rounds it makes.
  pub cmp-ne-some :
      (cmp_fct : A → A → Sign) (rounds : ℕ) (x y : A) (xs ys : List A) (f g : Bool)
      → cmp_fct x y ≡ equal
      → cmp cmp_fct rounds
          (record { items = x ∷ xs; has_free = f })
          (record { items = y ∷ ys; has_free = g })
        ≡ none
  unfolding cmp cmp_items cmp_loop
  cmp-ne-some cmp_fct zero x y xs ys f g same = refl
  cmp-ne-some cmp_fct (suc rounds) x y xs ys f g same =
      rw same (cmp-ne-some cmp_fct rounds x y xs ys f g same)
