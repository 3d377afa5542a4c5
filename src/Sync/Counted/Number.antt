-- ===== src/Sync/Counted/Number.antt =====
-- The number of src/sync/ldc-mutex.c is that of the entries, but after ldc_mutex_extract_by_key.
use rsmp_gatewa.Common.{
  ◌≡◌, refl, sym, ap, ◌∙◌, ℕ, zero, suc, ◌<◌, Bool, Option, none, some, List, [], ◌∷◌, arith,
  length, length-append, Ldc, Option-cases, inl, inr,
}
use rsmp_gatewa.Sync.Counted.{
  Counted, size_values, size_suc, size_pred, find_first, suppress, ldc_mutex_insert, without,
  insert_updated, ldc_mutex_search, extract_from, ldc_mutex_extract, ldc_mutex_extract_by_key,
}

-- The number is right, and one more entry can be counted.
abbrev pub IsCounted : {A : Type 0} → Counted A → Type 0
IsCounted l = l.no ≡ length l.items

pub size_pred-suc : (n k : ℕ) → n ≡ suc k → size_pred n ≡ k
unfolding size_pred
size_pred-suc zero k e = absurd (omega arith)
size_pred-suc (suc n) k e = omega arith

module _ {A : Type 0} where
  pub length-insert : (ldc : Ldc) (a : A) (l : List A) → length (ldc.insert a l) ≡ suc (length l)
  length-insert ldc a l =
      let (pre, post, split, ins) = ldc.insert_splits a l in
      omega (
        arith,
        ap length ins,
        ap length split,
        length-append pre (a ∷ post),
        length-append pre post,
      )

  pub ldc_mutex_insert-IsCounted :
      (ldc : Ldc) (a : A) (l : Counted A)
      → suc (length l.items) < size_values
      → IsCounted l
      → IsCounted (ldc_mutex_insert ldc a l)
  unfolding ldc_mutex_insert size_suc
  ldc_mutex_insert-IsCounted ldc a l room h =
      rw (length-insert ldc a l.items) (omega (arith, h, room))

  length-suppress :
      (p : A → Bool) (l : List A) (a : A)
      → find_first p l ≡ some a
      → suc (length (suppress p l)) ≡ length l
  unfolding find_first suppress
  length-suppress p [] a e = cc
  length-suppress p (b ∷ l) a e = ground (arith, length-suppress p l a)

  pub without-IsCounted :
      (p : A → Bool) (l : Counted A) (a : A)
      → find_first p l.items ≡ some a
      → IsCounted l
      → IsCounted (without p l)
  without-IsCounted p l a e h =
      size_pred-suc l.no (length (suppress p l.items)) (h ∙ sym (length-suppress p l.items a e))

  insert_updated-IsCounted :
      (ldc : Ldc) (o : Option A) (l : Counted A)
      → suc (length l.items) < size_values
      → IsCounted l
      → IsCounted (insert_updated ldc o l)
  unfolding insert_updated
  insert_updated-IsCounted ldc none l room h = h
  insert_updated-IsCounted ldc (some a) l room h = ldc_mutex_insert-IsCounted ldc a l room h

  -- Whatever the update does with the entry that is found or missing, ldc_mutex_search leaves the
  -- number of the entries right, in a list that can count one more.
  pub ldc_mutex_search-IsCounted :
      (ldc : Ldc) (p : A → Bool) (update : Option A → Option A) (l : Counted A)
      → suc (length l.items) < size_values
      → IsCounted l
      → IsCounted (ldc_mutex_search ldc p update l).0
  unfolding ldc_mutex_search
  ldc_mutex_search-IsCounted ldc p update l room h = elim (Option-cases (find_first p l.items)) [
    | inl missing ↦
        rw (ldc_mutex_search, missing) (insert_updated-IsCounted ldc (update none) l room h)
    | inr (a, found) ↦
        rw (ldc_mutex_search, found)
          (insert_updated-IsCounted ldc (update (some a)) (without p l)
            (omega (arith, length-suppress p l.items a found, room))
            (without-IsCounted p l a found h))
  ]

  extract_from-IsCounted :
      (items : List A) (l : Counted A)
      → l.items ≡ items
      → IsCounted l
      → IsCounted (extract_from items l).0
  extract_from-IsCounted [] l e h = h
  extract_from-IsCounted (a ∷ rest) l e h = size_pred-suc l.no (length rest) (h ∙ ap length e)

  pub ldc_mutex_extract-IsCounted :
      (l : Counted A) → IsCounted l → IsCounted (ldc_mutex_extract l).0
  unfolding ldc_mutex_extract
  ldc_mutex_extract-IsCounted l h = extract_from-IsCounted l.items l refl h

  -- Where ldc_mutex_extract_by_key finds an entry it takes it out, and the number that was right is one
  -- too high.
  pub ldc_mutex_extract_by_key_off :
      (p : A → Bool) (l : Counted A) (a : A)
      → find_first p l.items ≡ some a
      → IsCounted l
      → ((ldc_mutex_extract_by_key p l).1 ≡ some a)
        × ((ldc_mutex_extract_by_key p l).0.no
            ≡ suc (length (ldc_mutex_extract_by_key p l).0.items))
  unfolding ldc_mutex_extract_by_key
  ldc_mutex_extract_by_key_off p l a found h =
      rw (ldc_mutex_extract_by_key, found) (refl, h ∙ sym (length-suppress p l.items a found))
