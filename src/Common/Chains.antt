-- ===== src/Common/Chains.antt =====
-- Chained lists of records that carry a text as their key. The library lstdblcyc, which is not
-- part of the repository, is the parameter `Ldc`: ldcInsert puts an item somewhere in a list and
-- keeps the order of the others.
use mathlib.Core.Path.{◌≡◌, refl, sym, ap, ◌∙◌}
use mathlib.Core.Logic.{inl, inr}
use mathlib.Core.Bool.{true, false}
use mathlib.Core.Option
use mathlib.Core.Option.{Option, none, some}
use mathlib.Core.List.{List, [], ◌∷◌, ◌++◌, append-nil}
use native.Mathlib.Omega.{arith}
use rsmp_gatewa.Common.Tests.{if◌then◌else◌, Bool-cases}
use rsmp_gatewa.Common.CStrings.{CStr, str_eq, str_eq→eq, str_eq_iff}

pub record Ldc : Type 1 where
  pub insert : {A : Type 0} → A → List A → List A
  pub insert_splits :
      {A : Type 0} (x : A) (l : List A)
      → (pre : List A) × (post : List A) × (l ≡ pre ++ post) × (insert x l ≡ pre ++ x ∷ post)

-- An `Ldc` that appends, to run the models.
abbrev pub append_ldc : Ldc
append_ldc = record {
  insert = λ x l. l ++ x ∷ [];
  insert_splits = λ x l. (l, [], sym (append-nil l), refl);
}

module _ {A : Type 0} (key : A → CStr) where
  -- The first item with this key.
  unfoldable pub find_by : CStr → List A → Option A
  find_by k [] = none
  find_by k (a ∷ l) = if str_eq (key a) k then some a else find_by k l

  -- A change through a pointer to that item.
  unfoldable pub update_by : CStr → (A → A) → List A → List A
  update_by k f [] = []
  update_by k f (a ∷ l) = if str_eq (key a) k then f a ∷ l else a ∷ update_by k f l

  -- ldcSuppress of that item.
  unfoldable pub remove_by : CStr → List A → List A
  remove_by k [] = []
  remove_by k (a ∷ l) = if str_eq (key a) k then l else a ∷ remove_by k l

  -- No two items have one key.
  abbrev pub DistinctKeys : List A → Type 0
  DistinctKeys [] = Unit
  DistinctKeys (a ∷ l) = (find_by (key a) l ≡ none) × DistinctKeys l

  pub find_by-key : (k : CStr) (l : List A) (a : A) → find_by k l ≡ some a → key a ≡ k
  unfolding find_by
  find_by-key k [] a h = cc
  find_by-key k (b ∷ l) a h = ground (arith, str_eq→eq (key b) k, find_by-key k l a)

  find_by_middle_ne :
      (k : CStr) (pre post : List A) (x : A)
      → str_eq (key x) k ≡ false
      → find_by k (pre ++ x ∷ post) ≡ find_by k (pre ++ post)
  unfolding find_by
  find_by_middle_ne k [] post x h = rw h
  find_by_middle_ne k (a ∷ pre) post x h = ground (arith, find_by_middle_ne k pre post x h)

  find_by_middle_new :
      (k : CStr) (pre post : List A) (x : A)
      → str_eq (key x) k ≡ true
      → find_by k (pre ++ post) ≡ none
      → find_by k (pre ++ x ∷ post) ≡ some x
  unfolding find_by
  find_by_middle_new k [] post x h e = rw h
  find_by_middle_new k (a ∷ pre) post x h e = ground (arith, find_by_middle_new k pre post x h)

  middle-DistinctKeys :
      (pre post : List A) (x : A)
      → find_by (key x) (pre ++ post) ≡ none
      → DistinctKeys (pre ++ post)
      → DistinctKeys (pre ++ x ∷ post)
  unfolding find_by
  middle-DistinctKeys [] post x e d = (e, d)
  middle-DistinctKeys (a ∷ pre) post x e d = (
    ground (
      arith,
      find_by_middle_ne (key a) pre post x,
      str_eq_iff (key a) (key x),
      str_eq_iff (key x) (key a),
      d.0,
    ),
    middle-DistinctKeys pre post x (ground arith) d.1,
  )

  -- After the insertion of an item with a new key.
  pub find_by-insert :
      (ldc : Ldc) (j : CStr) (x : A) (l : List A)
      → find_by (key x) l ≡ none
      → find_by j (ldc.insert x l) ≡ (if str_eq (key x) j then some x else find_by j l)
  find_by-insert ldc j x l e =
      let (pre, post, split, ins) = ldc.insert_splits x l in
      elim (Bool-cases (str_eq (key x) j)) [
        | inl same ↦
            rw (same, ins)
              (find_by_middle_new j pre post x same
                (rw (sym (str_eq→eq (key x) j same), ← split) e))
        | inr other ↦
            rw (other, ins) (find_by_middle_ne j pre post x other ∙ ap (find_by j) (sym split))
      ]

  pub insert-DistinctKeys :
      (ldc : Ldc) (x : A) (l : List A)
      → find_by (key x) l ≡ none
      → DistinctKeys l
      → DistinctKeys (ldc.insert x l)
  insert-DistinctKeys ldc x l e d =
      let (pre, post, split, ins) = ldc.insert_splits x l in
      rw ins (middle-DistinctKeys pre post x (rw (← split) e) (rw (← split) d))

  -- The update keeps the keys.
  abbrev pub KeepsKey : (A → A) → Type 0
  KeepsKey f = (a : A) → key (f a) ≡ key a

  pub find_by-update_by :
      (k j : CStr) (f : A → A) (l : List A)
      → KeepsKey f
      → find_by j (update_by k f l)
        ≡ (if str_eq k j then Option.map f (find_by j l) else find_by j l)
  unfolding find_by update_by
  find_by-update_by k j f [] h = ground arith
  find_by-update_by k j f (a ∷ l) h = ground (
    arith,
    str_eq_iff (key a) k,
    str_eq_iff (key a) j,
    str_eq_iff (key (f a)) j,
    str_eq_iff k j,
    h a,
    find_by-update_by k j f l h,
  )

  pub find_by-remove_by :
      (k j : CStr) (l : List A)
      → DistinctKeys l
      → find_by j (remove_by k l) ≡ (if str_eq k j then none else find_by j l)
  unfolding find_by remove_by
  find_by-remove_by k j [] d = ground arith
  find_by-remove_by k j (a ∷ l) d = ground (
    arith,
    str_eq_iff (key a) k,
    str_eq_iff (key a) j,
    str_eq_iff k j,
    d.0,
    find_by-remove_by k j l d.1,
  )

  find_by-remove_none :
      (k j : CStr) (l : List A) → find_by j l ≡ none → find_by j (remove_by k l) ≡ none
  unfolding find_by remove_by
  find_by-remove_none k j [] e = refl
  find_by-remove_none k j (a ∷ l) e = ground (arith, find_by-remove_none k j l)

  pub remove_by-DistinctKeys :
      (k : CStr) (l : List A) → DistinctKeys l → DistinctKeys (remove_by k l)
  unfolding remove_by
  remove_by-DistinctKeys k [] d = tt
  remove_by-DistinctKeys k (a ∷ l) d =
      ground (arith, find_by-remove_none k (key a) l, remove_by-DistinctKeys k l)

  pub update_by-DistinctKeys :
      (k : CStr) (f : A → A) (l : List A)
      → KeepsKey f
      → DistinctKeys l
      → DistinctKeys (update_by k f l)
  unfolding update_by
  update_by-DistinctKeys k f [] h d = tt
  update_by-DistinctKeys k f (a ∷ l) h d =
      ground (arith, h a, find_by-update_by k (key a) f l h, update_by-DistinctKeys k f l h)
