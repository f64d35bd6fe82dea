-- ===== src/Prelude/Keys.antt =====
-- Look-ups by a key, and the counts of a selection and of a sorted table.
use Prim.Native.Nat.{suc, ◌≤◌}
use mathlib.Core.Path.{◌≡◌, refl}
use mathlib.Core.Logic.{inl, inr}
use mathlib.Core.Bool.{Bool, true, false, ◌&&◌}
use mathlib.Core.Option.{none, some}
use mathlib.Core.List.{List, [], ◌∷◌}
use native.Mathlib.Omega.{arith}
use holibrary_backend.Prelude.Lists.{length, insert_by, sort_by}
use holibrary_backend.Prelude.Tests.{Bool-cases}
use holibrary_backend.Prelude.Table.{count_where, find_where, select_where, update_where}
use holibrary_backend.Prelude.Counts.{count_where-pos, count_where_mono}

module _ {ℓ} {A : Type ℓ} where
  -- A sharper test than a key's finds the same row.
  pub find_where_key :
      (p q : A → Bool) (xs : List A) (x : A)
      → ((y : A) → p y ≡ true → q y ≡ true)
      → count_where q xs ≤ 1
      → find_where p xs ≡ some x
      → find_where q xs ≡ some x
  unfolding count_where find_where
  find_where_key p q [] x h u e = cc
  find_where_key p q (y ∷ xs) x h u e = elim (Bool-cases (q y)) [
    | inl t ↦ elim (Bool-cases (p y)) [
      | inl s ↦ ground arith
      | inr n ↦ absurd (ground (arith, count_where-pos p xs x, count_where_mono p q xs h))
    ]
    | inr n ↦ ground (arith, h y, find_where_key p q xs x h)
  ]

  pub find_where_sharp :
      (p q : A → Bool) (xs : List A) (x : A)
      → ((y : A) → p y ≡ true → q y ≡ true)
      → find_where q xs ≡ some x
      → p x ≡ true
      → find_where p xs ≡ some x
  unfolding find_where
  find_where_sharp p q [] x h e t = cc
  find_where_sharp p q (y ∷ xs) x h e t = elim (Bool-cases (q y)) [
    | inl s ↦ let y≡x : y ≡ x = ground arith in ground arith
    | inr n ↦ ground (arith, h y, find_where_sharp p q xs x h)
  ]

  pub find_where-none : (p : A → Bool) (xs : List A) → count_where p xs ≡ 0 → find_where p xs ≡ none
  unfolding count_where find_where
  find_where-none p [] h = refl
  find_where-none p (y ∷ xs) h = ground (arith, find_where-none p xs)

  -- The only row of a key fails a test, so no row passes it.
  pub count_where_only :
      (p q : A → Bool) (xs : List A) (x : A)
      → ((y : A) → p y ≡ true → q y ≡ true)
      → count_where q xs ≤ 1
      → find_where q xs ≡ some x
      → p x ≡ false
      → count_where p xs ≡ 0
  unfolding count_where find_where
  count_where_only p q [] x h u e n = refl
  count_where_only p q (y ∷ xs) x h u e n = elim (Bool-cases (q y)) [
    | inl s ↦ ground (arith, h y, count_where_mono p q xs h)
    | inr t ↦ ground (arith, h y, count_where_only p q xs x h)
  ]

  -- A row that is looked up by a test which the update keeps, after the update.
  pub find-update_hit :
      (p q : A → Bool) (f : A → A) (xs : List A) (x : A)
      → ((y : A) → p y ≡ true → q (f y) ≡ q y)
      → find_where q xs ≡ some x
      → p x ≡ true
      → find_where q (update_where p f xs) ≡ some (f x)
  unfolding find_where update_where
  find-update_hit p q f [] x k e h = cc
  find-update_hit p q f (y ∷ xs) x k e h = elim (Bool-cases (q y)) [
    | inl t ↦ ground (arith, k y)
    | inr n ↦ ground (arith, k y, find-update_hit p q f xs x k)
  ]

  pub count-update_le :
      (p q : A → Bool) (f : A → A) (xs : List A)
      → ((x : A) → p x ≡ true → q (f x) ≡ true → q x ≡ true)
      → count_where q (update_where p f xs) ≤ count_where q xs
  unfolding count_where update_where
  count-update_le p q f [] h = omega arith
  count-update_le p q f (x ∷ xs) h = ground (arith, h x, count-update_le p q f xs h)

  pub length-select : (p : A → Bool) (xs : List A) → length (select_where p xs) ≡ count_where p xs
  unfolding select_where count_where
  length-select p [] = refl
  length-select p (x ∷ xs) = ground (arith, length-select p xs)

  pub count-select :
      (p q : A → Bool) (xs : List A)
      → count_where q (select_where p xs) ≡ count_where (λ x. p x && q x) xs
  unfolding select_where count_where
  count-select p q [] = refl
  count-select p q (x ∷ xs) = ground (arith, count-select p q xs)

  count-insert :
      (q : A → Bool) (before : A → A → Bool) (x : A) (xs : List A)
      → count_where q (insert_by before x xs) ≡ count_where q (x ∷ xs)
  unfolding count_where insert_by
  count-insert q before x [] = refl
  count-insert q before x (y ∷ xs) = ground (arith, count-insert q before x xs)

  pub count-sort :
      (q : A → Bool) (before : A → A → Bool) (xs : List A)
      → count_where q (sort_by before xs) ≡ count_where q xs
  unfolding count_where sort_by
  count-sort q before [] = refl
  count-sort q before (x ∷ xs) =
      ground (arith, count-sort q before xs, count-insert q before x (sort_by before xs))

  length-insert :
      (before : A → A → Bool) (x : A) (xs : List A)
      → length (insert_by before x xs) ≡ suc (length xs)
  unfolding insert_by
  length-insert before x [] = refl
  length-insert before x (y ∷ xs) = ground (arith, length-insert before x xs)

  pub length-sort : (before : A → A → Bool) (xs : List A) → length (sort_by before xs) ≡ length xs
  unfolding sort_by
  length-sort before [] = refl
  length-sort before (x ∷ xs) =
      omega (arith, length-sort before xs, length-insert before x (sort_by before xs))
