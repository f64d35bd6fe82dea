-- ===== src/Prelude/Counts.antt =====
-- How a SELECT and an UPDATE bear on the counts of a table.
use Prim.Native.Nat.{◌+◌, ◌≤◌, ◌<◌}
use mathlib.Core.Path.{◌≡◌, refl}
use mathlib.Core.Logic.{inl, inr}
use mathlib.Core.Bool.{Bool, true, false}
use mathlib.Core.Option.{none, some}
use mathlib.Core.List.{List, [], ◌∷◌}
use native.Mathlib.Omega.{arith}
use holibrary_backend.Prelude.Tests.{if◌then◌else◌, Bool-cases}
use holibrary_backend.Prelude.Table.{count_where, find_where, update_where}

module _ {ℓ} {A : Type ℓ} where
  pub find_where-true : (p : A → Bool) (xs : List A) (x : A) → find_where p xs ≡ some x → p x ≡ true
  unfolding find_where
  find_where-true p [] x h = cc
  find_where-true p (y ∷ xs) x h = elim (Bool-cases (p y)) [
    | inl e ↦ ground arith
    | inr e ↦ find_where-true p xs x (ground arith)
  ]

  pub count_where-pos :
      (p : A → Bool) (xs : List A) (x : A) → find_where p xs ≡ some x → 0 < count_where p xs
  unfolding find_where count_where
  count_where-pos p [] x h = cc
  count_where-pos p (y ∷ xs) x h = ground (arith, count_where-pos p xs x)

  pub count_where_zero :
      (p : A → Bool) (xs : List A) → find_where p xs ≡ none → count_where p xs ≡ 0
  unfolding find_where count_where
  count_where_zero p [] h = refl
  count_where_zero p (y ∷ xs) h = ground (arith, count_where_zero p xs)

  pub find_where-some :
      (p : A → Bool) (xs : List A)
      → 0 < count_where p xs
      → (x : A) × (find_where p xs ≡ some x) × (p x ≡ true)
  unfolding find_where count_where
  find_where-some p [] h = absurd (omega arith)
  find_where-some p (y ∷ xs) h = elim (Bool-cases (p y)) [
    | inl e ↦ (y, rw e, e)
    | inr e ↦ rw e (find_where-some p xs (ground arith))
  ]

  pub count_where_mono :
      (p q : A → Bool) (xs : List A)
      → ((x : A) → p x ≡ true → q x ≡ true)
      → count_where p xs ≤ count_where q xs
  unfolding count_where
  count_where_mono p q [] h = omega arith
  count_where_mono p q (x ∷ xs) h = ground (arith, h x, count_where_mono p q xs h)

  pub count-update_loss :
      (p q : A → Bool) (f : A → A) (xs : List A)
      → ((x : A) → p x ≡ true → (q x ≡ true) × (q (f x) ≡ false))
      → count_where q (update_where p f xs) + count_where p xs ≡ count_where q xs
  unfolding count_where update_where
  count-update_loss p q f [] h = omega arith
  count-update_loss p q f (x ∷ xs) h = ground (arith, h x, count-update_loss p q f xs h)

  pub count-update_keep :
      (p q : A → Bool) (f : A → A) (xs : List A)
      → ((x : A) → p x ≡ true → q (f x) ≡ q x)
      → count_where q (update_where p f xs) ≡ count_where q xs
  unfolding count_where update_where
  count-update_keep p q f [] h = omega arith
  count-update_keep p q f (x ∷ xs) h = ground (arith, h x, count-update_keep p q f xs h)

  -- An UPDATE by primary key: at most one row matches.
  pub update-where_zero :
      (p : A → Bool) (f : A → A) (xs : List A) → count_where p xs ≡ 0 → update_where p f xs ≡ xs
  unfolding count_where update_where
  update-where_zero p f [] h = refl
  update-where_zero p f (x ∷ xs) h = ground (arith, update-where_zero p f xs)

  pub count-update_one :
      (p q : A → Bool) (f : A → A) (xs : List A) (x : A)
      → count_where p xs ≤ 1
      → find_where p xs ≡ some x
      → count_where q (update_where p f xs) + (if q x then 1 else 0)
        ≡ count_where q xs + (if q (f x) then 1 else 0)
  unfolding count_where update_where find_where
  count-update_one p q f [] x h e = cc
  count-update_one p q f (y ∷ xs) x h e = elim (Bool-cases (p y)) [
    | inl t ↦ ground (arith, update-where_zero p f xs)
    | inr n ↦ ground (arith, count-update_one p q f xs x)
  ]
