-- ===== src/Prelude/Table.antt =====
-- A SQL table is the list of its rows, and a WHERE clause is a Boolean function of the row.
use Prim.Native.Nat.{ℕ, ◌+◌}
use mathlib.Core.Bool.{Bool}
use mathlib.Core.Option.{Option, none, some}
use mathlib.Core.List.{List, [], ◌∷◌}
use holibrary_backend.Prelude.Tests.{if◌then◌else◌}

module _ {ℓ} {A : Type ℓ} where
  -- SELECT count(*) ... WHERE p
  unfoldable pub count_where : (A → Bool) → List A → ℕ
  count_where p [] = 0
  count_where p (x ∷ xs) = (if p x then 1 else 0) + count_where p xs

  -- SELECT ... WHERE p: the first row
  unfoldable pub find_where : (A → Bool) → List A → Option A
  find_where p [] = none
  find_where p (x ∷ xs) = if p x then some x else find_where p xs

  -- SELECT ... WHERE p: all rows
  unfoldable pub select_where : (A → Bool) → List A → List A
  select_where p [] = []
  select_where p (x ∷ xs) = let rest = select_where p xs in if p x then x ∷ rest else rest

  -- UPDATE ... SET f WHERE p
  unfoldable pub update_where : (A → Bool) → (A → A) → List A → List A
  update_where p f [] = []
  update_where p f (x ∷ xs) = (if p x then f x else x) ∷ update_where p f xs

  -- DELETE ... WHERE p
  unfoldable pub delete_where : (A → Bool) → List A → List A
  delete_where p [] = []
  delete_where p (x ∷ xs) = let rest = delete_where p xs in if p x then rest else x ∷ rest

  -- The better of a row and the best of the rest, ORDER BY before ... LIMIT 1.
  better : (A → A → Bool) → A → Option A → A
  better before x none = x
  better before x (some y) = if before y x then y else x

  -- SELECT ... WHERE p ORDER BY before LIMIT 1. `before` is strict; of equal rows the first is taken.
  unfoldable pub first_where : (A → Bool) → (A → A → Bool) → List A → Option A
  unfolding better
  first_where p before [] = none
  first_where p before (x ∷ xs) =
      let rest = first_where p before xs in if p x then some (better before x rest) else rest
