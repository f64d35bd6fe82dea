-- ===== src/Circulation/RetentionRule.antt =====
-- Step 2 of `borrow` against the rule that domain.go states: the counts that the transaction takes
-- after its claim decide what BorrowableCount decides before it.
use holibrary_backend.Prelude.{
  ℕ, ◌+◌, ◌≤◌, ◌<◌, ◌≡◌, refl, ◌↔◌, false, some, List, [], ◌∷◌, find_where, update_where,
  count_where, arith, count-update_one, count-update_keep, count_where_mono, find_where-true,
  find_where_key,
}
use holibrary_backend.Domain.{Copy}
use holibrary_backend.Domain.Retention.{borrowable_count}
use holibrary_backend.Circulation.Copies.{has_id, book_of, in_stock, on_the_shelf}
use holibrary_backend.Circulation.Borrow.{claimable, lend, retention_refuses}

pub book_of-lend :
    (i j : ℕ) (copies : List Copy)
    → book_of j (update_where (claimable i) lend copies) ≡ book_of j copies
unfolding book_of find_where update_where
book_of-lend i j [] = refl
book_of-lend i j (c ∷ copies) = ground (arith, book_of-lend i j copies)

pub book_of_found :
    (i : ℕ) (copies : List Copy) (c : Copy)
    → find_where (has_id i) copies ≡ some c
    → book_of i copies ≡ some c.book_id
unfolding book_of
book_of_found i copies c e = ground arith

stock-lend :
    (i b : ℕ) (copies : List Copy)
    → count_where (in_stock b) (update_where (claimable i) lend copies)
      ≡ count_where (in_stock b) copies
stock-lend i b copies =
    count-update_keep (claimable i) (in_stock b) lend copies (λ c h. ground arith)

pub shelf-lend :
    (i : ℕ) (copies : List Copy) (c : Copy)
    → count_where (has_id i) copies ≤ 1
    → find_where (claimable i) copies ≡ some c
    → count_where (on_the_shelf c.book_id) (update_where (claimable i) lend copies) + 1
      ≡ count_where (on_the_shelf c.book_id) copies
shelf-lend i copies c h e = ground (
  arith,
  find_where-true (claimable i) copies c e,
  count-update_one (claimable i) (on_the_shelf c.book_id) lend copies c,
  count_where_mono (claimable i) (has_id i) copies (λ d t. ground arith),
)

-- The retention test, made after the claim of an available circulating copy, passes exactly when
-- BorrowableCount of the title's stock and shelf counts before the claim is positive.
pub retention_refuses-borrowable :
    (i : ℕ) (copies : List Copy) (c : Copy)
    → count_where (has_id i) copies ≤ 1
    → find_where (claimable i) copies ≡ some c
    → (retention_refuses i (update_where (claimable i) lend copies) ≡ false) ↔ (
        0
        < borrowable_count
            (count_where (in_stock c.book_id) copies)
            (count_where (on_the_shelf c.book_id) copies))
unfolding retention_refuses borrowable_count
retention_refuses-borrowable i copies c h e = ground (
  arith,
  book_of-lend i i copies,
  book_of_found i copies c
      (find_where_key (claimable i) (has_id i) copies c (λ d t. ground arith) h e),
  stock-lend i c.book_id copies,
  shelf-lend i copies c h e,
)
