-- ===== src/Circulation/Race.antt =====
-- Two transactions of `borrow` at once, on two copies of one title: circulation_repo.go. Each has
-- locked its own row of `copies` and counts what it sees at the isolation level that pgx begins with,
-- READ COMMITTED: the committed rows and its own claim, but not the claim of the other.
use holibrary_backend.Prelude.{
  ℕ, ◌+◌, ◌≤◌, ◌≡◌, refl, sym, ◌≢◌, true, false, some, List, [], ◌∷◌, find_where, update_where,
  count_where, arith, count-update_keep, find_where_key,
}
use holibrary_backend.Domain.{Copy}
use holibrary_backend.Circulation.Copies.{has_id, in_stock, on_the_shelf}
use holibrary_backend.Circulation.Borrow.{claimable, lend, retention_refuses}
use holibrary_backend.Circulation.RetentionRule.{shelf-lend, book_of-lend, book_of_found}

-- What the transaction that claims copy `i` sees, and what stands once both have committed.
abbrev pub view_of : ℕ → List Copy → List Copy
view_of i copies = update_where (claimable i) lend copies

abbrev pub after_both : ℕ → ℕ → List Copy → List Copy
after_both i j copies = view_of j (view_of i copies)

one_row-lend :
    (i j : ℕ) (copies : List Copy)
    → count_where (has_id j) (view_of i copies) ≡ count_where (has_id j) copies
one_row-lend i j copies = count-update_keep (claimable i) (has_id j) lend copies (λ c h. refl)

other_claim :
    (i j : ℕ) (copies : List Copy) (d : Copy)
    → i ≢ j
    → find_where (claimable j) copies ≡ some d
    → find_where (claimable j) (view_of i copies) ≡ some d
unfolding find_where update_where
other_claim i j [] d n e = cc
other_claim i j (c ∷ copies) d n e = ground (arith, other_claim i j copies d n)

-- Whenever two copies of a title with two or more in stock are the last two on the shelf, two
-- borrows that claim one each at the same time both pass the retention test on what they see, and
-- leave no copy on the shelf. Had the second waited, it would have been refused.
pub retention_race :
    (i j : ℕ) (copies : List Copy) (c d : Copy)
    → i ≢ j
    → ((k : ℕ) → count_where (has_id k) copies ≤ 1)
    → find_where (claimable i) copies ≡ some c
    → find_where (claimable j) copies ≡ some d
    → d.book_id ≡ c.book_id
    → count_where (on_the_shelf c.book_id) copies ≡ 2
    → (retention_refuses i (view_of i copies) ≡ false)
      × (retention_refuses j (view_of j copies) ≡ false)
      × (count_where (on_the_shelf c.book_id) (after_both i j copies) ≡ 0)
      × (2 ≤ count_where (in_stock c.book_id) (after_both i j copies)
          → retention_refuses j (after_both i j copies) ≡ true)
unfolding retention_refuses
retention_race i j copies c d n u e f b two =
    let at_c : find_where (has_id i) copies ≡ some c =
      find_where_key (claimable i) (has_id i) copies c (λ x h. ground arith) (u i) e in
    let at_d : find_where (has_id j) copies ≡ some d =
      find_where_key (claimable j) (has_id j) copies d (λ x h. ground arith) (u j) f in
    let one_i = shelf-lend i copies c (u i) e in
    let one_j : count_where (on_the_shelf c.book_id) (view_of j copies) + 1
        ≡ count_where (on_the_shelf c.book_id) copies =
      rw (sym b) (shelf-lend j copies d (u j) f) in
    let both : count_where (on_the_shelf c.book_id) (after_both i j copies) + 1
        ≡ count_where (on_the_shelf c.book_id) (view_of i copies) =
      rw (sym b) (
        shelf-lend j (view_of i copies) d (omega (arith, u j, one_row-lend i j copies))
          (other_claim i j copies d n f)) in
    (
      ground (arith, book_of-lend i i copies, book_of_found i copies c at_c, one_i),
      ground (arith, book_of-lend j j copies, book_of_found j copies d at_d, one_j),
      omega (arith, one_i, both),
      λ s. ground (
        arith,
        book_of-lend j j (view_of i copies),
        book_of-lend i j copies,
        book_of_found j copies d at_d,
        one_i,
        both,
      ),
    )
