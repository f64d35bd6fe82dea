-- ===== src/Witnesses/CirculationRuns.antt =====
-- Borrows and returns in the small library.
use holibrary_backend.Prelude.{
  ℕ, ◌+◌, ◌*◌, ◌==◌, ◌≤◌, ◌<◌, ◌≡◌, ◌≢◌, ◌↔◌, refl, true, false, ◌&&◌, some, ◌∷◌, ok, err,
  count_where, find_where, first_where, update_where, arith,
}
use holibrary_backend.Domain.{
  Loan, day, terms_for, can_borrow, copy_not_borrowable, not_found, is_borrowable, withdrawn,
  on_loan, lost,
}
use holibrary_backend.Domain.Retention.{borrowable_count}
use holibrary_backend.Domain.Copies.{Reach, here, next, can_transition_to}
use holibrary_backend.Db.{Db, record_audit}
use holibrary_backend.Circulation.Copies.{
  book_of, count_active_loans, in_stock, on_the_shelf, is_open,
}
use holibrary_backend.Circulation.Borrow.{
  BorrowParams, borrow, reservation_head, claim, claimable, lend, retention_refuses, insert_loan,
  fulfilled, new_loan, explain_unclaimable_copy,
}
use holibrary_backend.Circulation.BorrowSafety.{borrow-ok_iff, IsLendable}
use holibrary_backend.Circulation.Refusals.{Refusal, borrow-Refusal}
use holibrary_backend.Circulation.RetentionRule.{retention_refuses-borrowable}
use holibrary_backend.Circulation.Race.{view_of, after_both, retention_race}
use holibrary_backend.Circulation.RoundTrip.{return-borrow}
use holibrary_backend.Circulation.Return.{
  return_loan, close, close_loan, explain_unreturnable_loan, put_back,
}
use holibrary_backend.Circulation.ReturnLaws.{returned}
use holibrary_backend.Circulation.Desk.{
  borrow_at_desk, self_checkout, checkout, entitlement, self_entitlement, lend_and_notify,
}
use holibrary_backend.Circulation.Reminders.{notify_due_soon, is_due, chases, notify_due_soon_again}
use holibrary_backend.Witnesses.Fixtures.{
  library, library-IsConsistent, issue, issued, issue-ok, copy_one, copy_two,
}

borrow-ok_iff_example :
    ((r : Loan × Db) × (borrow issue false library ≡ ok r)) ↔ IsLendable issue library
borrow-ok_iff_example = borrow-ok_iff issue false library library-IsConsistent

abbrev issue_three : BorrowParams
issue_three = record issue { copy_id = 3 }

issue_three-err : borrow issue_three false library ≡ err copy_not_borrowable
unfolding borrow reservation_head claim explain_unclaimable_copy book_of find_where first_where
    is_borrowable
issue_three-err = refl

borrow-Refusal_example : Refusal issue_three library copy_not_borrowable
borrow-Refusal_example =
    borrow-Refusal issue_three false library copy_not_borrowable library-IsConsistent
      issue_three-err

one_claimable : find_where (claimable 1) library.copies ≡ some copy_one
unfolding find_where
one_claimable = refl

two_claimable : find_where (claimable 2) library.copies ≡ some copy_two
unfolding find_where
two_claimable = refl

retention_refuses-borrowable_example :
    (retention_refuses 1 (update_where (claimable 1) lend library.copies) ≡ false) ↔ (
      0
      < borrowable_count
          (count_where (in_stock 10) library.copies)
          (count_where (on_the_shelf 10) library.copies))
retention_refuses-borrowable_example =
    retention_refuses-borrowable 1 library.copies copy_one (library-IsConsistent.one_row 1)
      one_claimable

one_not_two : ◌≢◌ {A = ℕ} 1 2
one_not_two e = omega (arith, e)

two_on_shelf : count_where (on_the_shelf 10) library.copies ≡ 2
unfolding count_where
two_on_shelf = refl

retention_race_example :
    (retention_refuses 1 (view_of 1 library.copies) ≡ false)
    × (retention_refuses 2 (view_of 2 library.copies) ≡ false)
    × (count_where (on_the_shelf 10) (after_both 1 2 library.copies) ≡ 0)
    × (2 ≤ count_where (in_stock 10) (after_both 1 2 library.copies)
        → retention_refuses 2 (after_both 1 2 library.copies) ≡ true)
retention_race_example =
    retention_race 1 2 library.copies copy_one copy_two one_not_two library-IsConsistent.one_row
      one_claimable two_claimable refl two_on_shelf

return-borrow_example :
    (s : Loan × Db) × (return_loan 100 9 50 issued.1 ≡ ok s)
    × (s.1.copies ≡ library.copies)
    × (s.1.loans ≡ close 50 9 issued.0 ∷ library.loans)
return-borrow_example =
    return-borrow issue false 9 50 library issued library-IsConsistent issue-ok (omega arith)
      (unfold find_where in refl)

abbrev taken_back : Loan × Db
taken_back = (close 50 9 issued.0, returned 100 9 50 issued.0 issued.1)

return-ok : return_loan 100 9 50 issued.1 ≡ ok taken_back
unfolding return_loan close_loan put_back record_audit find_where
return-ok = refl

return-err : return_loan 999 9 50 library ≡ err not_found
unfolding return_loan close_loan explain_unreturnable_loan find_where
return-err = refl

desk-ok : (borrow_at_desk 1 7 9 5 library).0 ≡ ok issued.0
unfolding borrow_at_desk checkout entitlement lend_and_notify borrow reservation_head claim
    retention_refuses insert_loan count_active_loans record_audit fulfilled book_of count_where
    find_where first_where update_where can_borrow terms_for
desk-ok = refl

abbrev own_loan : Loan
own_loan = new_loan (record issue { issued_by = 7 }) 100

self-ok : (self_checkout 1 7 5 library).0 ≡ ok own_loan
unfolding self_checkout checkout self_entitlement entitlement lend_and_notify borrow
    reservation_head claim retention_refuses insert_loan count_active_loans record_audit fulfilled
    book_of count_where find_where first_where update_where can_borrow terms_for
self-ok = refl

few_open : count_where is_open issued.1.loans ≤ 500
unfolding count_where record_audit
few_open = omega arith

notify_due_soon_again_example :
    let first = (notify_due_soon (2 * day) (13 * day) issued.1).1 in
    let second = (notify_due_soon (2 * day) (13 * day + 3600) first).1 in
    count_where (chases 100) second.outbox
    ≡ count_where (chases 100) issued.1.outbox
      + count_where (λ l. l.id == 100 && is_due (2 * day) (13 * day) l) issued.1.loans
      + count_where (λ l. l.id == 100 && is_due (2 * day) (13 * day + 3600) l) issued.1.loans
notify_due_soon_again_example =
    notify_due_soon_again (2 * day) (13 * day) (13 * day + 3600) issued.1 100 few_open

lost_reached : Reach on_loan lost
unfolding can_transition_to
lost_reached = next here refl

lost_then_withdrawn : Reach on_loan withdrawn
unfolding can_transition_to
lost_then_withdrawn = next lost_reached refl
