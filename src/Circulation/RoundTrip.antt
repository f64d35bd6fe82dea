-- ===== src/Circulation/RoundTrip.antt =====
-- Borrowing a copy and returning it: circulation_repo.go, `borrow` and then `Return`.
use mathlib.Core.Path.{subst}
use holibrary_backend.Prelude.{
  ℕ, ◌≤◌, true, ◌≡◌, Bool, List, ◌∷◌, ok, find_where, update_where, count_where, arith,
  update-where_zero, count_where_mono,
}
use holibrary_backend.Domain.{Loan}
use holibrary_backend.Db.{Db, record_audit}
use holibrary_backend.Circulation.Consistency.{IsConsistent, has_loan_id}
use holibrary_backend.Circulation.Borrow.{BorrowParams, borrow, new_loan}
use holibrary_backend.Circulation.BorrowLaws.{borrowed}
use holibrary_backend.Circulation.BorrowSafety.{borrow-inv}
use holibrary_backend.Circulation.Return.{is_closable, close, return_loan}
use holibrary_backend.Circulation.ReturnLaws.{returned, return_eq, restored}
use holibrary_backend.Circulation.Copies.{is_account}

closes_new :
    (p : BorrowParams) (i staff now : ℕ) (loans : List Loan)
    → count_where (has_loan_id i) loans ≡ 0
    → update_where (is_closable i) (close now staff) (new_loan p i ∷ loans)
      ≡ close now staff (new_loan p i) ∷ loans
unfolding update_where
closes_new p i staff now loans h = ground (
  arith,
  update-where_zero (is_closable i) (close now staff) loans,
  count_where_mono (is_closable i) (has_loan_id i) loans (λ l t. ground arith),
)

-- A copy that is borrowed can be returned by any account, at a time that is not before the borrow, and
-- then every copy stands as before the borrow, and the
-- loans are those of before with one more that is closed at the time of the return by the staff
-- member who took the copy in. No loan is deleted.
pub return-borrow :
    (p : BorrowParams) (self : Bool) (staff now : ℕ) (db : Db) (r : Loan × Db)
    → IsConsistent db
    → borrow p self db ≡ ok r
    → p.borrowed_at ≤ now
    → is_account staff db.users ≡ true
    → (s : Loan × Db) × (return_loan r.0.id staff now r.1 ≡ ok s)
      × (s.1.copies ≡ db.copies)
      × (s.1.loans ≡ close now staff r.0 ∷ db.loans)
return-borrow p self staff now db r v h later known =
    let (m, q) = borrow-inv p self db r h in
    subst
      (λ (r : Loan × Db).
        (s : Loan × Db) × (return_loan r.0.id staff now r.1 ≡ ok s)
        × (s.1.copies ≡ db.copies)
        × (s.1.loans ≡ close now staff r.0 ∷ db.loans))
      q
      (
        (
          close now staff (new_loan p db.next_id),
          returned db.next_id staff now (new_loan p db.next_id) (borrowed p self db),
        ),
        return_eq db.next_id staff now (borrowed p self db) (new_loan p db.next_id) (
            unfold find_where record_audit in
            record { found = ground arith; later = ground arith; known = ground (arith, known) }),
        (unfold record_audit in restored p.copy_id db.copies m.row (v.one_row p.copy_id) m.found),
        (unfold record_audit in
            closes_new p db.next_id staff now db.loans (v.fresh db.next_id (omega arith))),
      )
