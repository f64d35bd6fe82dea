-- ===== src/Circulation/Return.antt =====
-- CirculationRepo.Return and explainUnreturnableLoan of internal/repository/postgres/
-- circulation_repo.go. `now` is the clock of the database.
use holibrary_backend.Prelude.{
  ℕ, ◌==◌, ltb, not, if◌then◌else◌, Bool, ◌&&◌, none, some, ok, err, find_where, update_where,
}
use holibrary_backend.Domain.{
  Error, Copy, Loan, available, not_found, loan_already_closed, invalid, conflict,
}
use holibrary_backend.Db.{Db, Tx, loan_returned, record_audit}
use holibrary_backend.Db.Transaction.{◌>>=◌, ◌>>◌, pure, write}
use holibrary_backend.Circulation.Copies.{is_open, is_account}
use holibrary_backend.Circulation.Consistency.{has_loan_id, lent}

abbrev pub is_closable : ℕ → Loan → Bool
is_closable i l = l.id == i && is_open l

abbrev pub close : ℕ → ℕ → Loan → Loan
close now staff l = record l { returned_at = some now; returned_to = some staff }

abbrev pub shelve : Copy → Copy
shelve c = record c { status = available }

unfoldable pub explain_unreturnable_loan : ℕ → Db → Error
explain_unreturnable_loan i db = elim (find_where (has_loan_id i) db.loans) [
  | none ↦ not_found
  | some _ ↦ loan_already_closed
]

-- UPDATE loans ... WHERE id = $1 AND returned_at IS NULL RETURNING ..., with the CHECK that a loan is
-- not returned before it was made and the foreign key on returned_to.
unfoldable pub close_loan : ℕ → ℕ → ℕ → Tx Loan
close_loan i staff now db = elim (find_where (is_closable i) db.loans) [
  | none ↦ err (explain_unreturnable_loan i db)
  | some l ↦
      if ltb now l.borrowed_at
      then err invalid
      else if not (is_account staff db.users)
      then err conflict
      else ok (
        close now staff l,
        record db { loans = update_where (is_closable i) (close now staff) db.loans },
      )
]

-- UPDATE copies SET status = 'available' WHERE id = $1 AND status = 'on_loan'
unfoldable pub put_back : ℕ → Db → Db
put_back i db = record db { copies = update_where (lent i) shelve db.copies }

unfoldable pub return_loan : ℕ → ℕ → ℕ → Tx Loan
return_loan i staff now = do
  l ← close_loan i staff now
  write (put_back l.copy_id)
  write (record_audit staff loan_returned l.id)
  pure l
