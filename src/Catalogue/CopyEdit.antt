-- ===== src/Catalogue/CopyEdit.antt =====
-- CatalogueService.UpdateCopy of internal/service/catalogue_service.go, over FindCopy, UpdateCopy and
-- SetCopyStatusClosingLoan of internal/repository/postgres/catalogue_repo.go.
use holibrary_backend.Prelude.{
  ℕ, ◌&&◌, Option, none, some, Result, ok, err, if◌then◌else◌, not, is_some, find_where,
  update_where,
}
use holibrary_backend.Domain.{
  Error, Copy, CopyStatus, LoanPolicy, on_loan, status_eq, not_found, invalid_transition,
  copy_on_loan,
}
use holibrary_backend.Domain.Copies.{can_transition_to, closes_an_open_loan}
use holibrary_backend.Db.{Db, Tx, Action, transact, copy_updated, copy_marked, record_audit}
use holibrary_backend.Circulation.Copies.{has_id}
use holibrary_backend.Circulation.Consistency.{open_for}
use holibrary_backend.Circulation.Return.{close}

unfoldable pub find_copy : ℕ → Db → Result Error Copy
find_copy i db = elim (find_where (has_id i) db.copies) [ none ↦ err not_found | some c ↦ ok c ]

abbrev coalesce {ℓ} : {A : Type ℓ} → Option A → A → A
coalesce none a = a
coalesce (some b) a = b

abbrev pub edit : Option LoanPolicy → Option CopyStatus → Copy → Copy
edit policy status c = record c {
  loan_policy = coalesce policy c.loan_policy;
  status = coalesce status c.status;
}

-- CatalogueRepo.UpdateCopy
unfoldable pub update_copy_row : ℕ → Option LoanPolicy → Option CopyStatus → ℕ → Tx (Unit {0})
update_copy_row i policy status staff db = elim (find_where (has_id i) db.copies) [
  | none ↦ err not_found
  | some _ ↦ ok (
    tt,
    record_audit staff copy_updated i
        (record db { copies = update_where (has_id i) (edit policy status) db.copies }),
  )
]

-- CatalogueRepo.SetCopyStatusClosingLoan: every open loan of the copy is closed as well.
unfoldable pub set_copy_status_closing_loan : ℕ → CopyStatus → ℕ → ℕ → Tx (Unit {0})
set_copy_status_closing_loan i status staff now db = elim (find_where (has_id i) db.copies) [
  | none ↦ err not_found
  | some _ ↦ ok (
    tt,
    record_audit staff (copy_marked status) i (record db {
      loans = update_where (open_for i) (close now staff) db.loans;
      copies = update_where (has_id i) (edit none (some status)) db.copies;
    }),
  )
]

-- The rest of UpdateCopy once a closing status has been applied, or was not asked for.
unfoldable pub apply_edit : ℕ → Option LoanPolicy → Option CopyStatus → ℕ → Copy → Action (Unit {0})
apply_edit i policy status staff current db =
    if is_some policy && status_eq current.status on_loan
    then (err copy_on_loan, db)
    else if not (is_some policy) && not (is_some status)
    then (ok tt, db)
    else transact (update_copy_row i policy status staff) db

-- `if err != nil { return err }; status = nil`, after SetCopyStatusClosingLoan.
abbrev pub continue_edit :
    ℕ → Option LoanPolicy → ℕ → Copy → Result Error (Unit {0}) × Db → Result Error (Unit {0}) × Db
continue_edit i policy staff current (ok _, db) = apply_edit i policy none staff current db
continue_edit i policy staff current (err e, db) = (err e, db)

-- UpdateCopy after it has read the copy: `current` is what it read.
unfoldable pub update_copy_checked :
    ℕ → Option LoanPolicy → Option CopyStatus → ℕ → ℕ → Copy → Action (Unit {0})
update_copy_checked i policy none staff now current db = apply_edit i policy none staff current db
update_copy_checked i policy (some status) staff now current db =
    if status_eq status current.status
    then apply_edit i policy (some status) staff current db
    else if not (can_transition_to current.status status)
    then (err invalid_transition, db)
    else if status_eq current.status on_loan && closes_an_open_loan status
    then continue_edit i policy staff current
        (transact (set_copy_status_closing_loan i status staff now) db)
    else apply_edit i policy (some status) staff current db

unfoldable pub update_copy : ℕ → Option LoanPolicy → Option CopyStatus → ℕ → ℕ → Action (Unit {0})
unfolding find_copy
update_copy i policy status staff now db = elim (find_copy i db) [
  | ok current ↦ update_copy_checked i policy status staff now current db
  | err e ↦ (err e, db)
]
