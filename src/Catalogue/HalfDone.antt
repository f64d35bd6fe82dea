-- ===== src/Catalogue/HalfDone.antt =====
-- `UpdateCopy` with a status that closes a loan and a loan policy at once: catalogue_service.go.
use holibrary_backend.Prelude.{
  ℕ, ◌≡◌, ap, true, Option, none, some, err, find_where, count_where, arith,
}
use holibrary_backend.Domain.{
  Copy, CopyStatus, LoanPolicy, available, on_loan, lost, damaged, withdrawn, copy_on_loan,
}
use holibrary_backend.Domain.Copies.{can_transition_to, closes_an_open_loan}
use holibrary_backend.Db.{Db, record_audit}
use holibrary_backend.Circulation.Copies.{has_id}
use holibrary_backend.Circulation.Consistency.{open_for}
use holibrary_backend.Catalogue.CopyEdit.{
  find_copy, continue_edit, edit, apply_edit, update_copy_checked, update_copy,
}
use holibrary_backend.Catalogue.EditSteps.{open-closed}
use holibrary_backend.Catalogue.CopyEditLaws.{closing_result, marked, closed_db}

closing_taken :
    (i : ℕ) (policy : Option LoanPolicy) (status : CopyStatus) (staff now : ℕ) (db : Db) (c : Copy)
    → c.status ≡ on_loan
    → closes_an_open_loan status ≡ true
    → find_where (has_id i) db.copies ≡ some c
    → update_copy_checked i policy (some status) staff now c db
      ≡ apply_edit i policy none staff c (closed_db i status staff now db)
unfolding update_copy_checked can_transition_to closes_an_open_loan
closing_taken i policy lost staff now db c o s e =
    ground (arith, ap (continue_edit i policy staff c) (closing_result i lost staff now db c e))
closing_taken i policy damaged staff now db c o s e =
    ground (arith, ap (continue_edit i policy staff c) (closing_result i damaged staff now db c e))
closing_taken i policy available staff now db c o s e = cc
closing_taken i policy on_loan staff now db c o s e = cc
closing_taken i policy withdrawn staff now db c o s e = cc

-- The request that fails half way: a copy on loan is reported lost or damaged together with a new
-- loan policy. The call answers `copy_on_loan`, and has by then closed every open loan of the copy
-- and set its status; only the policy is refused.
pub update_copy_half_done :
    (i : ℕ) (policy : LoanPolicy) (status : CopyStatus) (staff now : ℕ) (db : Db) (c : Copy)
    → find_where (has_id i) db.copies ≡ some c
    → c.status ≡ on_loan
    → closes_an_open_loan status ≡ true
    → let (r, db') = update_copy i (some policy) (some status) staff now db in
      (r ≡ err copy_on_loan)
      × (find_where (has_id i) db'.copies ≡ some (edit none (some status) c))
      × (count_where (open_for i) db'.loans ≡ 0)
unfolding update_copy apply_edit record_audit
update_copy_half_done i policy status staff now db c e o s =
    rw (e, find_copy, update_copy)
      (rw (closing_taken i (some policy) status staff now db c o s e)
        (ground (arith, marked i status db.copies c e, open-closed i i staff now db.loans)))
