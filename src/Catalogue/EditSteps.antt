-- ===== src/Catalogue/EditSteps.antt =====
-- The two writes of `UpdateCopy` keep the copies and the loans in step: catalogue_repo.go.
use holibrary_backend.Prelude.{
  ℕ, ◌==◌, ◌≤◌, ◌≡◌, refl, ◌∙◌, inl, inr, false, ◌&&◌, Option, none, some, List, if◌then◌else◌, not,
  is_some, find_where, update_where, count_where, ==_iff, arith, Bool-cases, count-update_keep,
  count-update_loss, count_where_mono, find_where-true, count_where_only,
}
use holibrary_backend.Domain.{Copy, CopyStatus, LoanPolicy, Loan, on_loan, status_eq}
use holibrary_backend.Db.{Db, record_audit, transact}
use holibrary_backend.Circulation.Copies.{has_id}
use holibrary_backend.Circulation.Consistency.{
  IsConsistent, has_loan_id, open_for, lent, one_row-update, lent-update,
}
use holibrary_backend.Circulation.Return.{close}
use holibrary_backend.Catalogue.CopyEdit.{
  edit, update_copy_row, set_copy_status_closing_loan, apply_edit,
}

-- An edit of the row of a copy whose new status agrees with the old on being out on loan.
update_copy_row-IsConsistent :
    (i : ℕ) (policy : Option LoanPolicy) (status : Option CopyStatus) (staff : ℕ) (db : Db)
    (c : Copy)
    → IsConsistent db
    → find_where (has_id i) db.copies ≡ some c
    → status_eq (edit policy status c).status on_loan ≡ status_eq c.status on_loan
    → IsConsistent (transact (update_copy_row i policy status staff) db).1
unfolding update_copy_row record_audit
update_copy_row-IsConsistent i policy status staff db c v e s =
    rw (e, transact, update_copy_row)
      (record {
        one_row = λ j. omega (
          arith,
          v.one_row j,
          one_row-update (has_id i) (edit policy status) i (λ d h. (==_iff d.id i).0 h) (λ d. refl)
              db.copies j,
        );
        one_loan = v.one_loan;
        fresh = v.fresh;
        agree = λ j. ground (
          arith,
          v.agree j,
          lent-update (has_id i) (edit policy status) i (λ d h. (==_iff d.id i).0 h) (λ d. refl)
              db.copies c j (v.one_row i) e,
        );
      })

pub open-closed :
    (i j staff now : ℕ) (loans : List Loan)
    → count_where (open_for j) (update_where (open_for i) (close now staff) loans)
      ≡ (if j == i then 0 else count_where (open_for j) loans)
open-closed i j staff now loans = elim (Bool-cases (j == i)) [
  | inl t ↦
      let e : j ≡ i = ground arith in
      rw t (
        rw e (
          omega (
            arith,
            count-update_loss (open_for i) (open_for i) (close now staff) loans
                (λ l h. (h, ground arith)),
          )))
  | inr n ↦
      rw n
        (count-update_keep (open_for i) (open_for j) (close now staff) loans (λ l h. ground arith))
]

pub lent-le-one : (i : ℕ) (db : Db) → IsConsistent db → count_where (lent i) db.copies ≤ 1
lent-le-one i db v =
    omega (arith, v.one_row i, count_where_mono (lent i) (has_id i) db.copies (λ c h. ground arith))

pub closing-IsConsistent :
    (i : ℕ) (status : CopyStatus) (staff now : ℕ) (db : Db) (c : Copy)
    → IsConsistent db
    → find_where (has_id i) db.copies ≡ some c
    → status_eq status on_loan ≡ false
    → IsConsistent (transact (set_copy_status_closing_loan i status staff now) db).1
unfolding set_copy_status_closing_loan record_audit
closing-IsConsistent i status staff now db c v e s =
    rw (e, transact, set_copy_status_closing_loan)
      (record {
        one_row = λ j. omega (
          arith,
          v.one_row j,
          one_row-update (has_id i) (edit none (some status)) i (λ d h. (==_iff d.id i).0 h)
              (λ d. refl) db.copies j,
        );
        one_loan = λ j. omega (
          arith,
          v.one_loan j,
          count-update_keep (open_for i) (has_loan_id j) (close now staff) db.loans (λ l h. refl),
        );
        fresh = λ j h.
            count-update_keep (open_for i) (has_loan_id j) (close now staff) db.loans (λ l h. refl)
            ∙ v.fresh j h;
        agree = λ j. ground (
          arith,
          v.agree j,
          open-closed i j staff now db.loans,
          lent-le-one i db v,
          find_where-true (has_id i) db.copies c e,
          count_where_only (lent i) (has_id i) db.copies c (λ d h. ground arith) (v.one_row i) e,
          lent-update (has_id i) (edit none (some status)) i (λ d h. (==_iff d.id i).0 h)
              (λ d. refl) db.copies c j (v.one_row i) e,
        );
      })

pub apply_edit-IsConsistent :
    (i : ℕ) (policy : Option LoanPolicy) (status : Option CopyStatus) (staff : ℕ) (current : Copy)
    (db : Db) (c : Copy)
    → IsConsistent db
    → find_where (has_id i) db.copies ≡ some c
    → status_eq (edit policy status c).status on_loan ≡ status_eq c.status on_loan
    → IsConsistent (apply_edit i policy status staff current db).1
unfolding apply_edit
apply_edit-IsConsistent i policy status staff current db c v e s =
    elim (Bool-cases (is_some policy && status_eq current.status on_loan)) [
      | inl t ↦ rw (t, apply_edit) v
      | inr n ↦
          rw (n, apply_edit)
            (elim (Bool-cases (not (is_some policy) && not (is_some status))) [
              | inl t ↦ rw t v
              | inr m ↦ rw m (update_copy_row-IsConsistent i policy status staff db c v e s)
            ])
    ]
