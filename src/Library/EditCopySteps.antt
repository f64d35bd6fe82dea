-- ===== src/Library/EditCopySteps.antt =====
-- The edit of a copy keeps both invariants: UpdateCopy of internal/service/catalogue_service.go.
use holibrary_backend.Prelude.{
  ℕ, ◌≤◌, ◌≡◌, refl, count_where, count-update_keep, none, some, Option, find_where, inl, inr,
  Option-cases, arith,
}
use holibrary_backend.Domain.{CopyStatus, LoanPolicy, Copy}
use holibrary_backend.Db.{Db, transact, record_audit}
use holibrary_backend.Circulation.Copies.{has_id}
use holibrary_backend.Catalogue.CopyEdit.{
  update_copy, update_copy_checked, apply_edit, update_copy_row, set_copy_status_closing_loan,
  find_copy, edit,
}
use holibrary_backend.Catalogue.CopyEditLaws.{update_copy-IsConsistent}
use holibrary_backend.Library.Untouched.{kept-IsQueue}
use holibrary_backend.Library.LendSteps.{IsSound, kept-IsDrawn}

row_tables :
    (i : ℕ) (policy : Option LoanPolicy) (status : Option CopyStatus) (staff : ℕ) (current : Copy)
    (db : Db)
    → ((apply_edit i policy status staff current db).1.reservations ≡ db.reservations)
      × (db.next_id ≤ (apply_edit i policy status staff current db).1.next_id)
unfolding apply_edit update_copy_row record_audit
row_tables i policy status staff current db = ground arith

closing_tables :
    (i : ℕ) (status : CopyStatus) (staff now : ℕ) (db : Db)
    → ((transact (set_copy_status_closing_loan i status staff now) db).1.reservations
        ≡ db.reservations)
      × (db.next_id ≤ (transact (set_copy_status_closing_loan i status staff now) db).1.next_id)
unfolding set_copy_status_closing_loan record_audit
closing_tables i status staff now db = ground arith

edit_tables :
    (i : ℕ) (policy : Option LoanPolicy) (status : Option CopyStatus) (staff now : ℕ)
    (current : Copy) (db : Db)
    → ((update_copy_checked i policy status staff now current db).1.reservations ≡ db.reservations)
      × (db.next_id ≤ (update_copy_checked i policy status staff now current db).1.next_id)
unfolding update_copy_checked
edit_tables i policy none staff now current db = row_tables i policy none staff current db
edit_tables i policy (some s) staff now current db =
    let closed = transact (set_copy_status_closing_loan i s staff now) db in
    ground (
      arith,
      closing_tables i s staff now db,
      row_tables i policy none staff current closed.1,
      row_tables i policy (some s) staff current db,
    )

update_tables :
    (i : ℕ) (policy : Option LoanPolicy) (status : Option CopyStatus) (staff now : ℕ) (db : Db)
    → ((update_copy i policy status staff now db).1.reservations ≡ db.reservations)
      × (db.next_id ≤ (update_copy i policy status staff now db).1.next_id)
unfolding update_copy find_copy
update_tables i policy status staff now db = elim (Option-cases (find_where (has_id i) db.copies)) [
  | inl n ↦ ground arith
  | inr (c, e) ↦ ground (arith, edit_tables i policy status staff now c db)
]

module _ (j : ℕ) where
  row_ids :
      (i : ℕ) (policy : Option LoanPolicy) (status : Option CopyStatus) (staff : ℕ) (current : Copy)
      (db : Db)
      → count_where (has_id j) (apply_edit i policy status staff current db).1.copies
        ≡ count_where (has_id j) db.copies
  unfolding apply_edit update_copy_row record_audit
  row_ids i policy status staff current db =
      ground (
        arith,
        count-update_keep (has_id i) (has_id j) (edit policy status) db.copies (λ c h. refl),
      )

  closing_ids :
      (i : ℕ) (status : CopyStatus) (staff now : ℕ) (db : Db)
      → count_where
          (has_id j)
          (transact (set_copy_status_closing_loan i status staff now) db).1.copies
        ≡ count_where (has_id j) db.copies
  unfolding set_copy_status_closing_loan record_audit
  closing_ids i status staff now db = ground (
    arith,
    count-update_keep (has_id i) (has_id j) (edit none (some status)) db.copies (λ c h. refl),
  )

  edit_ids :
      (i : ℕ) (policy : Option LoanPolicy) (status : Option CopyStatus) (staff now : ℕ)
      (current : Copy) (db : Db)
      → count_where (has_id j) (update_copy_checked i policy status staff now current db).1.copies
        ≡ count_where (has_id j) db.copies
  unfolding update_copy_checked
  edit_ids i policy none staff now current db = row_ids i policy none staff current db
  edit_ids i policy (some s) staff now current db =
      let closed = transact (set_copy_status_closing_loan i s staff now) db in
      ground (
        arith,
        closing_ids i s staff now db,
        row_ids i policy none staff current closed.1,
        row_ids i policy (some s) staff current db,
      )

  update_ids :
      (i : ℕ) (policy : Option LoanPolicy) (status : Option CopyStatus) (staff now : ℕ) (db : Db)
      → count_where (has_id j) (update_copy i policy status staff now db).1.copies
        ≡ count_where (has_id j) db.copies
  unfolding update_copy find_copy
  update_ids i policy status staff now db = elim (Option-cases (find_where (has_id i) db.copies)) [
    | inl n ↦ ground arith
    | inr (c, e) ↦ ground (arith, edit_ids i policy status staff now c db)
  ]

pub edit-IsSound :
    (i : ℕ) (policy : Option LoanPolicy) (status : Option CopyStatus) (staff now : ℕ) (db : Db)
    → IsSound db
    → IsSound (update_copy i policy status staff now db).1
edit-IsSound i policy status staff now db v =
    let (r, n) = update_tables i policy status staff now db in
    record {
      consistent = update_copy-IsConsistent i policy status staff now db v.consistent;
      queue = kept-IsQueue db (update_copy i policy status staff now db).1 r n v.queue;
      drawn =
          kept-IsDrawn db (update_copy i policy status staff now db).1
            (λ j. update_ids j i policy status staff now db) n v.drawn;
    }
