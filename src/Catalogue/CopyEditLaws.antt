-- ===== src/Catalogue/CopyEditLaws.antt =====
-- What an edit of a copy guarantees when nothing comes between its read and its write:
-- catalogue_service.go, `UpdateCopy`.
use mathlib.Core.Path.{subst}
use holibrary_backend.Prelude.{
  ℕ, ◌≡◌, refl, sym, inl, inr, true, false, ◌&&◌, Option, none, some, List, [], ◌∷◌, Result, ok,
  find_where, update_where, arith, Bool-cases, Option-cases,
}
use holibrary_backend.Domain.{Error, Copy, CopyStatus, LoanPolicy, on_loan, status_eq}
use holibrary_backend.Domain.Copies.{can_transition_to, closes_an_open_loan}
use holibrary_backend.Db.{Db, record_audit, transact, copy_marked}
use holibrary_backend.Circulation.Copies.{has_id}
use holibrary_backend.Circulation.Consistency.{IsConsistent, open_for}
use holibrary_backend.Circulation.Return.{close}
use holibrary_backend.Catalogue.CopyEdit.{
  find_copy, continue_edit, edit, set_copy_status_closing_loan, apply_edit, update_copy_checked,
  update_copy,
}
use holibrary_backend.Catalogue.EditSteps.{closing-IsConsistent, apply_edit-IsConsistent}

-- A permitted change of status that does not close a loan agrees with the old on being out on loan.
permitted_agrees :
    (c n : CopyStatus)
    → can_transition_to c n ≡ true
    → (status_eq c on_loan && closes_an_open_loan n) ≡ false
    → status_eq n on_loan ≡ status_eq c on_loan
unfolding can_transition_to closes_an_open_loan
permitted_agrees c n h k = ground arith

same_agrees : (c n : CopyStatus) → status_eq n c ≡ true → status_eq n on_loan ≡ status_eq c on_loan
same_agrees c n h = ground arith

closing_not_on_loan : (n : CopyStatus) → closes_an_open_loan n ≡ true → status_eq n on_loan ≡ false
unfolding closes_an_open_loan
closing_not_on_loan n h = ground arith

-- After the closing write the copy has the new status.
pub marked :
    (i : ℕ) (status : CopyStatus) (copies : List Copy) (c : Copy)
    → find_where (has_id i) copies ≡ some c
    → find_where (has_id i) (update_where (has_id i) (edit none (some status)) copies)
      ≡ some (edit none (some status) c)
unfolding find_where update_where
marked i status [] c e = cc
marked i status (d ∷ copies) c e = ground (arith, marked i status copies c)

closing_then_edit-IsConsistent :
    (i : ℕ) (policy : Option LoanPolicy) (status : CopyStatus) (staff now : ℕ) (db : Db) (c : Copy)
    → IsConsistent db
    → find_where (has_id i) db.copies ≡ some c
    → status_eq status on_loan ≡ false
    → IsConsistent
        (apply_edit i policy none staff c
          (transact (set_copy_status_closing_loan i status staff now) db).1).1
closing_then_edit-IsConsistent i policy status staff now db c v e s =
    apply_edit-IsConsistent i policy none staff c
      (transact (set_copy_status_closing_loan i status staff now) db).1 (edit none (some status) c)
      (closing-IsConsistent i status staff now db c v e s)
      (unfold set_copy_status_closing_loan record_audit in
        rw (e, transact, set_copy_status_closing_loan) (marked i status db.copies c e))
      refl

abbrev pub closed_db : ℕ → CopyStatus → ℕ → ℕ → Db → Db
closed_db i status staff now db = record_audit staff (copy_marked status) i (record db {
  loans = update_where (open_for i) (close now staff) db.loans;
  copies = update_where (has_id i) (edit none (some status)) db.copies;
})

pub closing_result :
    (i : ℕ) (status : CopyStatus) (staff now : ℕ) (db : Db) (c : Copy)
    → find_where (has_id i) db.copies ≡ some c
    → transact (set_copy_status_closing_loan i status staff now) db
      ≡ (ok tt, closed_db i status staff now db)
unfolding set_copy_status_closing_loan
closing_result i status staff now db c e = rw (e, transact, set_copy_status_closing_loan) refl

closing_branch :
    (i : ℕ) (policy : Option LoanPolicy) (status : CopyStatus) (staff now : ℕ) (db : Db) (c : Copy)
    → IsConsistent db
    → find_where (has_id i) db.copies ≡ some c
    → status_eq status on_loan ≡ false
    → IsConsistent
        (continue_edit i policy staff c
          (transact (set_copy_status_closing_loan i status staff now) db)).1
closing_branch i policy status staff now db c v e s =
    subst (λ (q : Result Error (Unit {0}) × Db). IsConsistent (continue_edit i policy staff c q).1)
      (sym (closing_result i status staff now db c e))
      (subst
        (λ (q : Result Error (Unit {0}) × Db).
          IsConsistent (apply_edit i policy none staff c q.1).1)
        (closing_result i status staff now db c e)
        (closing_then_edit-IsConsistent i policy status staff now db c v e s))

checked-IsConsistent :
    (i : ℕ) (policy : Option LoanPolicy) (status : Option CopyStatus) (staff now : ℕ) (db : Db)
    (c : Copy)
    → IsConsistent db
    → find_where (has_id i) db.copies ≡ some c
    → IsConsistent (update_copy_checked i policy status staff now c db).1
unfolding update_copy_checked
checked-IsConsistent i policy none staff now db c v e =
    apply_edit-IsConsistent i policy none staff c db c v e refl
checked-IsConsistent i policy (some n) staff now db c v e =
    elim (Bool-cases (status_eq n c.status)) [
      | inl t ↦
          rw t
            (apply_edit-IsConsistent i policy (some n) staff c db c v e (same_agrees c.status n t))
      | inr f ↦ rw f (elim (Bool-cases (can_transition_to c.status n)) [
        | inr g ↦ rw g v
        | inl g ↦ rw g (elim (Bool-cases (status_eq c.status on_loan && closes_an_open_loan n)) [
          | inr k ↦ rw k (
              apply_edit-IsConsistent i policy (some n) staff c db c v e
                (permitted_agrees c.status n g k))
          | inl k ↦
              rw k (
                closing_branch i policy n staff now db c v e (closing_not_on_loan n (ground arith)))
        ])
      ])
    ]

-- An edit of a copy keeps the invariant, whether it succeeds or fails, if nothing changes the
-- database between its read and its write: a copy on loan leaves that state only with its loan
-- closed, and no edit puts a copy into it.
pub update_copy-IsConsistent :
    (i : ℕ) (policy : Option LoanPolicy) (status : Option CopyStatus) (staff now : ℕ) (db : Db)
    → IsConsistent db
    → IsConsistent (update_copy i policy status staff now db).1
unfolding update_copy
update_copy-IsConsistent i policy status staff now db v =
    elim (Option-cases (find_where (has_id i) db.copies)) [
      | inl n ↦ rw (n, find_copy, update_copy) v
      | inr (c, e) ↦
          rw (e, find_copy, update_copy) (checked-IsConsistent i policy status staff now db c v e)
    ]
