-- ===== src/Catalogue/StaleEdit.antt =====
-- `UpdateCopy` reads the copy, tests the change against what it read, and writes with no test:
-- catalogue_service.go and catalogue_repo.go. Here a borrow commits between the read and the write.
use mathlib.Core.Path.{subst}
use holibrary_backend.Prelude.{
  ℕ, ◌≡◌, refl, Bool, true, none, some, List, ◌≢◌, ok, find_where, update_where, count_where, arith,
  ==_iff, find_where-true, find-update_hit, find_where_key,
}
use holibrary_backend.Domain.{Copy, CopyStatus, Loan, available, on_loan}
use holibrary_backend.Domain.Copies.{can_transition_to, closes_an_open_loan}
use holibrary_backend.Db.{Db, record_audit}
use holibrary_backend.Circulation.Copies.{has_id}
use holibrary_backend.Circulation.Consistency.{IsConsistent, open_for, lent, lent-update}
use holibrary_backend.Circulation.Borrow.{BorrowParams, claimable, lend, borrow}
use holibrary_backend.Circulation.BorrowSafety.{
  borrow-inv, borrow-IsConsistent, MayBorrow-IsLendable, IsLendable,
}
use holibrary_backend.Catalogue.EditSteps.{lent-le-one}
use holibrary_backend.Catalogue.CopyEdit.{edit, update_copy_row, apply_edit, update_copy_checked}

lent_row :
    (i : ℕ) (copies : List Copy) (c : Copy)
    → find_where (has_id i) copies ≡ some c
    → claimable i c ≡ true
    → find_where (has_id i) (update_where (claimable i) lend copies) ≡ some (lend c)
lent_row i copies c e h = find-update_hit (claimable i) (has_id i) lend copies c (λ d t. refl) e h

-- A status edit that was decided on a copy seen available, written when the copy is out on loan.
stale_write :
    (i : ℕ) (n : CopyStatus) (staff now : ℕ) (stale : Copy) (db : Db) (c : Copy)
    → IsConsistent db
    → stale.status ≡ available
    → find_where (has_id i) db.copies ≡ some c
    → c.status ≡ on_loan
    → can_transition_to available n ≡ true
    → n ≢ available
    → let (r, db') = update_copy_checked i none (some n) staff now stale db in
      (r ≡ ok tt) × (count_where (open_for i) db'.loans ≡ 1) × (count_where (lent i) db'.copies ≡ 0)
unfolding update_copy_checked apply_edit update_copy_row can_transition_to closes_an_open_loan
    record_audit
stale_write i n staff now stale db c v a e o h k = ground (
  arith,
  v.agree i,
  lent-le-one i db v,
  find_where-true (has_id i) db.copies c e,
  lent-update (has_id i) (edit none (some n)) i (λ d t. (==_iff d.id i).0 t) (λ d. refl) db.copies c
      i (v.one_row i) e,
)

-- The row that a successful borrow takes, before and after.
seen :
    (p : BorrowParams) (self : Bool) (db : Db) (c : Copy) (r : Loan × Db)
    → IsConsistent db
    → find_where (has_id p.copy_id) db.copies ≡ some c
    → borrow p self db ≡ ok r
    → (c.status ≡ available) × (find_where (has_id p.copy_id) r.1.copies ≡ some (lend c))
unfolding record_audit
seen p self db c r v e h =
    let (m, q) = borrow-inv p self db r h in
    let a : IsLendable p db = MayBorrow-IsLendable p db v m in
    let same : a.row ≡ c = ground (arith, a.is_row) in
    let same_row : m.row ≡ c = ground (
      arith,
      e,
      find_where_key (claimable p.copy_id) (has_id p.copy_id) db.copies m.row (λ x h. ground arith)
          (v.one_row p.copy_id) m.found,
    ) in
    let taken : claimable p.copy_id c ≡ true =
      subst (λ (x : Copy). claimable p.copy_id x ≡ true) same_row
        (find_where-true (claimable p.copy_id) db.copies m.row m.found) in
    (
      subst (λ (x : Copy). x.status ≡ available) same a.is_available,
      subst (λ (s : Loan × Db). find_where (has_id p.copy_id) s.1.copies ≡ some (lend c)) q
          (lent_row p.copy_id db.copies c e taken),
    )

-- A librarian's edit reads an available copy; a borrow of that copy commits; the edit then writes the
-- status it had settled on. It succeeds, and the loan stays open though no row says that the copy is
-- out, so the invariant is lost.
pub edit_race :
    (p : BorrowParams) (self : Bool) (n : CopyStatus) (staff now : ℕ) (db : Db) (c : Copy)
    (r : Loan × Db)
    → IsConsistent db
    → find_where (has_id p.copy_id) db.copies ≡ some c
    → borrow p self db ≡ ok r
    → can_transition_to available n ≡ true
    → n ≢ available
    → let (res, db') = update_copy_checked p.copy_id none (some n) staff now c r.1 in
      (res ≡ ok tt)
      × (count_where (open_for p.copy_id) db'.loans ≡ 1)
      × (count_where (lent p.copy_id) db'.copies ≡ 0)
      × ¬ IsConsistent db'
edit_race p self n staff now db c r v e h k m =
    let (a, b, d) =
      stale_write p.copy_id n staff now c r.1 (lend c) (borrow-IsConsistent p self db r v h)
        (ground (arith, (seen p self db c r v e h).0)) (seen p self db c r v e h).1 refl k m in
    (a, b, d, λ w. omega (arith, w.agree p.copy_id, b, d))
