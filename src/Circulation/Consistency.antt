-- ===== src/Circulation/Consistency.antt =====
-- The invariant that ties the copies of the catalogue to the loans of circulation_repo.go, and how
-- one claim and one release of a copy keep it.
use holibrary_backend.Prelude.{
  ℕ, ◌+◌, ◌==◌, ◌≤◌, ◌≡◌, Bool, true, ◌&&◌, some, List, find_where, update_where, count_where,
  arith, ==_iff, if◌then◌else◌, count-update_one, count-update_keep, count_where_mono,
}
use holibrary_backend.Domain.{Copy, Loan, on_loan, status_eq}
use holibrary_backend.Db.{Db}
use holibrary_backend.Circulation.Copies.{has_id, is_open}

abbrev pub has_loan_id : ℕ → Loan → Bool
has_loan_id i l = l.id == i

-- An open loan of copy `i`, and copy `i` out on loan.
abbrev pub open_for : ℕ → Loan → Bool
open_for i l = l.copy_id == i && is_open l

abbrev pub lent : ℕ → Copy → Bool
lent i c = c.id == i && status_eq c.status on_loan

-- Primary keys are unique and drawn below `next_id`, and a copy is out on loan exactly when one open
-- loan names it.
pub record IsConsistent (db : Db) : Type 0 where
  pub one_row : (i : ℕ) → count_where (has_id i) db.copies ≤ 1
  pub one_loan : (i : ℕ) → count_where (has_loan_id i) db.loans ≤ 1
  pub fresh : (i : ℕ) → db.next_id ≤ i → count_where (has_loan_id i) db.loans ≡ 0
  pub agree : (i : ℕ) → count_where (open_for i) db.loans ≡ count_where (lent i) db.copies

module _ (p : Copy → Bool) (f : Copy → Copy) (i : ℕ) (sel : (c : Copy) → p c ≡ true → c.id ≡ i)
    (same : (c : Copy) → (f c).id ≡ c.id) where
  matches-le-one :
      (copies : List Copy) → count_where (has_id i) copies ≤ 1 → count_where p copies ≤ 1
  matches-le-one copies h =
      omega (arith, count_where_mono p (has_id i) copies (λ c t. (==_iff c.id i).1 (sel c t)))

  -- A row update that keeps the id keeps the keys unique.
  pub one_row-update :
      (copies : List Copy) (j : ℕ)
      → count_where (has_id j) (update_where p f copies) ≡ count_where (has_id j) copies
  one_row-update copies j = count-update_keep p (has_id j) f copies (λ c _. ap_id c)
    where
      ap_id : (c : Copy) → has_id j (f c) ≡ has_id j c
      ap_id c = ground (arith, same c)

  -- The count of copies out on loan under an update of the one row that matches.
  pub lent-update :
      (copies : List Copy) (c : Copy) (j : ℕ)
      → count_where (has_id i) copies ≤ 1
      → find_where p copies ≡ some c
      → count_where (lent j) (update_where p f copies) + (if lent j c then 1 else 0)
        ≡ count_where (lent j) copies + (if lent j (f c) then 1 else 0)
  lent-update copies c j h e = count-update_one p (lent j) f copies c (matches-le-one copies h) e
