-- ===== src/Circulation/Borrow.antt =====
-- CirculationRepo.borrow and explainUnclaimableCopy of internal/repository/postgres/
-- circulation_repo.go. `Borrow` is `borrow` with false and `SelfCheckout` with true. Row locks make
-- competing calls wait, so a call is one step here; the Race module takes a look at two of them.
use holibrary_backend.Prelude.{
  ℕ, ◌+◌, ◌==◌, leb, ltb, Bool, true, false, ◌&&◌, Option, none, some, List, ◌∷◌, ok, err,
  if◌then◌else◌, not, count_where, find_where, first_where, update_where,
}
use holibrary_backend.Domain.{
  Error, Copy, Loan, Reservation, ReservationStatus, available, on_loan, status_eq, is_borrowable,
  copy_not_found, copy_not_borrowable, copy_not_available, reserved_for_other, last_copy_retained,
  loan_limit_reached, invalid, conflict,
}
use holibrary_backend.Db.{Db, Tx, AuditAction, loan_issued, member_self_checkout, record_audit}
use holibrary_backend.Db.Transaction.{◌>>=◌, ◌>>◌, pure, guard, read, write}
use holibrary_backend.Circulation.Copies.{
  has_id, policy_circulating, is_open, book_of, in_stock, on_the_shelf, is_waiting, earlier,
  count_active_loans, is_account,
}

pub record BorrowParams : Type 0 where
  pub copy_id : ℕ
  pub user_id : ℕ
  pub issued_by : ℕ
  pub borrowed_at : ℕ
  pub due_at : ℕ
  pub max_loans : ℕ

-- The reservation at the front of the queue for the title of a copy.
unfoldable pub reservation_head : ℕ → Db → Option Reservation
reservation_head i db = elim (book_of i db.copies) [
  | none ↦ none
  | some b ↦ first_where (λ r. r.book_id == b && is_waiting r.status) earlier db.reservations
]

abbrev pub head_allows : ℕ → Option Reservation → Bool
head_allows user none = true
head_allows user (some r) = r.user_id == user

abbrev pub claimable : ℕ → Copy → Bool
claimable i c = c.id == i && status_eq c.status available && policy_circulating c.loan_policy

abbrev pub lend : Copy → Copy
lend c = record c { status = on_loan }

unfoldable pub explain_unclaimable_copy : ℕ → Db → Error
explain_unclaimable_copy i db = elim (find_where (has_id i) db.copies) [
  | none ↦ copy_not_found
  | some c ↦ if not (is_borrowable c.loan_policy) then copy_not_borrowable else copy_not_available
]

-- Step 1: the compare-and-swap on the copy.
unfoldable pub claim : ℕ → Tx (Unit {0})
claim i db = elim (find_where (claimable i) db.copies) [
  | none ↦ err (explain_unclaimable_copy i db)
  | some _ ↦ ok (tt, record db { copies = update_where (claimable i) lend db.copies })
]

-- Step 2: the retention test over the copies as the transaction sees them after its claim.
unfoldable pub retention_refuses : ℕ → List Copy → Bool
retention_refuses i copies = elim (book_of i copies) [
  | none ↦ false
  | some b ↦ leb 2 (count_where (in_stock b) copies) && count_where (on_the_shelf b) copies == 0
]

abbrev pub new_loan : BorrowParams → ℕ → Loan
new_loan p i = record {
  id = i;
  copy_id = p.copy_id;
  user_id = p.user_id;
  borrowed_at = p.borrowed_at;
  due_at = p.due_at;
  returned_at = none;
  issued_by = p.issued_by;
  returned_to = none;
}

-- Step 4: the INSERT. The database tests the CHECK on the dates, then the index
-- one_active_loan_per_copy, and at the end of the statement the foreign keys on users.
unfoldable pub insert_loan : BorrowParams → Tx Loan
insert_loan p db =
    if not (ltb p.borrowed_at p.due_at)
    then err invalid
    else elim (find_where (λ l. l.copy_id == p.copy_id && is_open l) db.loans) [
      | some _ ↦ err copy_not_available
      | none ↦
          if not (is_account p.user_id db.users && is_account p.issued_by db.users)
          then err conflict
          else ok (
            new_loan p db.next_id,
            record db { loans = new_loan p db.next_id ∷ db.loans; next_id = db.next_id + 1 },
          )
    ]

abbrev pub is_own_waiting : Reservation → ℕ → Reservation → Bool
is_own_waiting head user r = r.id == head.id && r.user_id == user && is_waiting r.status

unfoldable pub fulfilled : Option Reservation → ℕ → List Reservation → List Reservation
fulfilled none user rs = rs
fulfilled (some head) user rs =
    update_where (is_own_waiting head user) (λ r. record r { status = ReservationStatus.fulfilled })
      rs

abbrev pub fulfil_head : Option Reservation → ℕ → Db → Db
fulfil_head head user db = record db { reservations = fulfilled head user db.reservations }

abbrev pub checkout_action : Bool → AuditAction
checkout_action self_checkout = if self_checkout then member_self_checkout else loan_issued

unfoldable pub borrow : BorrowParams → Bool → Tx Loan
borrow p self_checkout = do
  head ← read (reservation_head p.copy_id)
  guard (head_allows p.user_id head) reserved_for_other
  claim p.copy_id
  refused ← read (λ db. retention_refuses p.copy_id db.copies)
  guard (not refused) last_copy_retained
  active ← read (λ db. count_active_loans p.user_id db.loans)
  guard (not (leb p.max_loans active)) loan_limit_reached
  l ← insert_loan p
  write (fulfil_head head p.user_id)
  write (record_audit p.issued_by (checkout_action self_checkout) l.id)
  pure l
