-- ===== src/Circulation/BorrowLaws.antt =====
-- What a successful borrow says of the database before and after it, taken apart once so that the
-- other proofs keep `borrow` shut.
use holibrary_backend.Prelude.{
  ℕ, ◌+◌, leb, ltb, ◌≡◌, inl, inr, Bool, true, false, none, some, List, ◌∷◌, ok, find_where,
  update_where, Option-cases, arith,
}
use holibrary_backend.Domain.{Copy, Loan}
use holibrary_backend.Db.{Db, record_audit}
use holibrary_backend.Circulation.Copies.{count_active_loans, is_account}
use holibrary_backend.Circulation.Consistency.{open_for}
use holibrary_backend.Circulation.Borrow.{
  BorrowParams, reservation_head, head_allows, claimable, lend, claim, retention_refuses, new_loan,
  insert_loan, fulfil_head, borrow, checkout_action,
}

abbrev pub claimed_copies : ℕ → Db → List Copy
claimed_copies i db = update_where (claimable i) lend db.copies

-- The tests that a borrow passes, in the order of the code.
pub record MayBorrow (p : BorrowParams) (db : Db) : Type 0 where
  pub head_ok : head_allows p.user_id (reservation_head p.copy_id db) ≡ true
  pub row : Copy
  pub found : find_where (claimable p.copy_id) db.copies ≡ some row
  pub kept : retention_refuses p.copy_id (claimed_copies p.copy_id db) ≡ false
  pub below_limit : leb p.max_loans (count_active_loans p.user_id db.loans) ≡ false
  pub not_out : find_where (open_for p.copy_id) db.loans ≡ none
  pub due_later : ltb p.borrowed_at p.due_at ≡ true
  pub known_borrower : is_account p.user_id db.users ≡ true
  pub known_issuer : is_account p.issued_by db.users ≡ true

-- The database after it.
abbrev pub borrowed : BorrowParams → Bool → Db → Db
borrowed p self_checkout db = record_audit p.issued_by (checkout_action self_checkout) db.next_id (
    fulfil_head (reservation_head p.copy_id db) p.user_id (record db {
      copies = claimed_copies p.copy_id db;
      loans = new_loan p db.next_id ∷ db.loans;
      next_id = db.next_id + 1;
    }))

pub borrow-MayBorrow :
    (p : BorrowParams) (self : Bool) (db : Db) {r : Loan × Db}
    → borrow p self db ≡ ok r
    → MayBorrow p db
unfolding borrow claim insert_loan
borrow-MayBorrow p self db h = elim (Option-cases (find_where (claimable p.copy_id) db.copies)) [
  | inl e ↦ absurd (ground arith)
  | inr (c, e) ↦ record {
    head_ok = ground arith;
    row = c;
    found = e;
    kept = ground arith;
    below_limit = ground arith;
    not_out = ground arith;
    due_later = ground arith;
    known_borrower = ground arith;
    known_issuer = ground arith;
  }
]

pub borrow-borrowed :
    (p : BorrowParams) (self : Bool) (db : Db)
    → MayBorrow p db
    → borrow p self db ≡ ok (new_loan p db.next_id, borrowed p self db)
unfolding borrow claim insert_loan
borrow-borrowed p self db m = ground arith
