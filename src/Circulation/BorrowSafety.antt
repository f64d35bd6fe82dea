-- ===== src/Circulation/BorrowSafety.antt =====
-- What a borrow guarantees: circulation_repo.go, `borrow`.
use holibrary_backend.Prelude.{
  ℕ, ◌+◌, ◌==◌, ◌≤◌, ◌<◌, ◌≡◌, refl, sym, ◌∙◌, ◌↔◌, Bool, true, none, some, Result, ok, find_where,
  count_where, arith, if◌then◌else◌, find_where-true, find_where_key, find_where_sharp,
  find_where-none, count_where_only,
}
use mathlib.Core.Path.{subst}
use holibrary_backend.Domain.Retention.{borrowable_count}
use holibrary_backend.Domain.{Error, is_borrowable, Reservation, Copy, Loan, available}
use holibrary_backend.Db.{Db, record_audit}
use holibrary_backend.Circulation.Copies.{
  has_id, count_active_loans, in_stock, on_the_shelf, is_account,
}
use holibrary_backend.Circulation.Consistency.{
  IsConsistent, open_for, lent, one_row-update, lent-update,
}
use holibrary_backend.Circulation.Borrow.{
  BorrowParams, reservation_head, head_allows, claimable, lend, borrow, new_loan,
}
use holibrary_backend.Circulation.BorrowLaws.{
  MayBorrow, borrowed, claimed_copies, borrow-MayBorrow, borrow-borrowed,
}
use holibrary_backend.Circulation.RetentionRule.{retention_refuses-borrowable}

ok-snd : {x y : Loan × Db} → ◌≡◌ {A = Result Error (Loan × Db)} (ok x) (ok y) → x ≡ y
ok-snd h = ground arith

claimed_lent :
    (p : BorrowParams) (db : Db) (m : MayBorrow p db) (j : ℕ)
    → IsConsistent db
    → count_where (lent j) (claimed_copies p.copy_id db)
      ≡ count_where (lent j) db.copies + (if p.copy_id == j then 1 else 0)
claimed_lent p db m j v = ground (
  arith,
  find_where-true (claimable p.copy_id) db.copies m.row m.found,
  lent-update (claimable p.copy_id) lend p.copy_id (λ c h. ground arith) (λ c. refl) db.copies m.row
      j (v.one_row p.copy_id) m.found,
)

borrowed-IsConsistent :
    (p : BorrowParams) (self : Bool) (db : Db)
    → IsConsistent db
    → MayBorrow p db
    → IsConsistent (borrowed p self db)
unfolding record_audit count_where
borrowed-IsConsistent p self db v m = record {
  one_row = λ j. omega (
    arith,
    v.one_row j,
    one_row-update (claimable p.copy_id) lend p.copy_id (λ c h. ground arith) (λ c. refl) db.copies
        j,
  );
  one_loan = λ j. ground (arith, v.one_loan j, v.fresh j);
  fresh = λ j h. ground (arith, v.fresh j);
  agree = λ j. ground (arith, v.agree j, claimed_lent p db m j v);
}

-- A borrow that succeeds keeps the invariant: afterwards the copy is out on loan under exactly one
-- open loan, and every other copy stands as it did.
pub borrow-IsConsistent :
    (p : BorrowParams) (self : Bool) (db : Db) (r : Loan × Db)
    → IsConsistent db
    → borrow p self db ≡ ok r
    → IsConsistent r.1
borrow-IsConsistent p self db r v h =
    let m : MayBorrow p db = borrow-MayBorrow p self db h in
    subst (λ (s : Loan × Db). IsConsistent s.1) (ok-snd (sym (borrow-borrowed p self db m) ∙ h))
      (borrowed-IsConsistent p self db v m)

-- What a borrow needs, in the words of domain.go and of the database before it.
pub record IsLendable (p : BorrowParams) (db : Db) : Type 0 where
  pub head_ok : head_allows p.user_id (reservation_head p.copy_id db) ≡ true
  pub row : Copy
  pub is_row : find_where (has_id p.copy_id) db.copies ≡ some row
  pub is_available : row.status ≡ available
  pub circulates : is_borrowable row.loan_policy ≡ true
  pub spare :
      0
      < borrowable_count
          (count_where (in_stock row.book_id) db.copies)
          (count_where (on_the_shelf row.book_id) db.copies)
  pub below_limit : count_active_loans p.user_id db.loans < p.max_loans
  pub due_later : p.borrowed_at < p.due_at
  pub known_borrower : is_account p.user_id db.users ≡ true
  pub known_issuer : is_account p.issued_by db.users ≡ true

key-of-claimable : (i : ℕ) (c : Copy) → claimable i c ≡ true → has_id i c ≡ true
key-of-claimable i c h = ground arith

pub MayBorrow-IsLendable :
    (p : BorrowParams) (db : Db) → IsConsistent db → MayBorrow p db → IsLendable p db
unfolding is_borrowable
MayBorrow-IsLendable p db v m = record {
  head_ok = m.head_ok;
  row = m.row;
  is_row =
      find_where_key (claimable p.copy_id) (has_id p.copy_id) db.copies m.row
        (key-of-claimable p.copy_id) (v.one_row p.copy_id) m.found;
  is_available = ground (arith, find_where-true (claimable p.copy_id) db.copies m.row m.found);
  circulates = ground (arith, find_where-true (claimable p.copy_id) db.copies m.row m.found);
  spare =
      (retention_refuses-borrowable p.copy_id db.copies m.row (v.one_row p.copy_id) m.found).0
        m.kept;
  below_limit = ground (arith, m.below_limit);
  due_later = ground (arith, m.due_later);
  known_borrower = m.known_borrower;
  known_issuer = m.known_issuer;
}

IsLendable-MayBorrow :
    (p : BorrowParams) (db : Db) → IsConsistent db → IsLendable p db → MayBorrow p db
unfolding is_borrowable
IsLendable-MayBorrow p db v a =
    let found : find_where (claimable p.copy_id) db.copies ≡ some a.row =
      find_where_sharp (claimable p.copy_id) (has_id p.copy_id) db.copies a.row
        (key-of-claimable p.copy_id) a.is_row
        (ground (arith, find_where-true (has_id p.copy_id) db.copies a.row a.is_row)) in
    record {
      head_ok = a.head_ok;
      row = a.row;
      found = found;
      kept =
          (retention_refuses-borrowable p.copy_id db.copies a.row (v.one_row p.copy_id) found).1
            a.spare;
      below_limit = ground (arith, a.below_limit);
      due_later = ground (arith, a.due_later);
      known_borrower = a.known_borrower;
      known_issuer = a.known_issuer;
      not_out = find_where-none (open_for p.copy_id) db.loans (
          v.agree p.copy_id
          ∙ count_where_only (lent p.copy_id) (has_id p.copy_id) db.copies a.row
              (λ c h. ground arith) (v.one_row p.copy_id) a.is_row
              (ground (arith, a.is_available)));
    }

-- On a consistent database a borrow succeeds exactly when the borrower heads the title's queue or
-- nobody waits, the copy stands available and circulates, BorrowableCount of its title is positive,
-- the borrower holds fewer loans than the limit, the loan falls due after it is made, and borrower and
-- issuer are accounts.
pub borrow-ok_iff :
    (p : BorrowParams) (self : Bool) (db : Db)
    → IsConsistent db
    → ((r : Loan × Db) × (borrow p self db ≡ ok r)) ↔ IsLendable p db
borrow-ok_iff p self db v = (
  (λ s. MayBorrow-IsLendable p db v (borrow-MayBorrow p self db s.1)),
  (λ a. (
    (new_loan p db.next_id, borrowed p self db),
    borrow-borrowed p self db (IsLendable-MayBorrow p db v a),
  )),
)

-- A success in terms of its parts: the tests held, and the result is `borrowed`.
pub borrow-inv :
    (p : BorrowParams) (self : Bool) (db : Db) (r : Loan × Db)
    → borrow p self db ≡ ok r
    → MayBorrow p db × ((new_loan p db.next_id, borrowed p self db) ≡ r)
borrow-inv p self db r h =
    let m : MayBorrow p db = borrow-MayBorrow p self db h in
    (m, ok-snd (sym (borrow-borrowed p self db m) ∙ h))

-- After a borrow the member holds one loan more than before and no more than the limit, and the new
-- loan is open, names the copy and the member, and carries the dates that were asked for.
pub borrow_limit :
    (p : BorrowParams) (self : Bool) (db : Db) (r : Loan × Db)
    → borrow p self db ≡ ok r
    → (count_active_loans p.user_id r.1.loans ≡ count_active_loans p.user_id db.loans + 1)
      × (count_active_loans p.user_id r.1.loans ≤ p.max_loans)
      × (r.0.copy_id ≡ p.copy_id)
      × (r.0.user_id ≡ p.user_id)
      × (r.0.returned_at ≡ none)
      × (r.0.borrowed_at ≡ p.borrowed_at)
      × (r.0.due_at ≡ p.due_at)
unfolding count_active_loans count_where record_audit
borrow_limit p self db r h =
    subst
      (λ (s : Loan × Db).
        (count_active_loans p.user_id s.1.loans ≡ count_active_loans p.user_id db.loans + 1)
        × (count_active_loans p.user_id s.1.loans ≤ p.max_loans)
        × (s.0.copy_id ≡ p.copy_id)
        × (s.0.user_id ≡ p.user_id)
        × (s.0.returned_at ≡ none)
        × (s.0.borrowed_at ≡ p.borrowed_at)
        × (s.0.due_at ≡ p.due_at))
      (borrow-inv p self db r h).1 (ground (arith, (borrow-inv p self db r h).0.below_limit))

-- Only the head of the queue borrows: if a borrow succeeds while somebody waits for the title, the
-- one who has waited longest is the borrower.
borrow_priority :
    (p : BorrowParams) (self : Bool) (db : Db) (r : Loan × Db) (head : Reservation)
    → borrow p self db ≡ ok r
    → reservation_head p.copy_id db ≡ some head
    → head.user_id ≡ p.user_id
borrow_priority p self db r head h e = ground (arith, (borrow-inv p self db r h).0.head_ok)
