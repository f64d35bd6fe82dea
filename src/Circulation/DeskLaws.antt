-- ===== src/Circulation/DeskLaws.antt =====
-- What the circulation service adds to its transactions: circulation_service.go.
use mathlib.Core.Path.{subst}
use holibrary_backend.Prelude.{
  ℕ, ◌+◌, ◌≤◌, ◌≡◌, refl, sym, inl, inr, Bool, true, false, some, Result, ok, err, find_where,
  Option-cases, arith,
}
use holibrary_backend.Domain.{
  Error, User, active, Loan, LoanTerms, member, terms_for, MemberCategory,
}
use holibrary_backend.Db.{Db}
use holibrary_backend.Circulation.Copies.{count_active_loans}
use holibrary_backend.Circulation.Borrow.{borrow}
use holibrary_backend.Circulation.BorrowSafety.{borrow_limit}
use holibrary_backend.Circulation.Return.{return_loan}
use holibrary_backend.Notifications.Queue.{queue}
use holibrary_backend.Reservations.Store.{promote_next}
use holibrary_backend.Reservations.Service.{on_copy_returned}
use holibrary_backend.Circulation.Desk.{
  has_user_id, entitlement, self_entitlement, params, receipt, lend_and_notify, checkout,
  borrow_at_desk, self_checkout, return_at_desk,
}

-- A checkout that succeeded: the member, the terms, and the transaction behind it.
checkout-inv :
    (tests : User → Result Error LoanTerms) (copy user issuer now : ℕ) (self : Bool) (db : Db)
    (l : Loan)
    → (checkout tests copy user issuer self now db).0 ≡ ok l
    → (u : User) × (t : LoanTerms) × (db1 : Db) × (find_where (has_user_id user) db.users ≡ some u)
      × (tests u ≡ ok t)
      × (borrow (params copy user issuer now t) self db ≡ ok (l, db1))
      × ((checkout tests copy user issuer self now db).1 ≡ receipt user now l db1)
unfolding checkout lend_and_notify
checkout-inv tests copy user issuer now self db l h =
    elim (Option-cases (find_where (has_user_id user) db.users)) [
      | inl n ↦ absurd (ground arith)
      | inr (u, e) ↦ with_user u e (tests u) refl
    ]
  where
    with_terms :
        (u : User)
        → find_where (has_user_id user) db.users ≡ some u
        → (t : LoanTerms) → tests u ≡ ok t
        → (x : Result Error (Loan × Db)) → borrow (params copy user issuer now t) self db ≡ x
        → (u : User) × (t : LoanTerms) × (db1 : Db) × (find_where (has_user_id user) db.users
            ≡ some u)
          × (tests u ≡ ok t)
          × (borrow (params copy user issuer now t) self db ≡ ok (l, db1))
          × ((checkout tests copy user issuer self now db).1 ≡ receipt user now l db1)
    with_terms u e t f (err x) g = absurd (ground arith)
    with_terms u e t f (ok (l', db1)) g = (u, t, db1, e, f, ground arith, ground arith)

    with_user :
        (u : User)
        → find_where (has_user_id user) db.users ≡ some u
        → (x : Result Error LoanTerms) → tests u ≡ x
        → (u : User) × (t : LoanTerms) × (db1 : Db) × (find_where (has_user_id user) db.users
            ≡ some u)
          × (tests u ≡ ok t)
          × (borrow (params copy user issuer now t) self db ≡ ok (l, db1))
          × ((checkout tests copy user issuer self now db).1 ≡ receipt user now l db1)
    with_user u e (err x) f = absurd (ground arith)
    with_user u e (ok t) f =
        with_terms u e t f (borrow (params copy user issuer now t) self db) refl

entitlement-inv :
    (u : User) (t : LoanTerms)
    → entitlement u ≡ ok t
    → (u.status ≡ active) × ((k : MemberCategory) × (u.category ≡ some k) × (terms_for k ≡ some t))
unfolding entitlement terms_for
entitlement-inv u t h = elim (Option-cases u.category) [
  | inl n ↦ absurd (ground arith)
  | inr (k, e) ↦ (ground arith, (k, e, ground arith))
]

-- What the terms that a service call lends under make of the loan.
abbrev pub LentUnder : MemberCategory → LoanTerms → ℕ → ℕ → Loan → Db → Type 0
LentUnder k t user now l db =
    (terms_for k ≡ some t)
    × (l.user_id ≡ user)
    × (l.borrowed_at ≡ now)
    × (l.due_at ≡ now + t.loan_period)
    × (count_active_loans user db.loans ≤ t.max_concurrent_loans)

lent_under :
    (copy user issuer now : ℕ) (self : Bool) (db db1 : Db) (l : Loan) (k : MemberCategory)
    (t : LoanTerms)
    → terms_for k ≡ some t
    → borrow (params copy user issuer now t) self db ≡ ok (l, db1)
    → LentUnder k t user now l (receipt user now l db1)
unfolding queue
lent_under copy user issuer now self db db1 l k t e h =
    let b = borrow_limit (params copy user issuer now t) self db (l, db1) h in
    (e, b.3, b.5, b.6, b.1)

-- The desk lends only to an account that is active and has a category, for that category's period
-- from now, and never past its limit of open loans.
pub borrow_at_desk_terms :
    (copy user librarian now : ℕ) (db : Db) (l : Loan)
    → (borrow_at_desk copy user librarian now db).0 ≡ ok l
    → (u : User) × (k : MemberCategory) × (t : LoanTerms) × (find_where (has_user_id user) db.users
        ≡ some u)
      × (u.status ≡ active)
      × (u.category ≡ some k)
      × LentUnder k t user now l (borrow_at_desk copy user librarian now db).1
unfolding borrow_at_desk
borrow_at_desk_terms copy user librarian now db l h =
    let (u, t, db1, e, f, g, q) = checkout-inv entitlement copy user librarian now false db l h in
    let (a, c) = entitlement-inv u t f in
    (
      u,
      c.0,
      t,
      e,
      a,
      c.1,
      subst (LentUnder c.0 t user now l) (sym q)
          (lent_under copy user librarian now false db db1 l c.0 t c.2 g),
    )

self_entitlement-inv :
    (u : User) (t : LoanTerms)
    → self_entitlement u ≡ ok t
    → (u.role ≡ member) × (entitlement u ≡ ok t)
unfolding self_entitlement
self_entitlement-inv u t h = ground arith

-- Self-checkout lends to active accounts in the role of member alone, under the same terms.
pub self_checkout_terms :
    (copy user now : ℕ) (db : Db) (l : Loan)
    → (self_checkout copy user now db).0 ≡ ok l
    → (u : User) × (k : MemberCategory) × (t : LoanTerms) × (find_where (has_user_id user) db.users
        ≡ some u)
      × (u.role ≡ member)
      × (u.status ≡ active)
      × (u.category ≡ some k)
      × LentUnder k t user now l (self_checkout copy user now db).1
unfolding self_checkout
self_checkout_terms copy user now db l h =
    let (u, t, db1, e, f, g, q) = checkout-inv self_entitlement copy user user now true db l h in
    let (r, f') = self_entitlement-inv u t f in
    let (a, c) = entitlement-inv u t f' in
    (
      u,
      c.0,
      t,
      e,
      r,
      a,
      c.1,
      subst (LentUnder c.0 t user now l) (sym q)
          (lent_under copy user user now true db db1 l c.0 t c.2 g),
    )

hook_keeps :
    (copy now : ℕ) (db : Db)
    → ((on_copy_returned copy now db).1.loans ≡ db.loans)
      × ((on_copy_returned copy now db).1.copies ≡ db.copies)
unfolding on_copy_returned promote_next queue
hook_keeps copy now db = ground arith

-- Advancing the queue never undoes or changes a return: with the hook and without it the call answers
-- the same and leaves the same loans and copies.
pub return_at_desk_hook :
    (i librarian now : ℕ) (db : Db)
    → let (r, with_hook) = return_at_desk true i librarian now db in
      let (s, without) = return_at_desk false i librarian now db in
      (r ≡ s) × (with_hook.loans ≡ without.loans) × (with_hook.copies ≡ without.copies)
unfolding return_at_desk
return_at_desk_hook i librarian now db = go (return_loan i librarian now db) refl
  where
    go :
        (x : Result Error (Loan × Db))
        → return_loan i librarian now db ≡ x
        → let (r, with_hook) = return_at_desk true i librarian now db in
          let (s, without) = return_at_desk false i librarian now db in
          (r ≡ s) × (with_hook.loans ≡ without.loans) × (with_hook.copies ≡ without.copies)
    go (err e) h = ground arith
    go (ok (l, db1)) h = ground (arith, hook_keeps l.copy_id now db1)
