-- ===== src/Library/LendSteps.antt =====
-- The two invariants together, and the checkouts that keep them.
use mathlib.Core.Path.{subst}
use holibrary_backend.Prelude.{
  Result-cases, ℕ, ◌≤◌, ◌≡◌, refl, ap, ◌∙◌, count_where, Bool, none, some, Result, ok, find_where,
  inl, inr, Option-cases, arith,
}
use holibrary_backend.Domain.{Error, User, Loan, LoanTerms}
use holibrary_backend.Db.{Db, record_audit}
use holibrary_backend.Circulation.Consistency.{IsConsistent, one_row-update}
use holibrary_backend.Circulation.Copies.{has_id}
use holibrary_backend.Circulation.BorrowLaws.{borrowed}
use holibrary_backend.Circulation.Borrow.{BorrowParams, borrow, reservation_head, claimable, lend}
use holibrary_backend.Circulation.BorrowSafety.{borrow-inv, borrow-IsConsistent}
use holibrary_backend.Circulation.Desk.{has_user_id, checkout, lend_and_notify, receipt, params}
use holibrary_backend.Reservations.Uniqueness.{IsQueue, fulfil-IsQueue}
use holibrary_backend.Library.Untouched.{
  Untouched, kept-IsConsistent, kept-IsQueue, queue-Untouched,
}
use holibrary_backend.Db.{email, loan_receipt}

-- The ids of copies are drawn below `next_id`.
unfoldable pub IsDrawn : Db → Type 0
IsDrawn db = (i : ℕ) → db.next_id ≤ i → count_where (has_id i) db.copies ≡ 0

pub kept-IsDrawn :
    (a b : Db)
    → ((i : ℕ) → count_where (has_id i) b.copies ≡ count_where (has_id i) a.copies)
    → a.next_id ≤ b.next_id
    → IsDrawn a
    → IsDrawn b
unfolding IsDrawn
kept-IsDrawn a b c n d = λ i h. c i ∙ d i (omega (arith, n, h))

pub same-IsDrawn : (a b : Db) → b.copies ≡ a.copies → a.next_id ≤ b.next_id → IsDrawn a → IsDrawn b
same-IsDrawn a b c n d = kept-IsDrawn a b (λ i. ap (count_where (has_id i)) c) n d

-- The invariants together.
pub record IsSound (db : Db) : Type 0 where
  pub consistent : IsConsistent db
  pub queue : IsQueue db
  pub drawn : IsDrawn db

pub Untouched-IsSound : (a b : Db) → Untouched a b → IsSound a → IsSound b
Untouched-IsSound a b u v = record {
  consistent = kept-IsConsistent a b u.copies u.loans u.ids v.consistent;
  queue = kept-IsQueue a b u.reservations u.ids v.queue;
  drawn = same-IsDrawn a b u.copies u.ids v.drawn;
}

borrow-IsQueue :
    (p : BorrowParams) (self : Bool) (db : Db) (r : Loan × Db)
    → IsQueue db
    → borrow p self db ≡ ok r
    → IsQueue r.1
unfolding record_audit
borrow-IsQueue p self db r v h =
    let (m, q) = borrow-inv p self db r h in
    let f = fulfil-IsQueue (reservation_head p.copy_id db) p.user_id db v in
    subst (λ (x : Loan × Db). IsQueue x.1) q
      (record {
        one_row = f.one_row;
        fresh = λ i l. f.fresh i (omega (arith, l));
        one_place = f.one_place;
        deadlines = f.deadlines;
      })

borrow-IsDrawn :
    (p : BorrowParams) (self : Bool) (db : Db) (r : Loan × Db)
    → IsDrawn db
    → borrow p self db ≡ ok r
    → IsDrawn r.1
unfolding record_audit
borrow-IsDrawn p self db r d h =
    let (m, q) = borrow-inv p self db r h in
    subst (λ (x : Loan × Db). IsDrawn x.1) q
      (kept-IsDrawn db (borrowed p self db)
        (λ i.
          one_row-update (claimable p.copy_id) lend p.copy_id (λ c h. ground arith) (λ c. refl)
            db.copies i)
        (omega arith) d)

lend-IsSound :
    (p : BorrowParams) (self : Bool) (now : ℕ) (db : Db)
    → IsSound db
    → IsSound (lend_and_notify p self now db).1
unfolding lend_and_notify
lend-IsSound p self now db v = elim (Result-cases (borrow p self db)) [
  | inl (e, h) ↦ rw (h, lend_and_notify) v
  | inr (r, h) ↦
      rw (h, lend_and_notify)
        (Untouched-IsSound r.1 (receipt p.user_id now r.0 r.1)
          (queue-Untouched p.user_id email loan_receipt
            (record { loan_id = some r.0.id; reservation_id = none; token = none }) now r.1)
          (record {
            consistent = borrow-IsConsistent p self db r v.consistent h;
            queue = borrow-IsQueue p self db r v.queue h;
            drawn = borrow-IsDrawn p self db r v.drawn h;
          }))
]

pub checkout-IsSound :
    (tests : User → Result Error LoanTerms) (copy user issuer now : ℕ) (self : Bool) (db : Db)
    → IsSound db
    → IsSound (checkout tests copy user issuer self now db).1
unfolding checkout
checkout-IsSound tests copy user issuer now self db v =
    elim (Option-cases (find_where (has_user_id user) db.users)) [
      | inl n ↦ rw (n, checkout) v
      | inr (u, f) ↦ elim (Result-cases (tests u)) [
        | inl (e, h) ↦ rw (f, checkout) (rw h v)
        | inr (t, h) ↦
            rw (f, checkout) (rw h (lend-IsSound (params copy user issuer now t) self now db v))
      ]
    ]
