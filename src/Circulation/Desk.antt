-- ===== src/Circulation/Desk.antt =====
-- CirculationService of internal/service/circulation_service.go: Borrow, SelfCheckout and Return.
-- `now` is the service's clock, and the database's in one call. The result of Notifier.Queue is
-- dropped by the source, so a message here is always queued; a failing return hook is only logged.
use holibrary_backend.Prelude.{
  ℕ, ◌+◌, Bool, true, false, Option, none, some, Result, ok, err, if◌then◌else◌, not, find_where,
}
use holibrary_backend.Domain.{
  Error, User, UserStatus, suspended, Loan, LoanTerms, member, role_eq, terms_for, can_borrow,
  not_found, member_not_active, no_category, forbidden, member_suspended, MemberCategory,
}
use holibrary_backend.Db.{Db, Action, email, loan_receipt}
pub use holibrary_backend.Circulation.Copies.{has_user_id}
use holibrary_backend.Circulation.Borrow.{BorrowParams, borrow}
use holibrary_backend.Circulation.Return.{return_loan}
use holibrary_backend.Notifications.Queue.{queue}
use holibrary_backend.Reservations.Service.{on_copy_returned}

abbrev or_else {ℓ} : {A : Type ℓ} → Option A → Error → Result Error A
or_else none e = err e
or_else (some a) e = ok a

-- The terms of a member's category, or ErrNoCategory.
abbrev member_terms : Option MemberCategory → Result Error LoanTerms
member_terms none = err no_category
member_terms (some c) = or_else (terms_for c) no_category

-- The tests of Borrow on the member, in their order.
unfoldable pub entitlement : User → Result Error LoanTerms
unfolding can_borrow
entitlement u = if not (can_borrow u) then err member_not_active else member_terms u.category

abbrev is_suspended : UserStatus → Bool
is_suspended suspended = true
is_suspended _ = false

-- The tests of SelfCheckout on the member, in their order.
unfoldable pub self_entitlement : User → Result Error LoanTerms
unfolding entitlement
self_entitlement u =
    if not (role_eq u.role member)
    then err forbidden
    else if is_suspended u.status
    then err member_suspended
    else entitlement u

abbrev pub params : ℕ → ℕ → ℕ → ℕ → LoanTerms → BorrowParams
params copy user issuer now t = record {
  copy_id = copy;
  user_id = user;
  issued_by = issuer;
  borrowed_at = now;
  due_at = now + t.loan_period;
  max_loans = t.max_concurrent_loans;
}

abbrev pub receipt : ℕ → ℕ → Loan → Db → Db
receipt user now l db =
    queue user email loan_receipt
      (record { loan_id = some l.id; reservation_id = none; token = none }) now db

-- The transaction, and the receipt if it went through.
unfoldable pub lend_and_notify : BorrowParams → Bool → ℕ → Action Loan
lend_and_notify p self_checkout now db = elim (borrow p self_checkout db) [
  | err e ↦ (err e, db)
  | ok (l, db') ↦ (ok l, receipt p.user_id now l db')
]

unfoldable pub checkout : (User → Result Error LoanTerms) → ℕ → ℕ → ℕ → Bool → ℕ → Action Loan
checkout tests copy user issuer self_checkout now db =
    elim (find_where (has_user_id user) db.users) [
      | none ↦ (err not_found, db)
      | some u ↦ elim (tests u) [
        | err e ↦ (err e, db)
        | ok t ↦ lend_and_notify (params copy user issuer now t) self_checkout now db
      ]
    ]

-- CirculationService.Borrow
unfoldable pub borrow_at_desk : ℕ → ℕ → ℕ → ℕ → Action Loan
unfolding checkout
borrow_at_desk copy user librarian now = checkout entitlement copy user librarian false now

-- CirculationService.SelfCheckout
unfoldable pub self_checkout : ℕ → ℕ → ℕ → Action Loan
unfolding checkout
self_checkout copy user now = checkout self_entitlement copy user user true now

-- CirculationService.Return; `hooked` says whether SetReturnHook was called.
unfoldable pub return_at_desk : Bool → ℕ → ℕ → ℕ → Action Loan
return_at_desk hooked i librarian now db = elim (return_loan i librarian now db) [
  | err e ↦ (err e, db)
  | ok (l, db') ↦ (ok l, if hooked then (on_copy_returned l.copy_id now db').1 else db')
]
