-- ===== src/Circulation/Copies.antt =====
-- The row tests and counts that the statements of circulation_repo.go and reservation_repo.go share.
use holibrary_backend.Prelude.{
  ℕ, ◌==◌, ltb, Bool, true, false, ◌&&◌, ◌||◌, Option, none, some, List, not, is_some, count_where,
  find_where,
}
use holibrary_backend.Domain.{
  Copy, LoanPolicy, circulating, available, on_loan, status_eq, Loan, Reservation,
  ReservationStatus, User,
}

abbrev pub has_id : ℕ → Copy → Bool
has_id i c = c.id == i

abbrev pub policy_circulating : LoanPolicy → Bool
policy_circulating circulating = true
policy_circulating _ = false

abbrev pub is_open : Loan → Bool
is_open l = not (is_some l.returned_at)

-- SELECT book_id FROM copies WHERE id = i
unfoldable pub book_of : ℕ → List Copy → Option ℕ
book_of i copies = elim (find_where (has_id i) copies) [ none ↦ none | some c ↦ some c.book_id ]

-- loan_policy = 'circulating' AND status IN ('available','on_loan')
abbrev pub in_stock : ℕ → Copy → Bool
in_stock b c =
    c.book_id == b
    && policy_circulating c.loan_policy
    && (status_eq c.status available || status_eq c.status on_loan)

-- loan_policy = 'circulating' AND status = 'available'
abbrev pub on_the_shelf : ℕ → Copy → Bool
on_the_shelf b c =
    c.book_id == b && policy_circulating c.loan_policy && status_eq c.status available

-- status IN ('pending', 'ready')
abbrev pub is_waiting : ReservationStatus → Bool
is_waiting ReservationStatus.pending = true
is_waiting ReservationStatus.ready = true
is_waiting _ = false

-- ORDER BY created_at, id
abbrev pub earlier : Reservation → Reservation → Bool
earlier r s = ltb r.created_at s.created_at || (r.created_at == s.created_at && ltb r.id s.id)

-- SELECT count(*) FROM loans WHERE user_id = $1 AND returned_at IS NULL
unfoldable pub count_active_loans : ℕ → List Loan → ℕ
count_active_loans user loans = count_where (λ l. l.user_id == user && is_open l) loans

abbrev pub has_user_id : ℕ → User → Bool
has_user_id i u = u.id == i

-- The foreign keys of loans on users.
abbrev pub is_account : ℕ → List User → Bool
is_account i users = is_some (find_where (has_user_id i) users)
