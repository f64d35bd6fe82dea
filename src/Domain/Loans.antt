-- ===== src/Domain/Loans.antt =====
-- The methods of Loan in internal/domain/domain.go. The float quotient of DaysOverdueAt is exact here.
use holibrary_backend.Prelude.{ℕ, ◌-◌, ◌/◌, Bool, ◌&&◌, ltb, not, is_some, if◌then◌else◌}
use holibrary_backend.Domain.Types.{Loan, day}

unfoldable pub is_returned : Loan → Bool
is_returned l = is_some l.returned_at

unfoldable pub is_overdue_at : Loan → ℕ → Bool
is_overdue_at l now = not (is_some l.returned_at) && ltb l.due_at now

unfoldable days_overdue_at : Loan → ℕ → ℕ
unfolding is_overdue_at
days_overdue_at l now = if not (is_overdue_at l now) then 0 else (now - l.due_at) / day
