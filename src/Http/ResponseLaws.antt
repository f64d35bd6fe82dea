-- ===== src/Http/ResponseLaws.antt =====
-- FromError of internal/transport/http/response/response.go over all business errors.
use holibrary_backend.Prelude.{◌≡◌, ◌≤◌, ◌<◌, ◌⊎◌, inl, inr, refl, arith}
use holibrary_backend.Domain.{
  Error, invalid_book_metadata, invalid_search, saved_search_limit, invalid_credentials,
  unauthenticated, token_invalid, forbidden, member_not_active, must_change_password,
  member_suspended, rate_limited, not_found, copy_not_found, duplicate_isbn, duplicate_accession,
  conflict, copy_not_available, reserved_for_other, copy_not_borrowable, loan_already_closed,
  last_copy_retained, already_reserved, copies_available, loan_limit_reached,
  invalid_member_category, no_category, password_too_weak, invalid_call_number, not_reservable,
  invalid_transition, copy_on_loan, not_configured, invalid,
}
use holibrary_backend.Http.Responses.{from_error}

-- The errors that the services build in place, and no value of internal/domain/errors.go.
pub IsUnnamed : Error → Type 0
IsUnnamed e = (e ≡ not_configured) ⊎ (e ≡ invalid)

-- Every error value of the domain is answered with a status of 400 to 499, and only an
-- error that is none of them with 500.
pub from_error_status :
    (e : Error)
    → (((from_error e).status ≡ 500) × IsUnnamed e)
      ⊎ ((400 ≤ (from_error e).status) × ((from_error e).status < 500))
unfolding from_error IsUnnamed
from_error_status invalid_book_metadata = inr (omega arith, omega arith)
from_error_status invalid_search = inr (omega arith, omega arith)
from_error_status saved_search_limit = inr (omega arith, omega arith)
from_error_status invalid_credentials = inr (omega arith, omega arith)
from_error_status unauthenticated = inr (omega arith, omega arith)
from_error_status token_invalid = inr (omega arith, omega arith)
from_error_status forbidden = inr (omega arith, omega arith)
from_error_status member_not_active = inr (omega arith, omega arith)
from_error_status must_change_password = inr (omega arith, omega arith)
from_error_status member_suspended = inr (omega arith, omega arith)
from_error_status rate_limited = inr (omega arith, omega arith)
from_error_status not_found = inr (omega arith, omega arith)
from_error_status copy_not_found = inr (omega arith, omega arith)
from_error_status duplicate_isbn = inr (omega arith, omega arith)
from_error_status duplicate_accession = inr (omega arith, omega arith)
from_error_status conflict = inr (omega arith, omega arith)
from_error_status copy_not_available = inr (omega arith, omega arith)
from_error_status reserved_for_other = inr (omega arith, omega arith)
from_error_status copy_not_borrowable = inr (omega arith, omega arith)
from_error_status loan_already_closed = inr (omega arith, omega arith)
from_error_status last_copy_retained = inr (omega arith, omega arith)
from_error_status already_reserved = inr (omega arith, omega arith)
from_error_status copies_available = inr (omega arith, omega arith)
from_error_status loan_limit_reached = inr (omega arith, omega arith)
from_error_status invalid_member_category = inr (omega arith, omega arith)
from_error_status no_category = inr (omega arith, omega arith)
from_error_status password_too_weak = inr (omega arith, omega arith)
from_error_status invalid_call_number = inr (omega arith, omega arith)
from_error_status not_reservable = inr (omega arith, omega arith)
from_error_status invalid_transition = inr (omega arith, omega arith)
from_error_status copy_on_loan = inr (omega arith, omega arith)
from_error_status not_configured = inl (refl, inl refl)
from_error_status invalid = inl (refl, inr refl)
