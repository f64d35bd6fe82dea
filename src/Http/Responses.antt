-- ===== src/Http/Responses.antt =====
-- errorMap and FromError of internal/transport/http/response/response.go: the status and the code of the
-- answer. The message for people, and the log line of an unknown error, are left out.
use Prim.Native.String.{String}
use holibrary_backend.Prelude.{ℕ}
use holibrary_backend.Domain.{
  Error, invalid_book_metadata, invalid_search, saved_search_limit, invalid_credentials,
  unauthenticated, token_invalid, forbidden, member_not_active, must_change_password,
  member_suspended, rate_limited, not_found, copy_not_found, duplicate_isbn, duplicate_accession,
  conflict, copy_not_available, reserved_for_other, copy_not_borrowable, loan_already_closed,
  last_copy_retained, already_reserved, copies_available, loan_limit_reached,
  invalid_member_category, no_category, password_too_weak, invalid_call_number, not_reservable,
  invalid_transition, copy_on_loan, not_configured, invalid,
}

pub record Answer : Type 0 where
  pub status : ℕ
  pub code : String

abbrev answer : ℕ → String → Answer
answer status code = record { status = status; code = code }

-- The last two are errors that no entry of the map matches.
unfoldable pub from_error : Error → Answer
from_error invalid_book_metadata = answer 400 "VALIDATION_FAILED"
from_error invalid_search = answer 400 "VALIDATION_FAILED"
from_error saved_search_limit = answer 409 "SAVED_SEARCH_LIMIT_REACHED"
from_error invalid_credentials = answer 401 "INVALID_CREDENTIALS"
from_error unauthenticated = answer 401 "UNAUTHENTICATED"
from_error token_invalid = answer 401 "TOKEN_INVALID"
from_error forbidden = answer 403 "FORBIDDEN"
from_error member_not_active = answer 403 "MEMBER_NOT_ACTIVE"
from_error must_change_password = answer 403 "MUST_CHANGE_PASSWORD"
from_error member_suspended = answer 403 "MEMBER_SUSPENDED"
from_error rate_limited = answer 429 "RATE_LIMITED"
from_error not_found = answer 404 "NOT_FOUND"
from_error copy_not_found = answer 404 "COPY_NOT_FOUND"
from_error duplicate_isbn = answer 409 "DUPLICATE_ISBN"
from_error duplicate_accession = answer 409 "DUPLICATE_ACCESSION"
from_error conflict = answer 409 "CONFLICT"
from_error copy_not_available = answer 409 "COPY_NOT_AVAILABLE"
from_error reserved_for_other = answer 409 "RESERVED_FOR_ANOTHER_MEMBER"
from_error copy_not_borrowable = answer 422 "COPY_NOT_BORROWABLE"
from_error loan_already_closed = answer 409 "LOAN_ALREADY_CLOSED"
from_error last_copy_retained = answer 409 "LAST_COPY_RETAINED"
from_error already_reserved = answer 409 "ALREADY_RESERVED"
from_error copies_available = answer 409 "COPIES_AVAILABLE"
from_error loan_limit_reached = answer 409 "LOAN_LIMIT_REACHED"
from_error invalid_member_category = answer 400 "INVALID_MEMBER_CATEGORY"
from_error no_category = answer 422 "NO_CATEGORY"
from_error password_too_weak = answer 422 "PASSWORD_TOO_WEAK"
from_error invalid_call_number = answer 422 "INVALID_CALL_NUMBER"
from_error not_reservable = answer 422 "NOT_RESERVABLE"
from_error invalid_transition = answer 422 "INVALID_STATUS_CHANGE"
from_error copy_on_loan = answer 409 "COPY_ON_LOAN"
from_error not_configured = answer 500 "INTERNAL"
from_error invalid = answer 500 "INTERNAL"
