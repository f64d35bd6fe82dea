-- ===== src/Domain/Errors.antt =====
-- internal/domain/errors.go: the business errors, one constructor for each error value. The errors
-- that the source builds in place with errors.New or fmt.Errorf are `not_configured` and `invalid`; an
-- error of the database that `translate` passes on as it is counts as `invalid` too.

pub data Error : Type 0 where
  invalid_credentials unauthenticated forbidden password_too_weak token_invalid : Error
  must_change_password rate_limited member_suspended : Error
  not_found conflict : Error
  invalid_book_metadata invalid_search saved_search_limit duplicate_accession duplicate_isbn : Error
  invalid_call_number : Error
  copy_not_found copy_not_available copy_not_borrowable loan_limit_reached member_not_active : Error
  loan_already_closed last_copy_retained invalid_member_category no_category reserved_for_other :
      Error
  already_reserved not_reservable copies_available : Error
  invalid_transition copy_on_loan : Error
  not_configured invalid : Error
