-- ===== src/Witnesses/Fixtures.antt =====
-- A small library: two circulating copies of title 10, one reference copy of title 11, two members
-- and a librarian.
use holibrary_backend.Prelude.{
  ◌+◌, ◌*◌, ◌≡◌, refl, false, none, some, [], ◌∷◌, ok, codes, count_where, find_where, first_where,
  update_where, arith,
}
use holibrary_backend.Domain.{
  Profile, User, Copy, Loan, member, librarian, undergraduate, postgraduate, active, circulating,
  reference_only, available, day,
}
use holibrary_backend.Db.{Db, record_audit}
use holibrary_backend.Circulation.Copies.{book_of, count_active_loans}
use holibrary_backend.Circulation.Consistency.{IsConsistent}
use holibrary_backend.Circulation.Borrow.{
  BorrowParams, borrow, reservation_head, claim, retention_refuses, insert_loan, fulfilled,
  new_loan,
}
use holibrary_backend.Circulation.BorrowLaws.{borrowed}
use holibrary_backend.Circulation.BorrowSafety.{borrow-IsConsistent}

abbrev pub copy_one : Copy
copy_one = record {
  id = 1;
  book_id = 10;
  accession_number = codes "A1";
  loan_policy = circulating;
  status = available;
}

abbrev pub copy_two : Copy
copy_two = record {
  id = 2;
  book_id = 10;
  accession_number = codes "A2";
  loan_policy = circulating;
  status = available;
}

abbrev copy_three : Copy
copy_three = record {
  id = 3;
  book_id = 11;
  accession_number = codes "A3";
  loan_policy = reference_only;
  status = available;
}

abbrev pub unnamed : Profile
unnamed = record {
  full_name = [];
  first_name = [];
  last_name = [];
  faculty = [];
  department = [];
  level = [];
  is_synthetic = false;
}

abbrev pub ada : User
ada = record {
  id = 7;
  identifier = codes "19/55HA001";
  email = codes "ada@unilorin.edu.ng";
  profile = unnamed;
  role = member;
  category = some undergraduate;
  status = active;
  password_hash = 70;
  must_change_password = false;
  tokens_invalid_before = 0;
}

abbrev pub bola : User
bola = record {
  id = 8;
  identifier = codes "20/55HA002";
  email = codes "bola@example.com";
  profile = unnamed;
  role = member;
  category = some postgraduate;
  status = active;
  password_hash = 80;
  must_change_password = false;
  tokens_invalid_before = 0;
}

abbrev pub desk : User
desk = record {
  id = 9;
  identifier = codes "STAFF-1";
  email = codes "desk@unilorin.edu.ng";
  profile = unnamed;
  role = librarian;
  category = none;
  status = active;
  password_hash = 90;
  must_change_password = false;
  tokens_invalid_before = 0;
}

abbrev pub library : Db
library = record {
  copies = copy_one ∷ copy_two ∷ copy_three ∷ [];
  loans = [];
  reservations = [];
  users = ada ∷ bola ∷ desk ∷ [];
  refresh_tokens = [];
  password_resets = [];
  outbox = [];
  device_tokens = [];
  invitations = [];
  books = [];
  bookmarks = [];
  saved_searches = [];
  audit = [];
  next_id = 100;
}

pub library-IsConsistent : IsConsistent library
unfolding count_where
library-IsConsistent = record {
  one_row = λ i. ground arith;
  one_loan = λ i. ground arith;
  fresh = λ i h. ground arith;
  agree = λ i. ground arith;
}

-- Ada borrows copy 1 for the undergraduate period.
abbrev pub issue : BorrowParams
issue = record {
  copy_id = 1;
  user_id = 7;
  issued_by = 9;
  borrowed_at = 5;
  due_at = 5 + 14 * day;
  max_loans = 2;
}

abbrev pub issued : Loan × Db
issued = (new_loan issue 100, borrowed issue false library)

pub issue-ok : borrow issue false library ≡ ok issued
unfolding borrow reservation_head claim retention_refuses insert_loan count_active_loans
    record_audit fulfilled book_of count_where find_where first_where update_where
issue-ok = refl

pub issued-IsConsistent : IsConsistent issued.1
issued-IsConsistent = borrow-IsConsistent issue false library issued library-IsConsistent issue-ok
