-- ===== src/Domain/Types.antt =====
-- The enumerations and row types of internal/domain/domain.go. An id is a number and uuid.Nil is 0;
-- an instant is a number of nanoseconds. Fields that are joined for display only are left out.
use holibrary_backend.Prelude.{
  List, ℕ, ◌*◌, Bool, true, false, ◌||◌, ◌&&◌, Option, none, some, leb, if◌then◌else◌,
}

-- `no_role` is any other text, as a request may carry it.
pub data Role : Type 0 where
  member librarian admin no_role : Role

abbrev pub role_eq : Role → Role → Bool
role_eq member member = true
role_eq librarian librarian = true
role_eq admin admin = true
role_eq no_role no_role = true
role_eq _ _ = false

unfoldable pub can_manage_library : Role → Bool
can_manage_library r = role_eq r librarian || role_eq r admin

-- `no_such_category` is any other text.
pub data MemberCategory : Type 0 where
  undergraduate postgraduate staff no_such_category : MemberCategory

abbrev pub category_eq : MemberCategory → MemberCategory → Bool
category_eq undergraduate undergraduate = true
category_eq postgraduate postgraduate = true
category_eq staff staff = true
category_eq no_such_category no_such_category = true
category_eq _ _ = false

pub data LoanPolicy : Type 0 where
  circulating reference_only on_display restricted : LoanPolicy

unfoldable pub is_borrowable : LoanPolicy → Bool
is_borrowable circulating = true
is_borrowable _ = false

unfoldable is_reservable : LoanPolicy → Bool
is_reservable circulating = true
is_reservable on_display = true
is_reservable _ = false

pub data CopyStatus : Type 0 where
  available on_loan lost damaged withdrawn : CopyStatus

abbrev pub status_eq : CopyStatus → CopyStatus → Bool
status_eq available available = true
status_eq on_loan on_loan = true
status_eq lost lost = true
status_eq damaged damaged = true
status_eq withdrawn withdrawn = true
status_eq _ _ = false

pub data UserStatus : Type 0 where
  active suspended inactive : UserStatus

abbrev pub is_active : UserStatus → Bool
is_active active = true
is_active _ = false

pub record LoanTerms : Type 0 where
  pub max_concurrent_loans : ℕ
  pub loan_period : ℕ

abbrev pub second : ℕ
second = 1_000_000_000

abbrev pub hour : ℕ
hour = 3600 * second

abbrev pub day : ℕ
day = 24 * hour

unfoldable pub terms_for : MemberCategory → Option LoanTerms
terms_for undergraduate = some (record { max_concurrent_loans = 2; loan_period = 14 * day })
terms_for postgraduate = some (record { max_concurrent_loans = 4; loan_period = 21 * day })
terms_for staff = some (record { max_concurrent_loans = 6; loan_period = 28 * day })
terms_for no_such_category = none

pub data Wing : Type 0 where
  south north unknown : Wing

unfoldable wing_for : ℕ → Wing
wing_for c =
    if leb b'A' c && leb c b'J' then south else if leb b'K' c && leb c b'Z' then north else unknown

-- What an account carries beside what some code decides by.
pub record Profile : Type 0 where
  pub full_name : List ℕ
  pub first_name : List ℕ
  pub last_name : List ℕ
  pub faculty : List ℕ
  pub department : List ℕ
  pub level : List ℕ
  pub is_synthetic : Bool

pub record User : Type 0 where
  pub id : ℕ
  pub identifier : List ℕ
  pub email : List ℕ
  pub profile : Profile
  pub role : Role
  pub category : Option MemberCategory
  pub status : UserStatus
  pub password_hash : ℕ
  pub must_change_password : Bool
  pub tokens_invalid_before : ℕ

unfoldable pub can_borrow : User → Bool
can_borrow u = is_active u.status

pub record Copy : Type 0 where
  pub id : ℕ
  pub book_id : ℕ
  pub accession_number : List ℕ
  pub loan_policy : LoanPolicy
  pub status : CopyStatus

pub record Loan : Type 0 where
  pub id : ℕ
  pub copy_id : ℕ
  pub user_id : ℕ
  pub borrowed_at : ℕ
  pub due_at : ℕ
  pub returned_at : Option ℕ
  pub issued_by : ℕ
  pub returned_to : Option ℕ

pub data ReservationStatus : Type 0 where
  pending ready fulfilled cancelled expired : ReservationStatus

pub record Reservation : Type 0 where
  pub id : ℕ
  pub book_id : ℕ
  pub user_id : ℕ
  pub status : ReservationStatus
  pub created_at : ℕ
  pub notified_at : Option ℕ
  pub expires_at : Option ℕ
