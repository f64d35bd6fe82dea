-- ===== src/Members/Import.antt =====
-- ImportCSV of internal/service/member_service.go. What encoding/csv makes of the file is an argument:
-- its header and, row by row, the cells of a record or the refusal of a malformed one, with the line.
use holibrary_backend.Prelude.{
  ℕ, ◌+◌, Bool, true, false, ◌||◌, not, Option, some, List, [], ◌∷◌, Result, ok, err, if◌then◌else◌,
  is_some, find_where, codes, to_lower, trim_space, text_eq,
}
use holibrary_backend.Domain.{
  Error, User, Role, member, MemberCategory, undergraduate, postgraduate, staff, no_such_category,
  conflict,
}
use holibrary_backend.Db.{Db}
use holibrary_backend.Members.Register.{NewMember, Draw, is_blank, is_valid_member, create_member}
use holibrary_backend.Members.Columns.{
  Field, identifier, email, full_name, first_name, last_name, faculty, department, level, category,
  value_of, column_index,
}

pub data CsvRow : Type 0 where
  malformed : ℕ → CsvRow
  cells : ℕ → List (List ℕ) → CsvRow

-- `waiting` is the empty status that a row of a dry run has until the end.
pub data RowStatus : Type 0 where
  valid created duplicate invalid_row waiting : RowStatus

-- ImportRow, less the text of its detail.
pub record ImportRow : Type 0 where
  pub line : ℕ
  pub identifier : List ℕ
  pub status : RowStatus
  pub invitation_email_queued : Bool

pub record ImportResult : Type 0 where
  pub dry_run : Bool
  pub total_rows : ℕ
  pub valid : ℕ
  pub created : ℕ
  pub duplicate : ℕ
  pub invalid : ℕ
  pub rows : List ImportRow

-- domain.MemberCategory of a text
abbrev category_of : List ℕ → MemberCategory
category_of s =
    if text_eq s (codes "undergraduate")
    then undergraduate
    else if text_eq s (codes "postgraduate")
    then postgraduate
    else if text_eq s (codes "staff")
    then staff
    else no_such_category

abbrev row_category : List ℕ → MemberCategory
row_category s = if is_blank s then undergraduate else category_of s

unfoldable pub row_params : (Field → Option ℕ) → ℕ → List (List ℕ) → NewMember
row_params index batch row = record {
  identifier = value_of index row identifier;
  email = value_of index row email;
  full_name = value_of index row full_name;
  first_name = value_of index row first_name;
  last_name = value_of index row last_name;
  faculty = value_of index row faculty;
  department = value_of index row department;
  level = value_of index row level;
  category = row_category (to_lower (value_of index row category));
  role = some member;
  is_synthetic = false;
  batch = some batch;
}

-- seen[strings.ToLower(identifier)]
unfoldable pub is_seen : List ℕ → List (List ℕ) → Bool
is_seen name [] = false
is_seen name (s ∷ seen) = text_eq s name || is_seen name seen

-- What the loop carries: `seen`, the counters of the result, and the database.
pub record Reading : Type 0 where
  pub total : ℕ
  pub seen : List (List ℕ)
  pub valid : ℕ
  pub created : ℕ
  pub duplicate : ℕ
  pub invalid : ℕ
  pub db : Db

abbrev pub plain_row : ℕ → List ℕ → RowStatus → ImportRow
plain_row line name status = record {
  line = line;
  identifier = name;
  status = status;
  invitation_email_queued = false;
}

-- What Create comes to for a row.
abbrev pub settle_created : ℕ → List ℕ → Reading → Result Error User × Db → ImportRow × Reading
settle_created line name s (ok u, db) = (
  record {
    line = line;
    identifier = u.identifier;
    status = created;
    invitation_email_queued = true;
  },
  record s { created = s.created + 1; valid = s.valid + 1; db = db },
)
settle_created line name s (err conflict, db) =
    (plain_row line name duplicate, record s { duplicate = s.duplicate + 1; db = db })
settle_created line name s (err _, db) =
    (plain_row line name invalid_row, record s { invalid = s.invalid + 1; db = db })

-- How an import is run: by whom, the batch, the columns, and for real or not.
pub record Job : Type 0 where
  pub actor : Role
  pub staff_id : ℕ
  pub batch : ℕ
  pub index : Field → Option ℕ
  pub dry_run : Bool

-- One turn of the loop.
unfoldable pub import_row : Job → ℕ → Draw → CsvRow → Reading → ImportRow × Reading
import_row j now x (malformed line) s =
    (plain_row line [] invalid_row, record s { invalid = s.invalid + 1 })
import_row j now x (cells line row) s =
    let p = row_params j.index j.batch row in
    let name = to_lower p.identifier in
    let marked = record s { seen = name ∷ s.seen } in
    if not (is_valid_member p)
    then (plain_row line p.identifier invalid_row, record s { invalid = s.invalid + 1 })
    else if is_seen name s.seen
    then (plain_row line p.identifier duplicate, record s { duplicate = s.duplicate + 1 })
    else if j.dry_run
    then (plain_row line p.identifier waiting, marked)
    else settle_created line p.identifier marked (create_member j.actor j.staff_id p x now s.db)

-- result.TotalRows++
abbrev pub row_read : Reading → Reading
row_read s = record s { total = s.total + 1 }

-- The loop; row number n draws `draws n`.
unfoldable pub import_rows :
    Job → ℕ → (ℕ → Draw) → ℕ → List CsvRow → Reading → List ImportRow × Reading
import_rows j now draws n [] s = ([], s)
import_rows j now draws n (row ∷ rows) s =
    let (r, s') = import_row j now (draws n) row (row_read s) in
    let (rs, end) = import_rows j now draws (n + 1) rows s' in (r ∷ rs, end)

-- ExistingIdentifiers, for one of them
unfoldable pub is_registered : List ℕ → Db → Bool
is_registered name db =
    is_some
      (find_where (λ u. text_eq (to_lower u.identifier) (to_lower (trim_space name))) db.users)

abbrev pub settle_waiting : Bool → ImportRow → Reading → ImportRow × Reading
settle_waiting true r s =
    (record r { status = duplicate }, record s { duplicate = s.duplicate + 1 })
settle_waiting false r s = (record r { status = valid }, record s { valid = s.valid + 1 })

-- The end of a dry run, for one row: those of `pending` are those that wait.
unfoldable pub settle_row : ImportRow → Reading → ImportRow × Reading
settle_row r s = elim r.status [
  | waiting ↦ settle_waiting (is_registered r.identifier s.db) r s
  | _ ↦ (r, s)
]

unfoldable pub settle_rows : List ImportRow → Reading → List ImportRow × Reading
settle_rows [] s = ([], s)
settle_rows (r ∷ rs) s =
    let (r', s') = settle_row r s in let (rs', end) = settle_rows rs s' in (r' ∷ rs', end)

abbrev pub start : Db → Reading
start db = record {
  total = 0;
  seen = [];
  valid = 0;
  created = 0;
  duplicate = 0;
  invalid = 0;
  db = db;
}

abbrev pub summary : Bool → List ImportRow × Reading → Result Error ImportResult × Db
summary dry_run (rows, s) = (
  ok (record {
    dry_run = dry_run;
    total_rows = s.total;
    valid = s.valid;
    created = s.created;
    duplicate = s.duplicate;
    invalid = s.invalid;
    rows = rows;
  }),
  s.db,
)

abbrev pub finish : Bool → List ImportRow × Reading → List ImportRow × Reading
finish dry_run (rows, s) = if dry_run then settle_rows rows s else (rows, s)

-- ImportCSV, on the header and the rows of the file.
unfoldable pub import_csv :
    Role
    → ℕ
    → ℕ
    → (ℕ → Draw)
    → ℕ
    → List (List ℕ)
    → List CsvRow
    → Bool
    → Db
    → Result Error ImportResult × Db
import_csv actor staff_id batch draws now header rows dry_run db = elim (column_index header) [
  | err e ↦ (err e, db)
  | ok index ↦
      let j : Job = record {
        actor = actor;
        staff_id = staff_id;
        batch = batch;
        index = index;
        dry_run = dry_run;
      } in
      summary dry_run (finish dry_run (import_rows j now draws 0 rows (start db)))
]
