-- ===== src/Witnesses/MemberRuns.antt =====
-- An import of three rows by the librarian, the account of a second administrator, and a new invitation.
use Prim.Native.String.{String}
use holibrary_backend.Prelude.{
  ℕ, ◌+◌, ◌≡◌, ◌≤◌, refl, true, false, some, List, [], ◌∷◌, ok, err, codes, is_some, text_eq,
  to_lower, trim_space, if◌then◌else◌, eq-of-text_eq, text_eq_refl, find_where, count_where, length,
  ◌⊎◌, arith,
}
use holibrary_backend.Domain.{Error, User, librarian, admin, member, terms_for}
use holibrary_backend.Circulation.Desk.{has_user_id}
use holibrary_backend.Accounts.Roles.{roles_creatable_by}
use holibrary_backend.Members.Register.{
  may_create, Draw, is_valid_member, create_member, new_user, display_name, has_at,
  resend_invitation, has_email,
}
use holibrary_backend.Members.RegisterLaws.{create_member_rights, IsRoll, is_taken}
use holibrary_backend.Members.Columns.{
  column_index, column, column_named, first_alias, value_of, cell,
}
use holibrary_backend.Members.Import.{
  CsvRow, malformed, cells, ImportResult, import_csv, settle_rows, settle_row, valid, invalid_row,
  import_rows, import_row, row_params, is_seen, is_registered,
}
use holibrary_backend.Members.ImportLaws.{import_csv-counted}
use holibrary_backend.Members.PreviewLaws.{preview_case, figures, asked}
use holibrary_backend.Members.ResendLaws.{resend_invitation_one, IsInvited}
use holibrary_backend.Witnesses.Fixtures.{library, ada, bola, desk}

abbrev draws : ℕ → Draw
draws n = record { hash = 1000 + n; token = 2000 + n; token_hash = 3000 + n }

abbrev texts : List String → List (List ℕ)
texts [] = []
texts (s ∷ ss) = codes s ∷ texts ss

header : List (List ℕ)
header = texts (" Student_ID" ∷ "e-mail" ∷ "Name" ∷ [])

abbrev new_row : CsvRow
new_row = cells 2 (texts ("21/55HA009" ∷ "chi@example.com" ∷ "Chi" ∷ []))

abbrev same_address : List (List ℕ)
same_address = texts ("21/55HA010" ∷ "bola@example.com" ∷ "Bola" ∷ [])

abbrev other_case : List (List ℕ)
other_case = texts ("19/55ha001" ∷ "dan@example.com" ∷ "Dan" ∷ [])

abbrev rows : List CsvRow
rows = new_row ∷ cells 3 same_address ∷ malformed 4 ∷ []

columns : column_index header ≡ ok (column header)
unfolding column_index column column_named first_alias header text_eq to_lower trim_space
columns = refl

create_member_rights_example :
    ((e : Error) × (create_member librarian 9
          (row_params (column header) 5 same_address)
          (draws 0)
          40
          library
        ≡ (err e, library)))
    ⊎ ((u : User) × ((create_member librarian 9
            (row_params (column header) 5 same_address)
            (draws 0)
            40
            library).0
          ≡ ok u)
        × ((create_member librarian 9
              (row_params (column header) 5 same_address)
              (draws 0)
              40
              library).1.users
            ≡ u ∷ library.users)
        × ((librarian ≡ admin) ⊎ ((librarian ≡ librarian) × (u.role ≡ member))))
create_member_rights_example =
    create_member_rights librarian 9 (row_params (column header) 5 same_address) (draws 0) 40
      library

three_texts :
    (a b c i : List ℕ)
    → text_eq a b ≡ false
    → text_eq a c ≡ false
    → text_eq b c ≡ false
    → (if text_eq a i then 1 else 0)
        + ((if text_eq b i then 1 else 0) + ((if text_eq c i then 1 else 0) + 0))
      ≤ 1
three_texts a b c i d e f =
    ground (arith, eq-of-text_eq a i, eq-of-text_eq b i, eq-of-text_eq c i, text_eq_refl i, d, e, f)

library-IsRoll : IsRoll library
unfolding count_where text_eq to_lower
library-IsRoll = record {
  identifiers = λ i. three_texts ada.identifier bola.identifier desk.identifier i refl refl refl;
  addresses = λ a.
      three_texts (to_lower ada.email) (to_lower bola.email) (to_lower desk.email) (to_lower a) refl
        refl refl;
}

desk_may : may_create (roles_creatable_by librarian) member ≡ true
unfolding roles_creatable_by
desk_may = refl

same_address-valid : is_valid_member (row_params (column header) 5 same_address) ≡ true
unfolding is_valid_member row_params value_of cell column column_named first_alias header text_eq
    to_lower trim_space display_name has_at terms_for
same_address-valid = refl

same_address-new :
    is_registered (row_params (column header) 5 same_address).identifier library ≡ false
unfolding is_registered row_params value_of cell column column_named first_alias header text_eq
    to_lower trim_space find_where
same_address-new = refl

same_address-used :
    is_some (
      find_where
        (has_email (asked (column header) 5 (draws 0) 40 same_address library).email)
        library.users)
    ≡ true
unfolding new_user row_params value_of cell column column_named first_alias header text_eq to_lower
    trim_space find_where
same_address-used = refl

other_case-valid : is_valid_member (row_params (column header) 5 other_case) ≡ true
unfolding is_valid_member row_params value_of cell column column_named first_alias header text_eq
    to_lower trim_space display_name has_at terms_for
other_case-valid = refl

other_case-known : is_registered (row_params (column header) 5 other_case).identifier library ≡ true
unfolding is_registered row_params value_of cell column column_named first_alias header text_eq
    to_lower trim_space find_where
other_case-known = refl

other_case-free : is_taken (asked (column header) 5 (draws 0) 40 other_case library) library ≡ false
unfolding is_taken new_user row_params value_of cell column column_named first_alias header text_eq
    to_lower trim_space find_where
other_case-free = refl

preview_case_example :
    (figures (import_csv librarian 9 5 draws 40 header (cells 2 other_case ∷ []) true library).0
      ≡ some (0, 0, 1, 0))
    × (figures (import_csv librarian 9 5 draws 40 header (cells 2 other_case ∷ []) false library).0
        ≡ some (1, 1, 0, 0))
    × ((import_csv librarian 9 5 draws 40 header (cells 2 other_case ∷ []) false library).1.users
        ≡ asked (column header) 5 (draws 0) 40 other_case library ∷ library.users)
preview_case_example =
    preview_case librarian 9 5 draws 40 header (column header) columns desk_may 2 other_case library
      other_case-valid other_case-known other_case-free

preview : ImportResult
preview = record {
  dry_run = true;
  total_rows = 2;
  valid = 1;
  created = 0;
  duplicate = 0;
  invalid = 1;
  rows =
      record {
        line = 2;
        identifier = codes "21/55HA010";
        status = valid;
        invitation_email_queued = false;
      }
      ∷ record { line = 4; identifier = []; status = invalid_row; invitation_email_queued = false }
      ∷ [];
}

preview-ok :
    (import_csv librarian 9 5 draws 40 header
      (cells 2 same_address ∷ malformed 4 ∷ [])
      true
      library).0
    ≡ ok preview
unfolding import_csv import_rows import_row settle_rows settle_row is_seen preview column_index
    is_valid_member is_registered row_params value_of cell column column_named first_alias header
    text_eq to_lower trim_space display_name has_at terms_for find_where
preview-ok = refl

import_csv-counted_example :
    (preview.total_rows ≡ 2)
    × (length preview.rows ≡ 2)
    × (preview.valid + preview.duplicate + preview.invalid ≡ 2)
    × (true ≡ false → preview.created ≡ preview.valid)
    × (true ≡ true
        → (preview.created ≡ 0)
          × ((import_csv librarian 9 5 draws 40 header
                (cells 2 same_address ∷ malformed 4 ∷ [])
                true
                library).1
              ≡ library))
import_csv-counted_example =
    import_csv-counted librarian 9 5 draws 40 header (cells 2 same_address ∷ malformed 4 ∷ []) true
      library preview preview-ok

resend_invitation_one_example :
    (is_some (find_where (has_user_id 7) library.users) ≡ false
      → (resend_invitation 7 (draws 1) 50 library).1 ≡ library)
    × (is_some (find_where (has_user_id 7) library.users) ≡ true
        → ((resend_invitation 7 (draws 1) 50 library).0 ≡ ok library.next_id)
          × IsInvited 7 library.next_id (draws 1) 50 (resend_invitation 7 (draws 1) 50 library).1)
resend_invitation_one_example = resend_invitation_one 7 (draws 1) 50 library
