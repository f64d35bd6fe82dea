-- ===== src/Members/PreviewLaws.antt =====
-- ImportCSV of internal/service/member_service.go: two files of one row on which a dry run and the real
-- import disagree. ExistingIdentifiers looks at identifiers only and without regard to case; the table
-- has a unique address, and identifiers that are unique with regard to case.
use holibrary_backend.Prelude.{
  ℕ, ◌≡◌, true, false, Option, none, some, List, [], ◌∷◌, Result, ok, err, is_some, find_where,
  arith,
}
use holibrary_backend.Domain.{Error, User, Role, member}
use holibrary_backend.Db.{Db}
use holibrary_backend.Accounts.Roles.{roles_creatable_by}
use holibrary_backend.Members.Register.{Draw, is_valid_member, new_user, may_create, has_email}
use holibrary_backend.Members.RegisterLaws.{is_taken, create_member-taken, create_member-free}
use holibrary_backend.Members.Columns.{Field, column_index}
use holibrary_backend.Members.Import.{
  cells, ImportResult, import_row, import_rows, settle_row, settle_rows, import_csv, row_params,
  is_seen, is_registered,
}

-- The account that a row asks for.
abbrev pub asked : (Field → Option ℕ) → ℕ → Draw → ℕ → List (List ℕ) → Db → User
asked index batch x now row db = new_user db.next_id (row_params index batch row) x.hash now

-- How many rows are valid, created, duplicates and invalid.
pub figures : Result Error ImportResult → Option (ℕ × ℕ × ℕ × ℕ)
figures (err e) = none
figures (ok r) = some (r.valid, r.created, r.duplicate, r.invalid)

module _ (actor : Role) (staff batch : ℕ) (draws : ℕ → Draw) (now : ℕ) (header : List (List ℕ))
    (index : Field → Option ℕ) (columns : column_index header ≡ ok index)
    (may : may_create (roles_creatable_by actor) member ≡ true) where
  -- A file of one well-formed row, whose identifier no account has and whose address some account has,
  -- under a usable header and by someone who may create members: the dry run reports the row as valid,
  -- and the real import creates nothing and reports a duplicate.
  pub preview_address :
      (line : ℕ) (row : List (List ℕ)) (db : Db)
      → is_valid_member (row_params index batch row) ≡ true
      → is_registered (row_params index batch row).identifier db ≡ false
      → is_some (find_where (has_email (asked index batch (draws 0) now row db).email) db.users)
        ≡ true
      → (figures (import_csv actor staff batch draws now header (cells line row ∷ []) true db).0
          ≡ some (1, 0, 0, 0))
        × (figures (import_csv actor staff batch draws now header (cells line row ∷ []) false db).0
            ≡ some (0, 0, 1, 0))
  unfolding figures import_csv import_rows import_row settle_rows settle_row is_seen is_taken
  preview_address line row db v n t =
      let p = row_params index batch row in
      let refused =
        create_member-taken actor staff p (draws 0) now db v (unfold row_params in may)
          (ground (arith, t)) in
      (ground (arith, columns, v, n), ground (arith, columns, v, refused))

  -- A file of one well-formed row, whose identifier is that of an account up to case, but of none
  -- exactly, and whose address is free, under a usable header and by someone who may create members: the
  -- dry run reports a duplicate, and the real import creates a second account.
  pub preview_case :
      (line : ℕ) (row : List (List ℕ)) (db : Db)
      → is_valid_member (row_params index batch row) ≡ true
      → is_registered (row_params index batch row).identifier db ≡ true
      → is_taken (asked index batch (draws 0) now row db) db ≡ false
      → (figures (import_csv actor staff batch draws now header (cells line row ∷ []) true db).0
          ≡ some (0, 0, 1, 0))
        × (figures (import_csv actor staff batch draws now header (cells line row ∷ []) false db).0
            ≡ some (1, 1, 0, 0))
        × ((import_csv actor staff batch draws now header (cells line row ∷ []) false db).1.users
            ≡ asked index batch (draws 0) now row db ∷ db.users)
  unfolding figures import_csv import_rows import_row settle_rows settle_row is_seen
  preview_case line row db v n t =
      let p = row_params index batch row in
      let (made, users) =
        create_member-free actor staff p (draws 0) now db v (unfold row_params in may) t in
      (
        ground (arith, columns, v, n),
        ground (arith, columns, v, made),
        ground (arith, columns, v, made, users),
      )
