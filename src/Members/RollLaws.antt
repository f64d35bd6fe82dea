-- ===== src/Members/RollLaws.antt =====
-- ImportCSV of internal/service/member_service.go: what every import, real or dry, does to the roll.
use mathlib.Core.Path.{subst}
use holibrary_backend.Prelude.{
  ℕ, ◌+◌, ◌≡◌, refl, sym, Bool, true, false, not, some, List, [], ◌∷◌, Result, ok, err,
  Result-cases, count_where, to_lower, Bool-cases, inl, inr, arith,
}
use holibrary_backend.Domain.{Error, User, Role, member, role_eq}
use holibrary_backend.Db.{Db}
use holibrary_backend.Members.Register.{NewMember, Draw, is_valid_member, create_member, new_user}
use holibrary_backend.Members.RegisterLaws.{IsRoll, create_member-IsRoll, create_member-cases}
use holibrary_backend.Members.Columns.{column_index}
use holibrary_backend.Members.Import.{
  CsvRow, malformed, cells, ImportRow, Reading, Job, import_row, row_read, import_rows, settle_row,
  settle_rows, settle_created, import_csv, start, finish, summary, row_params, is_seen,
}

settle_created-db :
    (line : ℕ) (name : List ℕ) (s : Reading) (r : Result Error User × Db)
    → (settle_created line name s r).1.db ≡ r.1
settle_created-db line name s (ok u, db) = refl
settle_created-db line name s (err e, db) = ground arith

settle_rows-db : (rs : List ImportRow) (s : Reading) → (settle_rows rs s).1.db ≡ s.db
unfolding settle_rows settle_row
settle_rows-db [] s = refl
settle_rows-db (r ∷ rs) s = ground (arith, settle_rows-db rs (settle_row r s).1)

finish-db : (dry_run : Bool) (x : List ImportRow × Reading) → (finish dry_run x).1.db ≡ x.1.db
finish-db true (rs, s) = settle_rows-db rs s
finish-db false (rs, s) = refl

-- What the registration of a member keeps, an import keeps.
module _ (P : Db → Type 0)
    (k : (actor : Role) (staff : ℕ) (p : NewMember) (x : Draw) (now : ℕ) (db : Db)
      → p.role ≡ some member
      → P db
      → P (create_member actor staff p x now db).1) where
  row-keeps :
      (j : Job) (now : ℕ) (x : Draw) (c : CsvRow) (s : Reading)
      → P s.db
      → P (import_row j now x c s).1.db
  unfolding import_row
  row-keeps j now x (malformed line) s v = v
  row-keeps j now x (cells line row) s v =
      let p = row_params j.index j.batch row in
      let name = to_lower p.identifier in
      elim (Bool-cases (is_valid_member p)) [
        | inr n ↦ rw (n, import_row) v
        | inl y ↦ elim (Bool-cases (is_seen name s.seen)) [
          | inl t ↦ rw (y, t, import_row) v
          | inr f ↦ elim (Bool-cases j.dry_run) [
            | inl d ↦ rw (y, f, d, import_row) v
            | inr r ↦
                let result = create_member j.actor j.staff_id p x now s.db in
                rw (y, f, r, import_row)
                  (subst P
                    (sym (
                      settle_created-db line p.identifier (record s { seen = name ∷ s.seen })
                        result))
                    (k j.actor j.staff_id p x now s.db (unfold row_params in refl) v))
          ]
        ]
      ]

  rows-keep :
      (j : Job) (now : ℕ) (draws : ℕ → Draw) (n : ℕ) (cs : List CsvRow) (s : Reading)
      → P s.db
      → P (import_rows j now draws n cs s).1.db
  unfolding import_rows
  rows-keep j now draws n [] s v = v
  rows-keep j now draws n (c ∷ cs) s v =
      rows-keep j now draws (n + 1) cs (import_row j now (draws n) c (row_read s)).1
        (row-keeps j now (draws n) c (row_read s) v)

  pub import_csv-keeps :
      (actor : Role) (staff batch : ℕ) (draws : ℕ → Draw) (now : ℕ) (header : List (List ℕ))
      (cs : List CsvRow) (dry_run : Bool) (db : Db)
      → P db
      → P (import_csv actor staff batch draws now header cs dry_run db).1
  unfolding import_csv
  import_csv-keeps actor staff batch draws now header cs dry_run db v =
      elim (Result-cases (column_index header)) [
        | inl (e, q) ↦ rw (q, import_csv) v
        | inr (index, q) ↦
            let j : Job = record {
              actor = actor;
              staff_id = staff;
              batch = batch;
              index = index;
              dry_run = dry_run;
            } in
            let read = import_rows j now draws 0 cs (start db) in
            let kept = rows-keep j now draws 0 cs (start db) v in
            subst P (sym (rw (q, import_csv, summary) (finish-db dry_run read))) kept
      ]

-- Where no two accounts have one identifier or one address, this is so after an import, dry or real, of
-- whatever file.
pub import_csv-IsRoll :
    (actor : Role) (staff batch : ℕ) (draws : ℕ → Draw) (now : ℕ) (header : List (List ℕ))
    (cs : List CsvRow) (dry_run : Bool) (db : Db)
    → IsRoll db
    → IsRoll (import_csv actor staff batch draws now header cs dry_run db).1
import_csv-IsRoll =
    import_csv-keeps IsRoll
      (λ actor staff p x now db _ v. create_member-IsRoll actor staff p x now db v)

abbrev pub is_staff : User → Bool
is_staff u = not (role_eq u.role member)

HasStaff : ℕ → Db → Type 0
HasStaff n db = count_where is_staff db.users ≡ n

create-HasStaff :
    (n : ℕ) (actor : Role) (staff : ℕ) (p : NewMember) (x : Draw) (now : ℕ) (db : Db)
    → p.role ≡ some member
    → HasStaff n db
    → HasStaff n (create_member actor staff p x now db).1
unfolding HasStaff
create-HasStaff n actor staff p x now db e v = elim (create_member-cases actor staff p x now db) [
  | inl (_, h) ↦ rw h v
  | inr (_, users, _, _) ↦ unfold count_where new_user in (rw users (ground (arith, e, v)))
]

-- An import by whomever, of whatever file, adds no librarian and no administrator.
pub import_csv_no_staff :
    (actor : Role) (staff batch : ℕ) (draws : ℕ → Draw) (now : ℕ) (header : List (List ℕ))
    (cs : List CsvRow) (dry_run : Bool) (db : Db)
    → count_where is_staff (import_csv actor staff batch draws now header cs dry_run db).1.users
      ≡ count_where is_staff db.users
unfolding HasStaff
import_csv_no_staff actor staff batch draws now header cs dry_run db =
    import_csv-keeps (HasStaff (count_where is_staff db.users))
      (create-HasStaff (count_where is_staff db.users)) actor staff batch draws now header cs
      dry_run db refl
