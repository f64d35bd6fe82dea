-- ===== src/Members/ImportLaws.antt =====
-- ImportCSV of internal/service/member_service.go: its counters, what a dry run leaves alone, and what
-- an import can do to the roll.
use holibrary_backend.Prelude.{
  ℕ, suc, ◌+◌, ◌≡◌, Bool, true, false, List, [], ◌∷◌, Result, ok, err, Result-cases, if◌then◌else◌,
  count_where, to_lower, inl, inr, arith, length,
}
use holibrary_backend.Domain.{Error, User, Role}
use holibrary_backend.Db.{Db}
use holibrary_backend.Members.Register.{Draw, create_member}
use holibrary_backend.Members.Columns.{column_index}
use holibrary_backend.Members.Import.{
  CsvRow, malformed, cells, ImportRow, ImportResult, RowStatus, waiting, Reading, Job, import_row,
  row_read, import_rows, settle_row, settle_rows, settle_created, import_csv, start, row_params,
}

is_waiting_row : RowStatus → Bool
is_waiting_row waiting = true
is_waiting_row _ = false

abbrev waits_for_end : ImportRow → Bool
waits_for_end r = is_waiting_row r.status

abbrev tallied : Reading → ℕ
tallied s = s.valid + s.duplicate + s.invalid

settle_created-tallied :
    (line : ℕ) (name : List ℕ) (s : Reading) (r : Result Error User × Db)
    → (tallied (settle_created line name s r).1 ≡ suc (tallied s))
      × (waits_for_end (settle_created line name s r).0 ≡ false)
      × ((settle_created line name s r).1.total ≡ s.total)
      × ((settle_created line name s r).1.created + s.valid
          ≡ (settle_created line name s r).1.valid + s.created)
unfolding is_waiting_row
settle_created-tallied line name s (ok u, db) = ground arith
settle_created-tallied line name s (err e, db) = ground arith

-- What a turn of the loop adds to the counters.
import_row-tallied :
    (j : Job) (now : ℕ) (x : Draw) (c : CsvRow) (s : Reading)
    → (tallied (import_row j now x c s).1
          + (if waits_for_end (import_row j now x c s).0 then 1 else 0)
        ≡ suc (tallied s))
      × ((import_row j now x c s).1.total ≡ s.total)
      × (j.dry_run ≡ false → waits_for_end (import_row j now x c s).0 ≡ false)
      × (j.dry_run ≡ false
          → (import_row j now x c s).1.created + s.valid
            ≡ (import_row j now x c s).1.valid + s.created)
      × (j.dry_run ≡ true
          → ((import_row j now x c s).1.created ≡ s.created)
            × ((import_row j now x c s).1.db ≡ s.db))
unfolding import_row is_waiting_row
import_row-tallied j now x (malformed line) s = ground arith
import_row-tallied j now x (cells line row) s =
    let p = row_params j.index j.batch row in
    ground (
      arith,
      settle_created-tallied line p.identifier (record s { seen = to_lower p.identifier ∷ s.seen })
          (create_member j.actor j.staff_id p x now s.db),
    )

import_rows-tallied :
    (j : Job) (now : ℕ) (draws : ℕ → Draw) (n : ℕ) (cs : List CsvRow) (s : Reading)
    → (tallied (import_rows j now draws n cs s).1
          + count_where waits_for_end (import_rows j now draws n cs s).0
        ≡ tallied s + length cs)
      × ((import_rows j now draws n cs s).1.total ≡ s.total + length cs)
      × (length (import_rows j now draws n cs s).0 ≡ length cs)
      × (j.dry_run ≡ false → count_where waits_for_end (import_rows j now draws n cs s).0 ≡ 0)
      × (j.dry_run ≡ false
          → (import_rows j now draws n cs s).1.created + s.valid
            ≡ (import_rows j now draws n cs s).1.valid + s.created)
      × (j.dry_run ≡ true
          → ((import_rows j now draws n cs s).1.created ≡ s.created)
            × ((import_rows j now draws n cs s).1.db ≡ s.db))
unfolding import_rows count_where
import_rows-tallied j now draws n [] s = ground arith
import_rows-tallied j now draws n (c ∷ cs) s = ground (
  arith,
  import_row-tallied j now (draws n) c (row_read s),
  import_rows-tallied j now draws (n + 1) cs (import_row j now (draws n) c (row_read s)).1,
)

settle_rows-tallied :
    (rs : List ImportRow) (s : Reading)
    → (tallied (settle_rows rs s).1 ≡ tallied s + count_where waits_for_end rs)
      × ((settle_rows rs s).1.total ≡ s.total)
      × (length (settle_rows rs s).0 ≡ length rs)
      × ((settle_rows rs s).1.created ≡ s.created)
      × ((settle_rows rs s).1.db ≡ s.db)
unfolding settle_rows settle_row count_where is_waiting_row
settle_rows-tallied [] s = ground arith
settle_rows-tallied (r ∷ rs) s = ground (arith, settle_rows-tallied rs (settle_row r s).1)

-- Every row of the file is tallied once, as valid, a duplicate or invalid, and reported once. A real
-- import counts as valid what it created; a dry run creates nothing and leaves the database as it was.
pub import_csv-counted :
    (actor : Role) (staff batch : ℕ) (draws : ℕ → Draw) (now : ℕ) (header : List (List ℕ))
    (cs : List CsvRow) (dry_run : Bool) (db : Db) (res : ImportResult)
    → (import_csv actor staff batch draws now header cs dry_run db).0 ≡ ok res
    → (res.total_rows ≡ length cs)
      × (length res.rows ≡ length cs)
      × (res.valid + res.duplicate + res.invalid ≡ length cs)
      × (dry_run ≡ false → res.created ≡ res.valid)
      × (dry_run ≡ true
          → (res.created ≡ 0)
            × ((import_csv actor staff batch draws now header cs dry_run db).1 ≡ db))
unfolding import_csv
import_csv-counted actor staff batch draws now header cs dry_run db res h =
    elim (Result-cases (column_index header)) [
      | inl (e, q) ↦ absurd (ground (arith, q, h))
      | inr (index, q) ↦
          let j : Job = record {
            actor = actor;
            staff_id = staff;
            batch = batch;
            index = index;
            dry_run = dry_run;
          } in
          ground (
            arith,
            q,
            h,
            import_rows-tallied j now draws 0 cs (start db),
            settle_rows-tallied (import_rows j now draws 0 cs (start db)).0
                (import_rows j now draws 0 cs (start db)).1,
          )
    ]
