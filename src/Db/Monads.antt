-- ===== src/Db/Monads.antt =====
-- The two ways in which code runs on the database: inside a transaction, where an error drops the
-- changes (the deferred Rollback), and as a sequence of calls, where an error keeps what was done.
-- internal/repository/postgres/audit.go: recordAudit.
use holibrary_backend.Prelude.{ℕ, ◌==◌, Option, none, some, ◌∷◌, Result, ok, err, if◌then◌else◌}
use holibrary_backend.Domain.{Error}
use holibrary_backend.Db.Rows.{Db, AuditAction}

abbrev pub Tx : Type 0 → Type 0
Tx A = Db → Result Error (A × Db)

abbrev pub Action : Type 0 → Type 0
Action A = Db → Result Error A × Db

-- Begin, the body, and Commit, or Rollback on an error.
abbrev pub transact : {A : Type 0} → Tx A → Action A
transact m db = elim (m db) [ ok (a, db') ↦ (ok a, db') | err e ↦ (err e, db) ]

-- uuid.Nil is stored as NULL.
abbrev nil_to_null : ℕ → Option ℕ
nil_to_null i = if i == 0 then none else some i

unfoldable pub record_audit : ℕ → AuditAction → ℕ → Db → Db
record_audit actor action entity db = record db {
  audit =
      record { actor = nil_to_null actor; action = action; entity = nil_to_null entity } ∷ db.audit;
}
