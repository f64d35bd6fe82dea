-- ===== src/Db.antt =====
-- The database that the repositories share: one record with a list of rows for each table that
-- internal/migrate/sql creates and the modelled code reads or writes. The pool of pgx is not
-- modelled: a statement runs as SQL says, and fails only by a constraint that the code tests for.
-- A transaction either commits its last state or leaves the database as it was.
mod Rows
mod Monads
pub mod Transaction
unfoldable pub use Rows.*
unfoldable pub use Monads.*
