-- ===== src/Migrations.antt =====
-- internal/migrate/migrate.go: the numbered SQL files, the ledger of what has run, and its theorems.
pub mod Apply
pub mod Lookups
pub mod ApplyLaws
pub mod SeedLaws
