-- ===== src/Search.antt =====
-- The public search contract: internal/service/catalogue_query.go.
pub mod Numbers
pub mod Values
pub mod Query
pub mod NumberLaws
pub mod QueryLaws
pub mod SavedLaws
