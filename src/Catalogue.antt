-- ===== src/Catalogue.antt =====
-- The catalogue: internal/service/catalogue_service.go and internal/repository/postgres/
-- catalogue_repo.go. A librarian's edit of one copy is in CopyEdit, the records of books in Books.
pub mod CopyEdit
pub mod EditSteps
pub mod CopyEditLaws
pub mod HalfDone
pub mod StaleEdit
pub mod Isbn
pub mod Metadata
pub mod Books
pub mod NewBooks
pub mod Volumes
pub mod Search
pub mod Arrangements
pub mod SearchLaws
pub mod BookLaws
pub mod IsbnLaws
