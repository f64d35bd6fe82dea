-- ===== src/Readers.antt =====
-- What a reader keeps: bookmark_repo.go and saved_search_repo.go of internal/repository/postgres.
pub mod Bookmarks
pub mod BookmarkLaws
pub mod SavedSearches
pub mod SavedSearchLaws
