-- ===== src/Domain.antt =====
-- The rules of the library itself: internal/domain/domain.go and internal/domain/errors.go.
mod Types
mod Errors
pub mod Books
pub mod Retention
pub mod Copies
pub mod Loans
unfoldable pub use Types.*
unfoldable pub use Errors.*
