-- ===== src/Witnesses.antt =====
-- Concrete databases on which the theorems of the other modules apply.
pub mod Fixtures
pub mod CirculationRuns
pub mod CatalogueRuns
pub mod ReservationRuns
pub mod NotificationRuns
pub mod AccountRuns
pub mod LibraryRuns
pub mod MigrationRuns
pub mod MemberRuns
pub mod SearchRuns
pub mod ReaderRuns
pub mod InvitationRuns
pub mod HttpRuns
pub mod ShelfRuns
