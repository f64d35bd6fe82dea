-- ===== src/Circulation.antt =====
-- The circulation desk: internal/repository/postgres/circulation_repo.go and
-- internal/service/circulation_service.go. The repository's transactions are in Borrow and Return.
pub mod Copies
pub mod Borrow
pub mod Return
pub mod ReturnLaws
pub mod RoundTrip
pub mod Race
pub mod Desk
pub mod DeskLaws
pub mod Reminders
pub mod Consistency
pub mod BorrowLaws
pub mod RetentionRule
pub mod BorrowSafety
pub mod Refusals
