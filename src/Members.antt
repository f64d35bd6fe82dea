-- ===== src/Members.antt =====
-- The roll of members: internal/service/member_service.go less SetRole, with Create and
-- ExistingIdentifiers of internal/repository/postgres/user_repo.go.
pub mod Register
pub mod Columns
pub mod Import
pub mod RegisterLaws
pub mod ImportLaws
pub mod RollLaws
pub mod PreviewLaws
pub mod ResendLaws
