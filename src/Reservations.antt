-- ===== src/Reservations.antt =====
-- The queue for titles that cannot be borrowed now: internal/repository/postgres/reservation_repo.go
-- and internal/service/reservation_service.go.
pub mod Store
pub mod Service
pub mod CreateLaws
pub mod Order
pub mod Uniqueness
pub mod Rules
pub mod LineLaws
