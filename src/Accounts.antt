-- ===== src/Accounts.antt =====
-- Accounts: internal/ratelimit/ratelimit.go, internal/service/auth_service.go,
-- internal/repository/postgres/token_repo.go and user_repo.go, and the role tests of
-- internal/service/member_service.go and internal/transport/http/middleware/middleware.go.
pub mod RateLimit
pub mod RateLimitLaws
pub mod Tokens
pub mod Sessions
pub mod RefreshLaws
pub mod PasswordLaws
pub mod LoginLaws
pub mod Roles
pub mod RoleLaws
