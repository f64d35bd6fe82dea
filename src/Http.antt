-- ===== src/Http.antt =====
-- internal/transport/http: the table of routes and who may call them, the limit of a network, and how an
-- error of the services is answered.
pub mod Responses
pub mod ResponseLaws
pub mod Paths
pub mod Network
pub mod Routes
pub mod Serve
pub mod Audience
pub mod AccessLaws
pub mod NetworkLaws
pub mod TextLaws
pub mod PendingLaws
