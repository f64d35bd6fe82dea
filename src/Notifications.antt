-- ===== src/Notifications.antt =====
-- The outbox of notifications and its worker: internal/repository/postgres/outbox_repo.go,
-- internal/queue/worker.go and internal/notify/deliverable.go. The delivery events of invitations:
-- internal/repository/postgres/invitation_repo.go.
pub mod Queue
pub mod Deliverable
pub mod Invitations
pub mod Outbox
pub mod Worker
pub mod OutboxLaws
pub mod PushLaws
pub mod WorkerLaws
pub mod InvitationLaws
