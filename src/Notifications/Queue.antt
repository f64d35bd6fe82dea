-- ===== src/Notifications/Queue.antt =====
-- OutboxRepo.Queue of internal/repository/postgres/outbox_repo.go: one pending row. The
-- branch for account_setup is in Invitations: `queue_tracked`.
use holibrary_backend.Prelude.{ℕ, ◌+◌, ◌∷◌}
use holibrary_backend.Db.{Db, Channel, Template, Payload, OutboxRow, OutboxStatus}

abbrev pub new_message : ℕ → ℕ → Channel → Template → Payload → ℕ → OutboxRow
new_message i user channel template payload now = record {
  id = i;
  user_id = user;
  channel = channel;
  template = template;
  payload = payload;
  status = OutboxStatus.pending;
  attempts = 0;
  scheduled_at = now;
}

unfoldable pub queue : ℕ → Channel → Template → Payload → ℕ → Db → Db
queue user channel template payload now db = record db {
  outbox = new_message db.next_id user channel template payload now ∷ db.outbox;
  next_id = db.next_id + 1;
}
