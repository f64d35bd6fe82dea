-- ===== src/Notifications/Invitations.antt =====
-- internal/repository/postgres/invitation_repo.go, the statements of outbox_repo.go on the same table,
-- and QueueTracked of outbox_repo.go, which writes a row of it with an account_setup message.
use holibrary_backend.Prelude.{
  ℕ, ◌+◌, ◌==◌, Bool, true, false, ◌&&◌, Option, none, some, ◌∷◌, ok, err, if◌then◌else◌,
  find_where, update_where,
}
use holibrary_backend.Domain.{not_found}
use holibrary_backend.Db.{
  Db, Tx, Channel, Template, account_setup, Payload, Invitation, InvitationStatus, queued, sent,
  delivered, opened, bounced, complained, failed, superseded,
}
use holibrary_backend.Circulation.Desk.{has_user_id}
use holibrary_backend.Notifications.Queue.{queue}

-- coalesce
abbrev pub first_of : Option ℕ → ℕ → Option ℕ
first_of none now = some now
first_of (some t) now = some t

abbrev pub has_outbox_id : ℕ → Invitation → Bool
has_outbox_id i r = r.outbox_id == i

abbrev pub same_message : Option ℕ → ℕ → Bool
same_message none m = false
same_message (some n) m = n == m

abbrev pub has_provider_id : ℕ → Invitation → Bool
has_provider_id m r = same_message r.resend_message_id m

-- status = 'queued'
abbrev is_queued : InvitationStatus → Bool
is_queued queued = true
is_queued _ = false

-- status IN ('queued', 'sent', 'delivered', 'opened')
abbrev pub is_live_status : InvitationStatus → Bool
is_live_status queued = true
is_live_status sent = true
is_live_status delivered = true
is_live_status opened = true
is_live_status _ = false

-- status IN ('bounced', 'complained', 'failed')
abbrev pub is_final : InvitationStatus → Bool
is_final bounced = true
is_final complained = true
is_final failed = true
is_final _ = false

abbrev pub set_invitations : (Invitation → Bool) → (Invitation → Invitation) → Db → Db
set_invitations p f db = record db { invitations = update_where p f db.invitations }

abbrev with_status : InvitationStatus → Invitation → Invitation
with_status s r = record r { status = s }

-- CreateForOutbox
abbrev pub new_invitation : ℕ → ℕ → ℕ → Option ℕ → ℕ → Invitation
new_invitation i member outbox batch now = record {
  id = i;
  member_id = member;
  outbox_id = outbox;
  import_batch_id = batch;
  resend_message_id = none;
  queued_at = now;
  sent_at = none;
  delivered_at = none;
  opened_at = none;
  bounced_at = none;
  status = queued;
}

abbrev create_for_outbox : ℕ → ℕ → Option ℕ → ℕ → Db → Db
create_for_outbox member outbox batch now db = record db {
  invitations = new_invitation db.next_id member outbox batch now ∷ db.invitations;
  next_id = db.next_id + 1;
}

abbrev is_account_setup : Template → Bool
is_account_setup account_setup = true
is_account_setup _ = false

-- OutboxRepo.QueueTracked; `batch` is the batch_id of the payload, and the result the row's id.
unfoldable pub queue_tracked : ℕ → Channel → Template → Payload → Option ℕ → ℕ → Tx ℕ
queue_tracked user channel template payload batch now db =
    let queued = queue user channel template payload now db in
    if is_account_setup template
    then elim (find_where (has_user_id user) db.users) [
      | none ↦ err not_found
      | some u ↦ ok (db.next_id, create_for_outbox user db.next_id batch now queued)
    ]
    else ok (db.next_id, queued)

-- The second statement of OutboxRepo.MarkSent
unfoldable pub invitation_sent : ℕ → ℕ → Db → Db
invitation_sent i now =
    set_invitations (λ r. has_outbox_id i r && is_queued r.status)
      (λ r. record r { status = sent; sent_at = first_of r.sent_at now })

-- UpdateProviderID
unfoldable pub update_provider_id : ℕ → ℕ → ℕ → Db → Db
update_provider_id i provider now = set_invitations (has_outbox_id i) (λ r. record r {
  resend_message_id = some provider;
  sent_at = first_of r.sent_at now;
  status = sent;
})

-- InvitationRepo.MarkFailed
unfoldable pub invitation_failed : ℕ → Db → Db
invitation_failed i = set_invitations (has_outbox_id i) (with_status failed)

-- InvitationRepo.MarkSuperseded
unfoldable pub invitation_superseded : ℕ → Db → Db
invitation_superseded i = set_invitations (has_outbox_id i) (with_status superseded)

-- InvalidateForMember
unfoldable pub invalidate_for_member : ℕ → Db → Db
invalidate_for_member member =
    set_invitations (λ r. r.member_id == member && is_live_status r.status) (with_status superseded)

-- The event types that ApplyEvent knows; `other_event` is any other text.
pub data EventType : Type 0 where
  email_sent email_delivered email_opened email_bounced email_complained email_failed : EventType
  other_event : EventType

-- CASE WHEN status IN ('bounced','complained','failed') THEN status ELSE $2 END
abbrev pub advance : InvitationStatus → InvitationStatus → InvitationStatus
advance old new = if is_final old then old else new

-- What an event does to a row that has its provider's id.
unfoldable pub event_row : EventType → ℕ → Invitation → Invitation
event_row email_sent at r = record r {
  status = advance r.status sent;
  sent_at = first_of r.sent_at at;
}
event_row email_delivered at r = record r {
  status = advance r.status delivered;
  delivered_at = first_of r.delivered_at at;
}
event_row email_opened at r = record r {
  status = advance r.status opened;
  opened_at = first_of r.opened_at at;
}
event_row email_bounced at r = record r {
  status = advance r.status bounced;
  bounced_at = first_of r.bounced_at at;
}
event_row email_complained at r = record r { status = advance r.status complained }
event_row email_failed at r = record r { status = advance r.status failed }
event_row other_event at r = r

unfoldable pub apply_event : ℕ → EventType → ℕ → Db → Db
apply_event provider e at = set_invitations (has_provider_id provider) (event_row e at)
