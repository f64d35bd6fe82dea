-- ===== src/Db/Rows.antt =====
-- The rows that belong to no type of internal/domain: the outbox, tokens, and the audit log. Their
-- texts are enumerations of the values that the code writes, and an audit line keeps its action and
-- entity but not its metadata, which nothing reads.
use holibrary_backend.Prelude.{ℕ, Bool, List, Option}
use holibrary_backend.Domain.Books.{Book, Bookmark, SavedSearch}
use holibrary_backend.Domain.{User, Copy, Loan, Reservation, CopyStatus}

pub data AuditAction : Type 0 where
  loan_issued member_self_checkout loan_returned copy_updated member_role_changed : AuditAction
  member_status_changed member_created book_created : AuditAction
  book_metadata_updated book_archived copy_added saved_search_created saved_search_deleted :
      AuditAction
  copy_marked : CopyStatus → AuditAction

pub record AuditLine : Type 0 where
  pub actor : Option ℕ
  pub action : AuditAction
  pub entity : Option ℕ

pub data Channel : Type 0 where
  email push other_channel : Channel

pub data Template : Type 0 where
  loan_receipt loan_due_soon loan_overdue reservation_ready password_reset account_setup : Template
  other_template : Template

-- The keys of a payload that some code reads back.
pub record Payload : Type 0 where
  pub loan_id : Option ℕ
  pub reservation_id : Option ℕ
  pub token : Option ℕ

pub data OutboxStatus : Type 0 where
  pending claimed sent superseded failed : OutboxStatus

pub record OutboxRow : Type 0 where
  pub id : ℕ
  pub user_id : ℕ
  pub channel : Channel
  pub template : Template
  pub payload : Payload
  pub status : OutboxStatus
  pub attempts : ℕ
  pub scheduled_at : ℕ

-- The values that the check on invitation_deliveries.status allows.
pub data InvitationStatus : Type 0 where
  queued sent delivered opened bounced complained failed superseded : InvitationStatus

-- A row of invitation_deliveries, less its address and its reason of failure, which nothing reads back.
pub record Invitation : Type 0 where
  pub id : ℕ
  pub member_id : ℕ
  pub outbox_id : ℕ
  pub import_batch_id : Option ℕ
  pub resend_message_id : Option ℕ
  pub queued_at : ℕ
  pub sent_at : Option ℕ
  pub delivered_at : Option ℕ
  pub opened_at : Option ℕ
  pub bounced_at : Option ℕ
  pub status : InvitationStatus

pub record RefreshToken : Type 0 where
  pub user_id : ℕ
  pub token_hash : ℕ
  pub expires_at : ℕ
  pub revoked_at : Option ℕ
  pub created_at : ℕ

pub record PasswordReset : Type 0 where
  pub user_id : ℕ
  pub token_hash : ℕ
  pub expires_at : ℕ
  pub used_at : Option ℕ

pub record DeviceToken : Type 0 where
  pub user_id : ℕ
  pub token : ℕ
  pub revoked : Bool

-- `next_id` stands for uuid_generate_v4: each new row takes it, and no id comes twice.
pub record Db : Type 0 where
  pub copies : List Copy
  pub loans : List Loan
  pub reservations : List Reservation
  pub users : List User
  pub refresh_tokens : List RefreshToken
  pub password_resets : List PasswordReset
  pub outbox : List OutboxRow
  pub device_tokens : List DeviceToken
  pub invitations : List Invitation
  pub books : List Book
  pub bookmarks : List Bookmark
  pub saved_searches : List SavedSearch
  pub audit : List AuditLine
  pub next_id : ℕ
