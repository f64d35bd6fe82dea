-- ===== src/Notifications/Outbox.antt =====
-- OutboxRepo of internal/repository/postgres/outbox_repo.go, without its calls of InvitationRepo.
use holibrary_backend.Notifications.Invitations.{
  invitation_sent, invitation_failed, invitation_superseded,
}
use holibrary_backend.Prelude.{
  ℕ, ◌+◌, ◌==◌, leb, ltb, Bool, true, false, ◌&&◌, ◌||◌, not, Option, none, some, List, [], ◌∷◌, ok,
  err, if◌then◌else◌, find_where, update_where, select_where, sort_by, take,
}
use holibrary_backend.Domain.{User, not_found}
use holibrary_backend.Db.{
  Db, Tx, OutboxRow, OutboxStatus, Channel, Template, Payload, DeviceToken, loan_due_soon,
  loan_overdue, reservation_ready,
}
use holibrary_backend.Circulation.Copies.{is_open}
use holibrary_backend.Circulation.Consistency.{has_loan_id}
use holibrary_backend.Circulation.Desk.{has_user_id}
use holibrary_backend.Reservations.Store.{has_reservation_id, is_ready}

pub record PendingMessage : Type 0 where
  pub id : ℕ
  pub user_id : ℕ
  pub email : List ℕ
  pub channel : Channel
  pub template : Template
  pub payload : Payload

abbrev pub row_pending : OutboxStatus → Bool
row_pending OutboxStatus.pending = true
row_pending _ = false

-- status = 'pending' AND attempts < 5 AND scheduled_at <= now()
abbrev pub is_due_row : ℕ → OutboxRow → Bool
is_due_row now r = row_pending r.status && ltb r.attempts 5 && leb r.scheduled_at now

abbrev pub scheduled_first : OutboxRow → OutboxRow → Bool
scheduled_first r s = ltb r.scheduled_at s.scheduled_at

abbrev pub has_row_id : ℕ → OutboxRow → Bool
has_row_id i r = r.id == i

unfoldable pub listed_in : ℕ → List OutboxRow → Bool
listed_in i [] = false
listed_in i (r ∷ rows) = r.id == i || listed_in i rows

-- SET status = 'claimed', attempts = attempts + 1
abbrev pub claim_row : OutboxRow → OutboxRow
claim_row r = record r { status = OutboxStatus.claimed; attempts = r.attempts + 1 }

-- The join with users.
unfoldable pub with_user : List User → List OutboxRow → List PendingMessage
with_user users [] = []
with_user users (r ∷ rows) =
    let rest = with_user users rows in
    elim (find_where (has_user_id r.user_id) users) [
      | none ↦ rest
      | some u ↦
          record {
            id = r.id;
            user_id = r.user_id;
            email = u.email;
            channel = r.channel;
            template = r.template;
            payload = r.payload;
          }
          ∷ rest
    ]

-- The rows that Pending selects and claims.
unfoldable pub picked : ℕ → ℕ → Db → List OutboxRow
picked limit now db = take limit (sort_by scheduled_first (select_where (is_due_row now) db.outbox))

unfoldable pub pending_messages : ℕ → ℕ → Db → List PendingMessage × Db
pending_messages limit now db =
    let rows = picked limit now db in
    (
      with_user db.users rows,
      record db { outbox = update_where (λ r. listed_in r.id rows) claim_row db.outbox },
    )

-- With no id there is nothing to check against.
abbrev loan_still_open : Option ℕ → Db → Bool
loan_still_open none db = true
loan_still_open (some i) db = elim (find_where (has_loan_id i) db.loans) [
  | none ↦ false
  | some l ↦ is_open l
]

abbrev hold_still_ready : Option ℕ → Db → Bool
hold_still_ready none db = true
hold_still_ready (some i) db = elim (find_where (has_reservation_id i) db.reservations) [
  | none ↦ false
  | some r ↦ is_ready r.status
]

-- StillRelevant, which answers no error: a failed lookup is a `false`.
unfoldable pub still_relevant : Template → Payload → Db → Bool
still_relevant loan_due_soon p db = loan_still_open p.loan_id db
still_relevant loan_overdue p db = loan_still_open p.loan_id db
still_relevant reservation_ready p db = hold_still_ready p.reservation_id db
still_relevant _ p db = true

abbrev pub set_row : OutboxStatus → OutboxRow → OutboxRow
set_row s r = record r { status = s }

abbrev mark : ℕ → (OutboxRow → OutboxRow) → Db → Db
mark i f db = record db { outbox = update_where (has_row_id i) f db.outbox }

-- Both tables in one transaction.
unfoldable pub mark_sent : ℕ → ℕ → Db → Db
mark_sent i now db = invitation_sent i now (mark i (set_row OutboxStatus.sent) db)

unfoldable pub mark_superseded : ℕ → Db → Db
mark_superseded i db = invitation_superseded i (mark i (set_row OutboxStatus.superseded) db)

-- attempts + 1, and failed from the fifth on.
abbrev pub fail_row : OutboxRow → OutboxRow
fail_row r = record r {
  attempts = r.attempts + 1;
  status = if leb 5 (r.attempts + 1) then OutboxStatus.failed else OutboxStatus.pending;
}

unfoldable pub mark_failed : ℕ → Db → Db
mark_failed i db = invitation_failed i (mark i fail_row db)

unfoldable pub device_tokens_of : ℕ → Db → List DeviceToken
device_tokens_of user db = select_where (λ t. t.user_id == user && not t.revoked) db.device_tokens

unfoldable pub revoke_device_token : ℕ → Db → Db
revoke_device_token token db = record db {
  device_tokens =
      update_where (λ t. t.token == token && not t.revoked) (λ t. record t { revoked = true })
        db.device_tokens;
}

-- RevokeOwnDeviceToken
unfoldable revoke_own_device_token : ℕ → ℕ → Tx (Unit {0})
revoke_own_device_token user token db =
    elim (find_where (λ t. t.user_id == user && t.token == token && not t.revoked)
      db.device_tokens) [
        | none ↦ err not_found
        | some _ ↦ ok (
          tt,
          record db {
            device_tokens =
                update_where (λ t. t.user_id == user && t.token == token && not t.revoked)
                  (λ t. record t { revoked = true }) db.device_tokens;
          },
        )
      ]

-- RegisterDevice: ON CONFLICT (token) DO UPDATE.
unfoldable register_device : ℕ → ℕ → Db → Db
register_device user token db = elim (find_where (λ t. t.token == token) db.device_tokens) [
  | none ↦ record db {
    device_tokens = record { user_id = user; token = token; revoked = false } ∷ db.device_tokens;
  }
  | some _ ↦ record db {
    device_tokens =
        update_where (λ t. t.token == token) (λ t. record t { user_id = user; revoked = false })
          db.device_tokens;
  }
]
