-- ===== src/Notifications/Worker.antt =====
-- The delivery worker of internal/queue/worker.go. The providers are parameters: which channels have
-- a sender, and what a send comes to.
use holibrary_backend.Prelude.{
  ℕ, ◌+◌, Bool, true, false, not, ◌||◌, Option, none, some, List, [], ◌∷◌, if◌then◌else◌, take,
  length, ltb,
}
use holibrary_backend.Db.{Db, Channel, email, push, other_channel, DeviceToken}
use holibrary_backend.Notifications.Invitations.{update_provider_id}
use holibrary_backend.Notifications.Deliverable.{is_deliverable}
use holibrary_backend.Notifications.Outbox.{
  PendingMessage, pending_messages, still_relevant, mark_sent, mark_superseded, mark_failed,
  device_tokens_of, revoke_device_token,
}

-- The text of a provider's id is a number, and the statements that settle one pass share an instant,
-- `settled_at`. A failed update of a row is only logged by the worker and is not modelled.

-- nil, notify.ErrPermanent, or any other error of Send.
pub data Outcome : Type 0 where
  accepted permanent transient : Outcome

pub record Senders : Type 0 where
  pub configured : Channel → Bool
  pub send : PendingMessage → Outcome
  pub send_push : PendingMessage → ℕ → Outcome
  pub provider_id : PendingMessage → Option ℕ
  pub settled_at : ℕ

unfoldable pub record_failure : ℕ → Outcome → Db → Db
record_failure i permanent db = mark_superseded i db
record_failure i _ db = mark_failed i db

-- What the loop over the device tokens has seen so far.
pub record PushTally : Type 0 where
  pub delivered : ℕ
  pub any_transient : Bool

abbrev pub tally : Outcome → ℕ → PushTally → Db → PushTally × Db
tally accepted token s db = (record s { delivered = s.delivered + 1 }, db)
tally permanent token s db = (s, revoke_device_token token db)
tally transient token s db = (record s { any_transient = true }, db)

unfoldable pub push_all :
    Senders → PendingMessage → List DeviceToken → PushTally → Db → PushTally × Db
push_all w m [] s db = (s, db)
push_all w m (t ∷ ts) s db =
    let (s', db') = tally (w.send_push m t.token) t.token s db in push_all w m ts s' db'

abbrev pub settle_push : Senders → PendingMessage → PushTally × Db → Db
settle_push w m (s, db) =
    if ltb 0 s.delivered
    then mark_sent m.id w.settled_at db
    else if s.any_transient
    then record_failure m.id transient db
    else mark_superseded m.id db

unfoldable pub deliver_push : Senders → PendingMessage → Db → Db
deliver_push w m db = elim (device_tokens_of m.user_id db) [
  | [] ↦ mark_superseded m.id db
  | t ∷ ts ↦
      settle_push w m (push_all w m (t ∷ ts) (record { delivered = 0; any_transient = false }) db)
]

abbrev is_push : Channel → Bool
is_push push = true
is_push _ = false

-- The id is stored when the provider answers with one.
unfoldable pub store_provider_id : ℕ → Option ℕ → ℕ → Db → Db
store_provider_id i none now db = db
store_provider_id i (some provider) now db = update_provider_id i provider now db

abbrev settle : Senders → PendingMessage → Outcome → Db → Db
settle w m accepted db =
    mark_sent m.id w.settled_at (store_provider_id m.id (w.provider_id m) w.settled_at db)
settle w m o db = record_failure m.id o db

unfoldable pub deliver : Senders → PendingMessage → Db → Db
deliver w m db =
    if not (still_relevant m.template m.payload db)
    then mark_superseded m.id db
    else if not (w.configured m.channel)
    then db
    else if is_push m.channel
    then deliver_push w m db
    else if not (is_deliverable m.email)
    then mark_superseded m.id db
    else settle w m (w.send m) db

unfoldable pub deliver_all : Senders → List PendingMessage → Db → Db
deliver_all w [] db = db
deliver_all w (m ∷ ms) db = deliver_all w ms (deliver w m db)

abbrev batch : ℕ
batch = 20

-- One pass. The context is cancelled before message number `alive`, or never if the batch is shorter.
unfoldable pub drain_once : Senders → ℕ → ℕ → Db → ℕ × Db
drain_once w alive now db =
    let (messages, db') = pending_messages batch now db in
    let handled = take alive messages in (length handled, deliver_all w handled db')

-- len(w.senders) > 0
abbrev pub has_sender : Senders → Bool
has_sender w = w.configured email || w.configured push || w.configured other_channel

-- One tick of Run, which makes no pass while no channel has a sender.
unfoldable pub run_tick : Senders → ℕ → ℕ → Db → ℕ × Db
run_tick w alive now db = if has_sender w then drain_once w alive now db else (0, db)
