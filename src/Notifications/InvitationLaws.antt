-- ===== src/Notifications/InvitationLaws.antt =====
-- ApplyEvent and QueueTracked of internal/repository/postgres: what a provider's events, in whatever
-- order they come, do to an invitation, and how an invitation stands beside its message.
use holibrary_backend.Prelude.{
  ℕ, ◌≡◌, refl, ap, ◌∙◌, true, Option, some, List, [], ◌∷◌, update_where, arith,
}
use holibrary_backend.Db.{Db, Invitation}
use holibrary_backend.Notifications.Invitations.{
  EventType, email_sent, email_delivered, email_opened, email_bounced, email_complained,
  email_failed, other_event, event_row, apply_event, is_final, has_provider_id,
}

-- The events of one message, as they come in: what each is, and when it is said to have happened.
pub run_events : List (EventType × ℕ) → Invitation → Invitation
run_events [] r = r
run_events ((e, at) ∷ es) r = run_events es (event_row e at r)

event_row_twice :
    (e : EventType) (at later : ℕ) (r : Invitation)
    → event_row e later (event_row e at r) ≡ event_row e at r
unfolding event_row
event_row_twice email_sent at later r = ground arith
event_row_twice email_delivered at later r = ground arith
event_row_twice email_opened at later r = ground arith
event_row_twice email_bounced at later r = ground arith
event_row_twice email_complained at later r = ground arith
event_row_twice email_failed at later r = ground arith
event_row_twice other_event at later r = ground arith

event_row-message :
    (e : EventType) (at : ℕ) (r : Invitation)
    → (event_row e at r).resend_message_id ≡ r.resend_message_id
unfolding event_row
event_row-message email_sent at r = refl
event_row-message email_delivered at r = refl
event_row-message email_opened at r = refl
event_row-message email_bounced at r = refl
event_row-message email_complained at r = refl
event_row-message email_failed at r = refl
event_row-message other_event at r = refl

update_twice :
    (provider : ℕ) (e : EventType) (at later : ℕ) (rows : List Invitation)
    → update_where
        (has_provider_id provider)
        (event_row e later)
        (update_where (has_provider_id provider) (event_row e at) rows)
      ≡ update_where (has_provider_id provider) (event_row e at) rows
unfolding update_where
update_twice provider e at later [] = refl
update_twice provider e at later (r ∷ rows) = ground (
  arith,
  event_row-message e at r,
  event_row_twice e at later r,
  update_twice provider e at later rows,
)

-- A provider that reports an event again, at whatever time, changes nothing.
pub apply_event_twice :
    (provider : ℕ) (e : EventType) (at later : ℕ) (db : Db)
    → apply_event provider e later (apply_event provider e at db) ≡ apply_event provider e at db
unfolding apply_event
apply_event_twice provider e at later db =
    ap (λ (rows : List Invitation). record db { invitations = rows })
      (update_twice provider e at later db.invitations)

-- A recorded instant stays.
pub Stays : Option ℕ → Option ℕ → Type 0
Stays old new = (t : ℕ) → old ≡ some t → new ≡ some t

-- What no event takes back.
pub record Grows (old new : Invitation) : Type 0 where
  pub final : is_final old.status ≡ true → new.status ≡ old.status
  pub sent_at : Stays old.sent_at new.sent_at
  pub delivered_at : Stays old.delivered_at new.delivered_at
  pub opened_at : Stays old.opened_at new.opened_at
  pub bounced_at : Stays old.bounced_at new.bounced_at

event-Grows : (e : EventType) (at : ℕ) (r : Invitation) → Grows r (event_row e at r)
unfolding event_row Stays
event-Grows e at r = record {
  final = ground arith;
  sent_at = ground arith;
  delivered_at = ground arith;
  opened_at = ground arith;
  bounced_at = ground arith;
}

Grows-refl : (r : Invitation) → Grows r r
unfolding Stays
Grows-refl r = record {
  final = λ _. refl;
  sent_at = λ t h. h;
  delivered_at = λ t h. h;
  opened_at = λ t h. h;
  bounced_at = λ t h. h;
}

Grows-trans : (a b c : Invitation) → Grows a b → Grows b c → Grows a c
unfolding Stays
Grows-trans a b c g h = record {
  final = λ f. h.final (rw (g.final f) f) ∙ g.final f;
  sent_at = λ t e. h.sent_at t (g.sent_at t e);
  delivered_at = λ t e. h.delivered_at t (g.delivered_at t e);
  opened_at = λ t e. h.opened_at t (g.opened_at t e);
  bounced_at = λ t e. h.bounced_at t (g.bounced_at t e);
}

-- Whatever events come in, and in whatever order: an invitation that bounced, failed or drew a
-- complaint keeps that status, and each instant, once recorded, keeps its first value.
pub run_events-Grows : (es : List (EventType × ℕ)) (r : Invitation) → Grows r (run_events es r)
unfolding run_events
run_events-Grows [] r = Grows-refl r
run_events-Grows ((e, at) ∷ es) r =
    Grows-trans r (event_row e at r) (run_events es (event_row e at r)) (event-Grows e at r)
      (run_events-Grows es (event_row e at r))
