-- ===== src/Notifications/PushLaws.antt =====
-- What a push to all devices of a reader comes to: internal/queue/worker.go, `deliverPush`.
use holibrary_backend.Prelude.{
  ◌+◌, ltb, Bool, true, false, ◌||◌, List, [], ◌∷◌, ◌≡◌, refl, if◌then◌else◌, count_where, inl, inr,
  ◌⊎◌, arith,
}
use holibrary_backend.Db.{Db, DeviceToken}
use holibrary_backend.Notifications.Invitations.{
  invitation_failed, invitation_sent, invitation_superseded,
}
use holibrary_backend.Notifications.Outbox.{
  PendingMessage, mark_sent, mark_superseded, mark_failed, device_tokens_of, revoke_device_token,
}
use holibrary_backend.Notifications.Worker.{
  Senders, Outcome, accepted, permanent, transient, record_failure, PushTally, tally, push_all,
  deliver_push,
}

abbrev is_accepted : Outcome → Bool
is_accepted accepted = true
is_accepted _ = false

abbrev pub is_transient : Outcome → Bool
is_transient transient = true
is_transient _ = false

abbrev pub takes : Senders → PendingMessage → DeviceToken → Bool
takes w m t = is_accepted (w.send_push m t.token)

abbrev pub stumbles : Senders → PendingMessage → DeviceToken → Bool
stumbles w m t = is_transient (w.send_push m t.token)

pub Outcome-cases : (o : Outcome) → (o ≡ accepted) ⊎ (o ≡ permanent) ⊎ (o ≡ transient)
Outcome-cases accepted = inl refl
Outcome-cases permanent = inr (inl refl)
Outcome-cases transient = inr (inr refl)

push_all-delivered :
    (w : Senders) (m : PendingMessage) (ts : List DeviceToken) (s : PushTally) (db : Db)
    → (push_all w m ts s db).0.delivered ≡ s.delivered + count_where (takes w m) ts
unfolding push_all count_where
push_all-delivered w m [] s db = omega arith
push_all-delivered w m (t ∷ ts) s db =
    let r = tally (w.send_push m t.token) t.token s db in
    let rest = push_all-delivered w m ts r.0 r.1 in
    elim (Outcome-cases (w.send_push m t.token)) [
      | inl e ↦ ground (arith, rest)
      | inr (inl e) ↦ ground (arith, rest)
      | inr (inr e) ↦ ground (arith, rest)
    ]

push_all-transient :
    (w : Senders) (m : PendingMessage) (ts : List DeviceToken) (s : PushTally) (db : Db)
    → (push_all w m ts s db).0.any_transient
      ≡ (s.any_transient || ltb 0 (count_where (stumbles w m) ts))
unfolding push_all count_where
push_all-transient w m [] s db = ground arith
push_all-transient w m (t ∷ ts) s db =
    let r = tally (w.send_push m t.token) t.token s db in
    let rest = push_all-transient w m ts r.0 r.1 in
    elim (Outcome-cases (w.send_push m t.token)) [
      | inl e ↦ ground (arith, rest)
      | inr (inl e) ↦ ground (arith, rest)
      | inr (inr e) ↦ ground (arith, rest)
    ]

push_all-outbox :
    (w : Senders) (m : PendingMessage) (ts : List DeviceToken) (s : PushTally) (db : Db)
    → (push_all w m ts s db).1.outbox ≡ db.outbox
unfolding push_all revoke_device_token
push_all-outbox w m [] s db = refl
push_all-outbox w m (t ∷ ts) s db =
    let r = tally (w.send_push m t.token) t.token s db in
    let rest = push_all-outbox w m ts r.0 r.1 in
    elim (Outcome-cases (w.send_push m t.token)) [
      | inl e ↦ ground (arith, rest)
      | inr (inl e) ↦ ground (arith, rest)
      | inr (inr e) ↦ ground (arith, rest)
    ]

pub List-cases :
    (ts : List DeviceToken)
    → (ts ≡ []) ⊎ ((t : DeviceToken) × (us : List DeviceToken) × (ts ≡ t ∷ us))
List-cases [] = inl refl
List-cases (t ∷ ts) = inr (t, ts, refl)

-- A push is recorded as sent exactly when at least one device took it; when none did it is left for
-- another try if some device failed for a passing reason, and is superseded otherwise, as it is when
-- the reader has no device.
pub push_outcome :
    (w : Senders) (m : PendingMessage) (db : Db)
    → let ts = device_tokens_of m.user_id db in
      (deliver_push w m db).outbox
      ≡ (if ltb 0 (count_where (takes w m) ts)
          then mark_sent m.id w.settled_at db
          else if ltb 0 (count_where (stumbles w m) ts)
          then mark_failed m.id db
          else mark_superseded m.id db).outbox
unfolding deliver_push count_where mark_sent mark_failed mark_superseded record_failure
    invitation_sent invitation_failed invitation_superseded
push_outcome w m db = elim (List-cases (device_tokens_of m.user_id db)) [
  | inl e ↦ rw (e, deliver_push) refl
  | inr (t, ts, e) ↦
      let start : PushTally = record { delivered = 0; any_transient = false } in
      rw (e, deliver_push)
        (ground (
          arith,
          push_all-delivered w m (t ∷ ts) start db,
          push_all-transient w m (t ∷ ts) start db,
          push_all-outbox w m (t ∷ ts) start db,
        ))
]
