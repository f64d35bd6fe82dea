-- ===== src/Library/Untouched.antt =====
-- The calls that write messages only: Queue, the reminder pass and the delivery worker.
use holibrary_backend.Prelude.{
  ℕ, ◌+◌, ◌≤◌, ◌≡◌, refl, ◌∙◌, true, false, List, [], ◌∷◌, take, inl, inr, arith,
}
use holibrary_backend.Domain.{Loan}
use holibrary_backend.Db.{Db, Channel, Template, Payload, DeviceToken}
use holibrary_backend.Circulation.Consistency.{IsConsistent}
use holibrary_backend.Circulation.Reminders.{
  remind, remind_all, notify_due_soon, list_loans, page_limit,
}
use holibrary_backend.Notifications.Invitations.{
  update_provider_id, invitation_failed, invitation_sent, invitation_superseded,
}
use holibrary_backend.Notifications.Queue.{queue}
use holibrary_backend.Notifications.Outbox.{
  PendingMessage, pending_messages, mark_sent, mark_superseded, mark_failed, device_tokens_of,
  revoke_device_token,
}
use holibrary_backend.Notifications.Worker.{
  Senders, PushTally, tally, record_failure, store_provider_id, settle_push, push_all, deliver_push,
  deliver, deliver_all, drain_once, run_tick,
}
use holibrary_backend.Notifications.PushLaws.{Outcome-cases, List-cases}
use holibrary_backend.Reservations.Uniqueness.{IsQueue}

-- Copies, loans and reservations stand as they did, and ids have only been drawn.
pub record Untouched (db db' : Db) : Type 0 where
  pub copies : db'.copies ≡ db.copies
  pub loans : db'.loans ≡ db.loans
  pub reservations : db'.reservations ≡ db.reservations
  pub ids : db.next_id ≤ db'.next_id

Untouched-refl : (db : Db) → Untouched db db
Untouched-refl db = record { copies = refl; loans = refl; reservations = refl; ids = omega arith }

pub Untouched-trans : (a b c : Db) → Untouched a b → Untouched b c → Untouched a c
Untouched-trans a b c s t = record {
  copies = t.copies ∙ s.copies;
  loans = t.loans ∙ s.loans;
  reservations = t.reservations ∙ s.reservations;
  ids = omega (arith, s.ids, t.ids);
}

pub kept-IsConsistent :
    (a b : Db)
    → b.copies ≡ a.copies
    → b.loans ≡ a.loans
    → a.next_id ≤ b.next_id
    → IsConsistent a
    → IsConsistent b
kept-IsConsistent a b c l n v = record {
  one_row = λ i. rw c (v.one_row i);
  one_loan = λ i. rw l (v.one_loan i);
  fresh = λ i h. rw l (v.fresh i (omega (arith, n, h)));
  agree = λ i. rw l (rw c (v.agree i));
}

pub kept-IsQueue :
    (a b : Db) → b.reservations ≡ a.reservations → a.next_id ≤ b.next_id → IsQueue a → IsQueue b
kept-IsQueue a b r n v = record {
  one_row = λ i. rw r (v.one_row i);
  fresh = λ i h. rw r (v.fresh i (omega (arith, n, h)));
  one_place = λ i j. rw r (v.one_place i j);
  deadlines = rw r v.deadlines;
}

pub queue-Untouched :
    (user : ℕ) (channel : Channel) (template : Template) (payload : Payload) (now : ℕ) (db : Db)
    → Untouched db (queue user channel template payload now db)
unfolding queue
queue-Untouched user channel template payload now db = record {
  copies = refl;
  loans = refl;
  reservations = refl;
  ids = omega arith;
}

remind-Untouched : (window now : ℕ) (l : Loan) (db : Db) → Untouched db (remind window now l db).1
unfolding remind queue
remind-Untouched window now l db = record {
  copies = ground arith;
  loans = ground arith;
  reservations = ground arith;
  ids = ground arith;
}

remind_all-Untouched :
    (window now : ℕ) (ls : List Loan) (queued : ℕ) (db : Db)
    → Untouched db (remind_all window now ls queued db).1
unfolding remind_all
remind_all-Untouched window now [] queued db = Untouched-refl db
remind_all-Untouched window now (l ∷ ls) queued db =
    let (n, mid) = remind window now l db in
    Untouched-trans db mid (remind_all window now ls (queued + n) mid).1
      (remind-Untouched window now l db) (remind_all-Untouched window now ls (queued + n) mid)

pub notify_due_soon-Untouched :
    (window now : ℕ) (db : Db) → Untouched db (notify_due_soon window now db).1
unfolding notify_due_soon
notify_due_soon-Untouched window now db =
    remind_all-Untouched window now (list_loans false true page_limit 0 now db.loans).0 0 db

push_all-Untouched :
    (w : Senders) (m : PendingMessage) (ts : List DeviceToken) (s : PushTally) (db : Db)
    → Untouched db (push_all w m ts s db).1
unfolding push_all revoke_device_token
push_all-Untouched w m [] s db = Untouched-refl db
push_all-Untouched w m (t ∷ ts) s db =
    let r = tally (w.send_push m t.token) t.token s db in
    let rest = push_all-Untouched w m ts r.0 r.1 in
    Untouched-trans db r.1 (push_all w m ts r.0 r.1).1
      (elim (Outcome-cases (w.send_push m t.token)) [
        | inl e ↦ rw e (Untouched-refl db)
        | inr (inl e) ↦
            rw e (record { copies = refl; loans = refl; reservations = refl; ids = omega arith })
        | inr (inr e) ↦ rw e (Untouched-refl db)
      ])
      rest

settle-Untouched :
    (w : Senders) (m : PendingMessage) (s : PushTally) (db : Db)
    → Untouched db (settle_push w m (s, db))
unfolding mark_sent invitation_sent mark_superseded invitation_superseded mark_failed
    invitation_failed record_failure
settle-Untouched w m s db = record {
  copies = ground arith;
  loans = ground arith;
  reservations = ground arith;
  ids = ground arith;
}

push-Untouched : (w : Senders) (m : PendingMessage) (db : Db) → Untouched db (deliver_push w m db)
unfolding deliver_push
push-Untouched w m db = elim (List-cases (device_tokens_of m.user_id db)) [
  | inl e ↦
      rw (e, deliver_push)
        (unfold mark_superseded invitation_superseded in
          record { copies = refl; loans = refl; reservations = refl; ids = omega arith })
  | inr (t, ts, e) ↦
      let start : PushTally = record { delivered = 0; any_transient = false } in
      let r = push_all w m (t ∷ ts) start db in
      rw (e, deliver_push)
        (Untouched-trans db r.1 (settle_push w m r) (push_all-Untouched w m (t ∷ ts) start db)
          (settle-Untouched w m r.0 r.1))
]

deliver-Untouched : (w : Senders) (m : PendingMessage) (db : Db) → Untouched db (deliver w m db)
unfolding deliver store_provider_id update_provider_id mark_sent invitation_sent mark_superseded
    invitation_superseded mark_failed invitation_failed record_failure
deliver-Untouched w m db =
    let p = push-Untouched w m db in
    record {
      copies = ground (arith, p.copies);
      loans = ground (arith, p.loans);
      reservations = ground (arith, p.reservations);
      ids = ground (arith, p.ids);
    }

deliver_all-Untouched :
    (w : Senders) (ms : List PendingMessage) (db : Db) → Untouched db (deliver_all w ms db)
unfolding deliver_all
deliver_all-Untouched w [] db = Untouched-refl db
deliver_all-Untouched w (m ∷ ms) db =
    Untouched-trans db (deliver w m db) (deliver_all w ms (deliver w m db))
      (deliver-Untouched w m db) (deliver_all-Untouched w ms (deliver w m db))

drain_once-Untouched :
    (w : Senders) (alive now : ℕ) (db : Db) → Untouched db (drain_once w alive now db).1
unfolding drain_once
drain_once-Untouched w alive now db =
    let (ms, mid) = pending_messages 20 now db in
    Untouched-trans db mid (deliver_all w (take alive ms) mid)
      (unfold pending_messages in
        record { copies = refl; loans = refl; reservations = refl; ids = omega arith })
      (deliver_all-Untouched w (take alive ms) mid)

pub run_tick-Untouched :
    (w : Senders) (alive now : ℕ) (db : Db) → Untouched db (run_tick w alive now db).1
unfolding run_tick
run_tick-Untouched w alive now db =
    let pass = drain_once-Untouched w alive now db in
    record {
      copies = ground (arith, pass.copies);
      loans = ground (arith, pass.loans);
      reservations = ground (arith, pass.reservations);
      ids = ground (arith, pass.ids);
    }
