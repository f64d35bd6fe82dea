-- ===== src/Notifications/WorkerLaws.antt =====
-- What a pass of the delivery worker guarantees, and what it loses: internal/queue/worker.go,
-- `drainOnce` and `deliver`.
use mathlib.Core.Path.{subst}
use holibrary_backend.Prelude.{
  Option, none, some, ℕ, zero, suc, ◌≤◌, true, false, Bool, not, ◌||◌, ◌&&◌, ◌==◌, Bool-cases, some,
  List, [], ◌∷◌, ◌≡◌, refl, ap, count_where, find_where, find_where_key, find_where-true,
  find-update_hit, count-update_le, length, take, inl, inr, ◌⊎◌, ok, arith,
}
use holibrary_backend.Domain.{Loan}
use holibrary_backend.Db.{
  Db, DeviceToken, OutboxStatus, Template, loan_due_soon, loan_overdue, Payload,
}
use holibrary_backend.Circulation.Copies.{is_open}
use holibrary_backend.Circulation.Consistency.{IsConsistent, has_loan_id}
use holibrary_backend.Circulation.Return.{return_loan, is_closable, close}
use holibrary_backend.Circulation.ReturnLaws.{return-inv}
use holibrary_backend.Notifications.Invitations.{
  update_provider_id, invitation_sent, invitation_failed, invitation_superseded,
}
use holibrary_backend.Notifications.Outbox.{
  PendingMessage, pending_messages, still_relevant, mark_sent, mark_superseded, mark_failed,
  fail_row, device_tokens_of, has_row_id, set_row,
}
use holibrary_backend.Notifications.OutboxLaws.{
  has_message, IsIdle, waits, pending_messages-IsIdle, idle-pending_messages, pending_bounded,
}
use holibrary_backend.Notifications.PushLaws.{push_outcome, is_transient, stumbles, Outcome-cases}
use holibrary_backend.Notifications.Worker.{
  Senders, record_failure, store_provider_id, deliver_push, deliver, deliver_all, drain_once,
  has_sender, run_tick,
}

length-take-fewer : (n : ℕ) (ms : List PendingMessage) → length (take n ms) ≤ length ms
length-take-fewer zero ms = omega arith
length-take-fewer (suc n) [] = omega arith
length-take-fewer (suc n) (m ∷ ms) = omega (arith, length-take-fewer n ms)

-- A pass takes at most 20 messages.
drain_bound : (w : Senders) (alive now : ℕ) (db : Db) → (drain_once w alive now db).0 ≤ 20
unfolding drain_once
drain_bound w alive now db =
    omega
      (arith, length-take-fewer alive (pending_messages 20 now db).0, (pending_bounded 20 now db).0)

superseded-IsIdle : (i j : ℕ) (db : Db) → IsIdle i db → IsIdle i (mark_superseded j db)
unfolding mark_superseded invitation_superseded
superseded-IsIdle i j db h = omega (
  arith,
  h,
  count-update_le (has_row_id j) (waits i) (set_row OutboxStatus.superseded) db.outbox
      (λ r a b. ground arith),
)

-- No send fails for a passing reason.
pub record IsSteady (w : Senders) : Type 0 where
  pub mail : (m : PendingMessage) → is_transient (w.send m) ≡ false
  pub pushes : (m : PendingMessage) (t : ℕ) → is_transient (w.send_push m t) ≡ false

no_stumble :
    (w : Senders) (m : PendingMessage) (ts : List DeviceToken)
    → IsSteady w
    → count_where (stumbles w m) ts ≡ 0
unfolding count_where
no_stumble w m [] k = refl
no_stumble w m (t ∷ ts) k = ground (arith, k.pushes m t.token, no_stumble w m ts k)

sent-IsIdle : (i j now : ℕ) (db : Db) → IsIdle i db → IsIdle i (mark_sent j now db)
unfolding mark_sent invitation_sent
sent-IsIdle i j now db h = omega (
  arith,
  h,
  count-update_le (has_row_id j) (waits i) (set_row OutboxStatus.sent) db.outbox
      (λ r a b. ground arith),
)

store-IsIdle :
    (i j now : ℕ) (provider : Option ℕ) (db : Db)
    → IsIdle i db
    → IsIdle i (store_provider_id j provider now db)
unfolding store_provider_id update_provider_id
store-IsIdle i j now none db h = h
store-IsIdle i j now (some p) db h = h

push-IsIdle :
    (w : Senders) (i : ℕ) (m : PendingMessage) (db : Db)
    → IsSteady w
    → IsIdle i db
    → IsIdle i (deliver_push w m db)
push-IsIdle w i m db k h = ground (
  arith,
  ap (λ outbox. count_where (waits i) outbox) (push_outcome w m db),
  superseded-IsIdle i m.id db h,
  sent-IsIdle i m.id w.settled_at db h,
  no_stumble w m (device_tokens_of m.user_id db) k,
)

deliver-IsIdle :
    (w : Senders) (i : ℕ) (m : PendingMessage) (db : Db)
    → IsSteady w
    → IsIdle i db
    → IsIdle i (deliver w m db)
unfolding deliver record_failure
deliver-IsIdle w i m db k h = elim (Outcome-cases (w.send m)) [
  | inl e ↦
      let stored = store_provider_id m.id (w.provider_id m) w.settled_at db in
      let kept = store-IsIdle i m.id w.settled_at (w.provider_id m) db h in
      ground (
        arith,
        superseded-IsIdle i m.id db h,
        sent-IsIdle i m.id w.settled_at stored kept,
        push-IsIdle w i m db k h,
      )
  | inr (inl e) ↦ ground (arith, superseded-IsIdle i m.id db h, push-IsIdle w i m db k h)
  | inr (inr e) ↦ absurd (ground (arith, k.mail m))
]

deliver_all-IsIdle :
    (w : Senders) (i : ℕ) (ms : List PendingMessage) (db : Db)
    → IsSteady w
    → IsIdle i db
    → IsIdle i (deliver_all w ms db)
unfolding deliver_all
deliver_all-IsIdle w i [] db k h = h
deliver_all-IsIdle w i (m ∷ ms) db k h =
    deliver_all-IsIdle w i ms (deliver w m db) k (deliver-IsIdle w i m db k h)

-- When no send fails for a passing reason, a message that a pass takes is returned by no later Pending,
-- whether or not the pass came to it.
pub at_most_once :
    (w : Senders) (i alive now limit later : ℕ) (db : Db)
    → IsSteady w
    → has_message i (pending_messages 20 now db).0 ≡ true
    → has_message i (pending_messages limit later (drain_once w alive now db).1).0 ≡ false
unfolding drain_once
at_most_once w i alive now limit later db k h =
    idle-pending_messages i limit later (drain_once w alive now db).1 (
      deliver_all-IsIdle w i (take alive (pending_messages 20 now db).0)
        (pending_messages 20 now db).1 k (pending_messages-IsIdle i 20 now db h))

failed-IsIdle : (i j : ℕ) (db : Db) → j == i ≡ false → IsIdle i db → IsIdle i (mark_failed j db)
unfolding mark_failed invitation_failed
failed-IsIdle i j db n h = omega (
  arith,
  h,
  count-update_le (has_row_id j) (waits i) fail_row db.outbox (λ r a b. ground (arith, n)),
)

push-IsIdle_other :
    (w : Senders) (i : ℕ) (m : PendingMessage) (db : Db)
    → m.id == i ≡ false
    → IsIdle i db
    → IsIdle i (deliver_push w m db)
push-IsIdle_other w i m db n h = ground (
  arith,
  ap (λ outbox. count_where (waits i) outbox) (push_outcome w m db),
  superseded-IsIdle i m.id db h,
  sent-IsIdle i m.id w.settled_at db h,
  failed-IsIdle i m.id db n h,
)

deliver-IsIdle_other :
    (w : Senders) (i : ℕ) (m : PendingMessage) (db : Db)
    → m.id == i ≡ false
    → IsIdle i db
    → IsIdle i (deliver w m db)
unfolding deliver record_failure
deliver-IsIdle_other w i m db n h = elim (Outcome-cases (w.send m)) [
  | inl e ↦
      let stored = store_provider_id m.id (w.provider_id m) w.settled_at db in
      let kept = store-IsIdle i m.id w.settled_at (w.provider_id m) db h in
      ground (
        arith,
        superseded-IsIdle i m.id db h,
        sent-IsIdle i m.id w.settled_at stored kept,
        push-IsIdle_other w i m db n h,
      )
  | inr (inl e) ↦ ground (arith, superseded-IsIdle i m.id db h, push-IsIdle_other w i m db n h)
  | inr (inr e) ↦ ground (
    arith,
    superseded-IsIdle i m.id db h,
    failed-IsIdle i m.id db n h,
    push-IsIdle_other w i m db n h,
  )
]

-- The messages with this id are for channels without a sender.
unfoldable pub is_stranded : Senders → ℕ → List PendingMessage → Bool
is_stranded w i [] = true
is_stranded w i (m ∷ ms) = (not (m.id == i) || not (w.configured m.channel)) && is_stranded w i ms

stranded-IsIdle :
    (w : Senders) (i n : ℕ) (ms : List PendingMessage) (db : Db)
    → is_stranded w i ms ≡ true
    → IsIdle i db
    → IsIdle i (deliver_all w (take n ms) db)
unfolding is_stranded deliver_all
stranded-IsIdle w i zero ms db s h = h
stranded-IsIdle w i (suc n) [] db s h = h
stranded-IsIdle w i (suc n) (m ∷ ms) db s h =
    stranded-IsIdle w i n ms (deliver w m db) (ground arith) (elim (Bool-cases (m.id == i)) [
      | inl t ↦ unfold deliver in ground (arith, superseded-IsIdle i m.id db h)
      | inr f ↦ deliver-IsIdle_other w i m db f h
    ])

-- A message that a running worker takes for a channel without a sender is lost, while another channel
-- has one: neither that pass nor any later Pending gives it out again.
pub lost_without_sender :
    (w : Senders) (i alive now limit later : ℕ) (db : Db)
    → has_sender w ≡ true
    → has_message i (pending_messages 20 now db).0 ≡ true
    → is_stranded w i (pending_messages 20 now db).0 ≡ true
    → has_message i (pending_messages limit later (run_tick w alive now db).1).0 ≡ false
unfolding run_tick drain_once
lost_without_sender w i alive now limit later db r h s =
    let lost = idle-pending_messages i limit later (drain_once w alive now db).1 (
      stranded-IsIdle w i alive (pending_messages 20 now db).0 (pending_messages 20 now db).1 s
        (pending_messages-IsIdle i 20 now db h)) in
    rw r lost

closed_after :
    (i staff now : ℕ) (db : Db) (r : Loan × Db)
    → IsConsistent db
    → return_loan i staff now db ≡ ok r
    → (l : Loan) × (find_where (has_loan_id i) r.1.loans ≡ some l) × (is_open l ≡ false)
closed_after i staff now db r v h =
    let (l, e, q) = return-inv i staff now db r h in
    let same =
      find_where_key (is_closable i) (has_loan_id i) db.loans l (λ y t. ground arith) (v.one_loan i)
        e in
    let found =
      find-update_hit (is_closable i) (has_loan_id i) (close now staff) db.loans l (λ y t. refl)
        same (find_where-true (is_closable i) db.loans l e) in
    (
      close now staff l,
      subst (λ (s : Loan × Db). find_where (has_loan_id i) s.1.loans ≡ some (close now staff l)) q
          found,
      refl,
    )

stale-still_relevant :
    (t : Template) (p : Payload) (i : ℕ) (db : Db) (l : Loan)
    → (t ≡ loan_due_soon) ⊎ (t ≡ loan_overdue)
    → p.loan_id ≡ some i
    → find_where (has_loan_id i) db.loans ≡ some l
    → is_open l ≡ false
    → still_relevant t p db ≡ false
unfolding still_relevant
stale-still_relevant loan_due_soon p i db l t e f c = ground arith
stale-still_relevant loan_overdue p i db l t e f c = ground arith
stale-still_relevant _ p i db l t e f c = elim t [
  | inl q ↦ absurd (ground arith)
  | inr q ↦ absurd (ground arith)
]

stale-deliver :
    (w : Senders) (m : PendingMessage) (db : Db)
    → still_relevant m.template m.payload db ≡ false
    → deliver w m db ≡ mark_superseded m.id db
unfolding deliver
stale-deliver w m db h = ground arith

-- In a consistent database, once a loan is returned no reminder about it goes out: whatever the
-- senders are, the worker marks a queued due-soon or overdue message for the loan as superseded.
pub no_reminder_after_return :
    (w : Senders) (m : PendingMessage) (i staff now : ℕ) (db : Db) (r : Loan × Db)
    → IsConsistent db
    → return_loan i staff now db ≡ ok r
    → m.payload.loan_id ≡ some i
    → (m.template ≡ loan_due_soon) ⊎ (m.template ≡ loan_overdue)
    → deliver w m r.1 ≡ mark_superseded m.id r.1
no_reminder_after_return w m i staff now db r v h p t =
    let (l, found, closed) = closed_after i staff now db r v h in
    stale-deliver w m r.1 (stale-still_relevant m.template m.payload i r.1 l t p found closed)
