-- ===== src/Library/QueueSteps.antt =====
-- Returns and the calls of the reservation service keep both invariants.
use mathlib.Core.Path.{subst}
use holibrary_backend.Prelude.{
  Result-cases, ℕ, ◌==◌, ◌≤◌, ◌≡◌, refl, Bool, true, false, ◌&&◌, not, none, some, ok,
  if◌then◌else◌, inl, inr, Option-cases, arith,
}
use holibrary_backend.Domain.{Loan, Reservation}
use holibrary_backend.Db.{Db, Tx, transact, record_audit}
use holibrary_backend.Circulation.Copies.{book_of}
use holibrary_backend.Circulation.Consistency.{IsConsistent, lent, one_row-update}
use holibrary_backend.Circulation.Return.{return_loan, shelve}
use holibrary_backend.Circulation.ReturnLaws.{returned, return-inv, return-IsConsistent}
use holibrary_backend.Circulation.Desk.{return_at_desk}
use holibrary_backend.Notifications.Queue.{queue}
use holibrary_backend.Reservations.Store.{create, cancel, promote_next, expire_stale}
use holibrary_backend.Reservations.Service.{
  reserve, cancel_reservation, promote_and_notify, on_copy_returned, hold_period, notify_ready,
  expire,
}
use holibrary_backend.Reservations.CreateLaws.{created, create-inv}
use holibrary_backend.Reservations.Uniqueness.{
  IsQueue, create-IsQueue, cancel-IsQueue, expire_stale-IsQueue,
}
use holibrary_backend.Reservations.Rules.{promote-IsQueue, promote-inv}
use holibrary_backend.Library.Untouched.{
  Untouched, Untouched-trans, kept-IsConsistent, kept-IsQueue, queue-Untouched,
}
use holibrary_backend.Db.{Payload, email, push, reservation_ready}
use holibrary_backend.Library.LendSteps.{
  IsSound, Untouched-IsSound, IsDrawn, kept-IsDrawn, same-IsDrawn,
}

notify_ready-Untouched :
    (now : ℕ) (r : Reservation) (db : Db) → Untouched db (notify_ready now r db)
notify_ready-Untouched now r db =
    let p : Payload = record { loan_id = none; reservation_id = some r.id; token = none } in
    Untouched-trans db (queue r.user_id push reservation_ready p now db) (notify_ready now r db)
      (queue-Untouched r.user_id push reservation_ready p now db)
      (queue-Untouched r.user_id email reservation_ready p now
        (queue r.user_id push reservation_ready p now db))

promote-IsSound :
    (b hold now : ℕ) (db : Db) (s : Reservation × Db)
    → IsSound db
    → promote_next b hold now db ≡ ok s
    → IsSound s.1
promote-IsSound b hold now db s v h =
    let (r, e, q) = promote-inv b hold now db s h in
    record {
      consistent =
          subst (λ (x : Reservation × Db). IsConsistent x.1) q
            (record {
              one_row = v.consistent.one_row;
              one_loan = v.consistent.one_loan;
              fresh = v.consistent.fresh;
              agree = v.consistent.agree;
            });
      queue = promote-IsQueue b hold now db s v.queue h;
      drawn = subst (λ (x : Reservation × Db). IsDrawn x.1) q (unfold IsDrawn in v.drawn);
    }

ready-IsSound :
    (b now : ℕ) (db : Db) (s : Reservation × Db)
    → IsSound db
    → promote_next b hold_period now db ≡ ok s
    → IsSound (notify_ready now s.0 s.1)
ready-IsSound b now db s v h =
    Untouched-IsSound s.1 (notify_ready now s.0 s.1) (notify_ready-Untouched now s.0 s.1)
      (promote-IsSound b hold_period now db s v h)

promotion-IsSound : (b now : ℕ) (db : Db) → IsSound db → IsSound (promote_and_notify b now db)
unfolding promote_and_notify
promotion-IsSound b now db v = elim (Result-cases (promote_next b hold_period now db)) [
  | inl (e, h) ↦ rw (h, promote_and_notify) v
  | inr (s, h) ↦ rw (h, promote_and_notify) (ready-IsSound b now db s v h)
]

hook-IsSound : (copy now : ℕ) (db : Db) → IsSound db → IsSound (on_copy_returned copy now db).1
unfolding on_copy_returned
hook-IsSound copy now db v = elim (Option-cases (book_of copy db.copies)) [
  | inl n ↦ rw (n, on_copy_returned) v
  | inr (b, f) ↦ elim (Result-cases (promote_next b hold_period now db)) [
    | inl (e, h) ↦ rw (f, on_copy_returned) (rw h v)
    | inr (s, h) ↦ rw (f, on_copy_returned) (rw h (ready-IsSound b now db s v h))
  ]
]

returned-IsSound :
    (i staff now : ℕ) (db : Db) (r : Loan × Db)
    → IsSound db
    → return_loan i staff now db ≡ ok r
    → IsSound r.1
unfolding record_audit
returned-IsSound i staff now db r v h =
    let (l, e, q) = return-inv i staff now db r h in
    record {
      consistent = return-IsConsistent i staff now db r v.consistent h;
      queue =
          subst (λ (x : Loan × Db). IsQueue x.1) q
            (kept-IsQueue db (returned i staff now l db) refl (omega arith) v.queue);
      drawn =
          subst (λ (x : Loan × Db). IsDrawn x.1) q
            (kept-IsDrawn db (returned i staff now l db)
              (λ j.
                one_row-update (lent l.copy_id) shelve l.copy_id (λ c h. ground arith) (λ c. refl)
                  db.copies j)
              (omega arith) v.drawn);
    }

pub return-IsSound :
    (hooked : Bool) (i librarian now : ℕ) (db : Db)
    → IsSound db
    → IsSound (return_at_desk hooked i librarian now db).1
unfolding return_at_desk
return-IsSound hooked i librarian now db v = elim (Result-cases (return_loan i librarian now db)) [
  | inl (e, h) ↦ rw (h, return_at_desk) v
  | inr (r, h) ↦
      rw (h, return_at_desk) (hooked_step hooked r (returned-IsSound i librarian now db r v h))
]
  where
    hooked_step :
        (b : Bool) (r : Loan × Db)
        → IsSound r.1
        → IsSound (if b then (on_copy_returned r.0.copy_id now r.1).1 else r.1)
    hooked_step true r w = hook-IsSound r.0.copy_id now r.1 w
    hooked_step false r w = w

transact-IsSound :
    {A : Type 0} (m : Tx A) (db : Db)
    → IsSound db
    → ((r : A × Db) → m db ≡ ok r → IsSound r.1)
    → IsSound (transact m db).1
transact-IsSound m db v k = elim (Result-cases (m db)) [
  | inl (e, h) ↦ rw (h, transact) v
  | inr (r, h) ↦ rw (h, transact) (k r h)
]

created-IsSound :
    (b user now : ℕ) (db : Db) (r : (Reservation × ℕ) × Db)
    → IsSound db
    → create b user now db ≡ ok r
    → IsSound r.1
created-IsSound b user now db r v h =
    let (m, q) = create-inv b user now db r h in
    record {
      consistent =
          subst (λ (x : (Reservation × ℕ) × Db). IsConsistent x.1) q
            (kept-IsConsistent db (created b user now db) refl refl (omega arith) v.consistent);
      queue = create-IsQueue b user now db r v.queue h;
      drawn =
          subst (λ (x : (Reservation × ℕ) × Db). IsDrawn x.1) q
            (same-IsDrawn db (created b user now db) refl (omega arith) v.drawn);
    }

pub reserve-IsSound : (b user now : ℕ) (db : Db) → IsSound db → IsSound (reserve b user now db).1
unfolding reserve
reserve-IsSound b user now db v =
    transact-IsSound (create b user now) db v (λ r h. created-IsSound b user now db r v h)

cancelled_tables :
    (i user : ℕ) (db : Db) (r : (Bool × ℕ) × Db)
    → cancel i user db ≡ ok r
    → (r.1.copies ≡ db.copies) × (r.1.loans ≡ db.loans) × (db.next_id ≤ r.1.next_id)
unfolding cancel
cancelled_tables i user db r h = ground arith

cancelled-IsSound :
    (i user : ℕ) (db : Db) (r : (Bool × ℕ) × Db)
    → IsSound db
    → cancel i user db ≡ ok r
    → IsSound r.1
cancelled-IsSound i user db r v h =
    let (c, l, n) = cancelled_tables i user db r h in
    record {
      consistent = kept-IsConsistent db r.1 c l n v.consistent;
      queue = cancel-IsQueue i user db r v.queue h;
      drawn = same-IsDrawn db r.1 c n v.drawn;
    }

pub cancel_reservation-IsSound :
    (i user now : ℕ) (db : Db) → IsSound db → IsSound (cancel_reservation i user now db).1
unfolding cancel_reservation
cancel_reservation-IsSound i user now db v = elim (Result-cases (cancel i user db)) [
  | inl (e, h) ↦ rw (h, cancel_reservation) v
  | inr (r, h) ↦
      rw (h, cancel_reservation)
        (passed_on (r.0.0 && not (r.0.1 == 0)) r.0.1 r.1 (cancelled-IsSound i user db r v h))
]
  where
    passed_on :
        (t : Bool) (b : ℕ) (d : Db)
        → IsSound d
        → IsSound (if t then promote_and_notify b now d else d)
    passed_on true b d w = promotion-IsSound b now d w
    passed_on false b d w = w

pub expire-IsSound : (now : ℕ) (db : Db) → IsSound db → IsSound (expire now db).1
unfolding expire expire_stale
expire-IsSound now db v = record {
  consistent = kept-IsConsistent db (expire_stale now db).1 refl refl (omega arith) v.consistent;
  queue = expire_stale-IsQueue now db v.queue;
  drawn = same-IsDrawn db (expire_stale now db).1 refl (omega arith) v.drawn;
}
