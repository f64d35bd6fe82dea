-- ===== src/Reservations/Service.antt =====
-- ReservationService of internal/service/reservation_service.go.
use holibrary_backend.Prelude.{
  ℕ, ◌*◌, ◌==◌, Bool, true, false, ◌&&◌, none, some, Result, ok, err, if◌then◌else◌, not,
}
use holibrary_backend.Domain.{Error, Reservation, day, not_found}
use holibrary_backend.Db.{Db, Action, transact, Payload, email, push, reservation_ready}
use holibrary_backend.Circulation.Copies.{book_of}
use holibrary_backend.Notifications.Queue.{queue}
use holibrary_backend.Reservations.Store.{create, cancel, promote_next, expire_stale}

abbrev pub hold_period : ℕ
hold_period = 3 * day

abbrev ready_payload : Reservation → Payload
ready_payload r = record { loan_id = none; reservation_id = some r.id; token = none }

-- The two messages to the member whose hold is ready. Their errors are dropped by the source.
abbrev pub notify_ready : ℕ → Reservation → Db → Db
notify_ready now r db =
    queue r.user_id email reservation_ready (ready_payload r) now
      (queue r.user_id push reservation_ready (ready_payload r) now db)

unfoldable pub reserve : ℕ → ℕ → ℕ → Action (Reservation × ℕ)
reserve b member now = transact (create b member now)

unfoldable pub promote_and_notify : ℕ → ℕ → Db → Db
promote_and_notify b now db = elim (promote_next b hold_period now db) [
  | err _ ↦ db
  | ok (r, db') ↦ notify_ready now r db'
]

unfoldable pub cancel_reservation : ℕ → ℕ → ℕ → Action (Unit {0})
cancel_reservation i member now db = elim (cancel i member db) [
  | err e ↦ (err e, db)
  | ok ((was_ready, b), db') ↦
      (ok tt, if was_ready && not (b == 0) then promote_and_notify b now db' else db')
]

-- Nobody waiting is the ordinary case, and no error.
abbrev hook_error : Error → Result Error Bool
hook_error not_found = ok false
hook_error e = err e

unfoldable pub on_copy_returned : ℕ → ℕ → Action Bool
on_copy_returned copy now db = elim (book_of copy db.copies) [
  | none ↦ (err not_found, db)
  | some b ↦ elim (promote_next b hold_period now db) [
    | err e ↦ (hook_error e, db)
    | ok (r, db') ↦ (ok true, notify_ready now r db')
  ]
]

unfoldable pub expire : ℕ → Action ℕ
expire now db = let (n, db') = expire_stale now db in (ok n, db')
