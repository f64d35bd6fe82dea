-- ===== src/Reservations/Store.antt =====
-- ReservationRepo of internal/repository/postgres/reservation_repo.go. `now` is the database's clock.
-- A cancel by somebody else is also written to the server's log, which is not modelled.
use holibrary_backend.Prelude.{
  ℕ, ◌+◌, ◌==◌, ltb, Bool, true, false, ◌&&◌, Option, none, some, List, ◌∷◌, ok, err, if◌then◌else◌,
  not, find_where, update_where, count_where, first_where,
}
use holibrary_backend.Domain.{
  Copy, LoanPolicy, circulating, on_display, withdrawn, status_eq, Reservation, ReservationStatus,
  not_reservable, copies_available, already_reserved, not_found,
}
use holibrary_backend.Domain.Retention.{borrowable_count}
use holibrary_backend.Db.{Db, Tx}
use holibrary_backend.Db.Transaction.{◌>>=◌, ◌>>◌, guard, read}
use holibrary_backend.Circulation.Copies.{in_stock, on_the_shelf, is_waiting, earlier}

-- loan_policy IN ('circulating','on_display') AND status <> 'withdrawn'
abbrev pub reservable : ℕ → Copy → Bool
reservable b c =
    c.book_id == b && policy_reservable c.loan_policy && not (status_eq c.status withdrawn)
  where
    policy_reservable : LoanPolicy → Bool
    policy_reservable circulating = true
    policy_reservable on_display = true
    policy_reservable _ = false

abbrev pub is_pending : ReservationStatus → Bool
is_pending ReservationStatus.pending = true
is_pending _ = false

abbrev pub is_ready : ReservationStatus → Bool
is_ready ReservationStatus.ready = true
is_ready _ = false

-- The rows that the index one_open_reservation_per_user_book is over.
abbrev pub open_place : ℕ → ℕ → Reservation → Bool
open_place b user r = r.book_id == b && r.user_id == user && is_waiting r.status

abbrev pub queued_for : ℕ → Reservation → Bool
queued_for b r = r.book_id == b && is_pending r.status

-- SELECT count(*) + 1 ... status = 'pending' AND created_at < t
unfoldable pub queue_position : ℕ → ℕ → List Reservation → ℕ
queue_position b t rs = count_where (λ r. queued_for b r && ltb r.created_at t) rs + 1

abbrev pub new_reservation : ℕ → ℕ → ℕ → ℕ → Reservation
new_reservation i b user now = record {
  id = i;
  book_id = b;
  user_id = user;
  status = ReservationStatus.pending;
  created_at = now;
  notified_at = none;
  expires_at = none;
}

-- The INSERT of Create with the index that may refuse it. The position is counted over the rows that
-- the statement sees, which do not hold the new one.
unfoldable pub insert_reservation : ℕ → ℕ → ℕ → Tx (Reservation × ℕ)
insert_reservation b user now db = elim (find_where (open_place b user) db.reservations) [
  | some _ ↦ err already_reserved
  | none ↦ ok (
    (new_reservation db.next_id b user now, queue_position b now db.reservations),
    record db {
      reservations = new_reservation db.next_id b user now ∷ db.reservations;
      next_id = db.next_id + 1;
    },
  )
]

unfoldable pub create : ℕ → ℕ → ℕ → Tx (Reservation × ℕ)
create b user now = do
  copies ← read (λ db. db.copies)
  guard (not (count_where (reservable b) copies == 0)) not_reservable
  guard
      (not (
        ltb 0 (
          borrowable_count (count_where (in_stock b) copies)
            (count_where (on_the_shelf b) copies))))
      copies_available
  insert_reservation b user now

abbrev pub set_status : ReservationStatus → Reservation → Reservation
set_status s r = record r { status = s }

abbrev pub has_reservation_id : ℕ → Reservation → Bool
has_reservation_id i r = r.id == i

-- Cancel answers whether the reservation was ready, and its title.
unfoldable pub cancel : ℕ → ℕ → Tx (Bool × ℕ)
cancel i user db = elim (find_where (has_reservation_id i) db.reservations) [
  | none ↦ err not_found
  | some r ↦
      if not (r.user_id == user)
      then err not_found
      else if not (is_waiting r.status)
      then err not_found
      else ok (
        (is_ready r.status, r.book_id),
        record db {
          reservations =
              update_where (has_reservation_id i) (set_status ReservationStatus.cancelled)
                db.reservations;
        },
      )
]

abbrev pub make_ready : ℕ → ℕ → Reservation → Reservation
make_ready now hold r = record r {
  status = ReservationStatus.ready;
  notified_at = some now;
  expires_at = some (now + hold);
}

unfoldable pub promote_next : ℕ → ℕ → ℕ → Tx Reservation
promote_next b hold now db = elim (first_where (queued_for b) earlier db.reservations) [
  | none ↦ err not_found
  | some r ↦ ok (
    make_ready now hold r,
    record db {
      reservations = update_where (has_reservation_id r.id) (make_ready now hold) db.reservations;
    },
  )
]

-- expires_at < now(); NULL is not.
abbrev is_before : Option ℕ → ℕ → Bool
is_before none now = false
is_before (some t) now = ltb t now

abbrev pub is_stale : ℕ → Reservation → Bool
is_stale now r = is_ready r.status && is_before r.expires_at now

unfoldable pub expire_stale : ℕ → Db → ℕ × Db
expire_stale now db = (
  count_where (is_stale now) db.reservations,
  record db {
    reservations =
        update_where (is_stale now) (set_status ReservationStatus.expired) db.reservations;
  },
)
