-- ===== src/Reservations/Rules.antt =====
-- What PromoteNext, ExpireStale and Cancel of reservation_repo.go and the service above them
-- guarantee, and how reserving and borrowing exclude one another.
use mathlib.Core.Path.{subst}
use holibrary_backend.Prelude.{
  ℕ, ◌+◌, ◌<◌, ◌≡◌, refl, sym, ap, ◌≢◌, ◌⊎◌, inl, inr, Bool, true, false, some, Result, ok, err,
  if◌then◌else◌, find_where, first_where, update_where, count_where, Option-cases, count-update_one,
  count-update_keep, count-update_loss, arith,
}
use holibrary_backend.Domain.{Reservation, ReservationStatus, Error, Loan, Copy, not_found}
use holibrary_backend.Db.{Db}
use holibrary_backend.Circulation.Copies.{earlier, has_id, is_waiting}
use holibrary_backend.Circulation.Consistency.{IsConsistent}
use holibrary_backend.Circulation.Borrow.{BorrowParams, borrow}
use holibrary_backend.Circulation.BorrowSafety.{borrow-ok_iff}
use holibrary_backend.Reservations.CreateLaws.{create-inv, spare_copies}
use holibrary_backend.Reservations.Store.{
  open_place, has_reservation_id, is_ready, queued_for, create, cancel, set_status, make_ready,
  promote_next, is_stale, expire_stale,
}
use holibrary_backend.Reservations.Service.{expire, cancel_reservation}
use holibrary_backend.Reservations.Order.{first_where-least, ahead}
use holibrary_backend.Reservations.Uniqueness.{IsQueue, bad_deadline, first_where-find}

abbrev pub promoted : ℕ → ℕ → Reservation → Db → Db
promoted hold now r db = record db {
  reservations = update_where (has_reservation_id r.id) (make_ready now hold) db.reservations;
}

ok-eq : {x y : Reservation × Db} → ◌≡◌ {A = Result Error (Reservation × Db)} (ok x) (ok y) → x ≡ y
ok-eq h = ground arith

pub promote-inv :
    (b hold now : ℕ) (db : Db) (s : Reservation × Db)
    → promote_next b hold now db ≡ ok s
    → (r : Reservation) × (first_where (queued_for b) earlier db.reservations ≡ some r)
      × ((make_ready now hold r, promoted hold now r db) ≡ s)
unfolding promote_next
promote-inv b hold now db s h =
    elim (Option-cases (first_where (queued_for b) earlier db.reservations)) [
      | inl n ↦ absurd (ground arith)
      | inr (r, e) ↦ (r, e, ground arith)
    ]

one_update :
    (q : Reservation → Bool) (b hold now : ℕ) (db : Db) (r : Reservation)
    → IsQueue db
    → first_where (queued_for b) earlier db.reservations ≡ some r
    → count_where q (promoted hold now r db).reservations + (if q r then 1 else 0)
      ≡ count_where q db.reservations + (if q (make_ready now hold r) then 1 else 0)
one_update q b hold now db r v e =
    count-update_one (has_reservation_id r.id) q (make_ready now hold) db.reservations r
      (v.one_row r.id) (first_where-find (queued_for b) db.reservations r e (v.one_row r.id))

promoted-IsQueue :
    (b hold now : ℕ) (db : Db) (r : Reservation)
    → IsQueue db
    → first_where (queued_for b) earlier db.reservations ≡ some r
    → IsQueue (promoted hold now r db)
promoted-IsQueue b hold now db r v e =
    let (pending, _) = first_where-least (queued_for b) db.reservations r e in
    record {
      one_row =
          λ i. ground (arith, v.one_row i, one_update (has_reservation_id i) b hold now db r v e);
      fresh =
          λ i h. ground (arith, v.fresh i, one_update (has_reservation_id i) b hold now db r v e);
      one_place = λ c u.
          ground (arith, pending, v.one_place c u, one_update (open_place c u) b hold now db r v e);
      deadlines = ground (arith, pending, v.deadlines, one_update bad_deadline b hold now db r v e);
    }

-- Promotion keeps the invariant of the queue.
pub promote-IsQueue :
    (b hold now : ℕ) (db : Db) (s : Reservation × Db)
    → IsQueue db
    → promote_next b hold now db ≡ ok s
    → IsQueue s.1
promote-IsQueue b hold now db s v h =
    let (r, e, q) = promote-inv b hold now db s h in
    subst (λ (x : Reservation × Db). IsQueue x.1) q (promoted-IsQueue b hold now db r v e)

-- Promotion is first come, first served: whoever is promoted was pending for the title and no pending
-- place for it is older, and leaves the line one shorter. The hold is ready, is told of now, has its
-- deadline `hold` from now, and is the same member's.
pub promote_fifo :
    (b hold now : ℕ) (db : Db) (s : Reservation × Db)
    → IsQueue db
    → promote_next b hold now db ≡ ok s
    → (r : Reservation) × (queued_for b r ≡ true)
      × (ahead (queued_for b) r db.reservations ≡ 0)
      × (s.0.id ≡ r.id)
      × (s.0.user_id ≡ r.user_id)
      × (is_ready s.0.status ≡ true)
      × (s.0.notified_at ≡ some now)
      × (s.0.expires_at ≡ some (now + hold))
      × (count_where (queued_for b) s.1.reservations + 1
          ≡ count_where (queued_for b) db.reservations)
promote_fifo b hold now db s v h =
    let (r, e, q) = promote-inv b hold now db s h in
    let (pending, least) = first_where-least (queued_for b) db.reservations r e in
    (
      r,
      pending,
      least,
      ap (λ (x : Reservation × Db). x.0.id) (sym q),
      ap (λ (x : Reservation × Db). x.0.user_id) (sym q),
      ap (λ (x : Reservation × Db). is_ready x.0.status) (sym q),
      ap (λ (x : Reservation × Db). x.0.notified_at) (sym q),
      ap (λ (x : Reservation × Db). x.0.expires_at) (sym q),
      subst
          (λ (x : Reservation × Db).
            count_where (queued_for b) x.1.reservations + 1
            ≡ count_where (queued_for b) db.reservations)
          q (ground (arith, pending, one_update (queued_for b) b hold now db r v e)),
    )

-- Expiry ends exactly the holds whose deadline has passed, answers how many there were, and touches
-- no pending place. Nobody is promoted or told: the number of ready places falls by the number
-- ended, and the outbox stays as it is.
pub expire_rules :
    (now : ℕ) (db : Db)
    → let (n, db') = expire now db in
      (n ≡ ok (count_where (is_stale now) db.reservations))
      × (count_where (is_stale now) db'.reservations ≡ 0)
      × ((b : ℕ)
          → count_where (queued_for b) db'.reservations
            ≡ count_where (queued_for b) db.reservations)
      × (count_where (λ r. is_ready r.status) db'.reservations
            + count_where (is_stale now) db.reservations
          ≡ count_where (λ r. is_ready r.status) db.reservations)
      × (db'.outbox ≡ db.outbox)
unfolding expire expire_stale
expire_rules now db = (
  refl,
  omega (
    arith,
    count-update_loss (is_stale now) (is_stale now) (set_status ReservationStatus.expired)
        db.reservations (λ r h. (h, refl)),
  ),
  (λ b.
      count-update_keep (is_stale now) (queued_for b) (set_status ReservationStatus.expired)
        db.reservations (λ r h. ground arith)),
  count-update_loss (is_stale now) (λ r. is_ready r.status) (set_status ReservationStatus.expired)
      db.reservations (λ r h. (ground arith, refl)),
  refl,
)

-- A member cannot cancel a place that is not theirs, nor one that has ended: the answer is that of an
-- unknown id, and the database stays as it is.
pub cancel_guarded :
    (i user now : ℕ) (db : Db) (r : Reservation)
    → find_where (has_reservation_id i) db.reservations ≡ some r
    → (r.user_id ≢ user) ⊎ (is_waiting r.status ≡ false)
    → cancel_reservation i user now db ≡ (err not_found, db)
unfolding cancel_reservation cancel
cancel_guarded i user now db r e h = ground arith

-- While a title can be reserved none of its copies can be borrowed, by anybody: a successful `Create`
-- and a successful borrow never start from one consistent database.
pub reserve_excludes_borrow :
    (b user now : ℕ) (db : Db) (s : (Reservation × ℕ) × Db) (p : BorrowParams) (self : Bool)
    (c : Copy)
    → IsConsistent db
    → create b user now db ≡ ok s
    → find_where (has_id p.copy_id) db.copies ≡ some c
    → c.book_id ≡ b
    → ¬ ((r : Loan × Db) × (borrow p self db ≡ ok r))
reserve_excludes_borrow b user now db s p self c v h e t k =
    let a = (borrow-ok_iff p self db v).0 k in
    let same : a.row ≡ c = ground (arith, a.is_row) in
    let spare : 0 < spare_copies c.book_id db =
      subst (λ (x : Copy). 0 < spare_copies x.book_id db) same a.spare in
    let spare_b : 0 < spare_copies b db = subst (λ (x : ℕ). 0 < spare_copies x db) t spare in
    absurd (omega (arith, spare_b, (create-inv b user now db s h).0.none_spare))
