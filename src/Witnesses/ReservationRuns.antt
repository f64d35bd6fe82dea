-- ===== src/Witnesses/ReservationRuns.antt =====
-- Places in the queue for titles 10 and 11 of the small library.
use holibrary_backend.Prelude.{
  ℕ, ◌+◌, ◌≡◌, ◌≢◌, refl, true, some, ok, err, count_where, find_where, first_where, update_where,
  arith,
}
use holibrary_backend.Domain.{Reservation, copies_available}
use holibrary_backend.Domain.Retention.{borrowable_count}
use holibrary_backend.Db.{Db, record_audit}
use holibrary_backend.Circulation.Copies.{book_of, has_id}
use holibrary_backend.Circulation.Borrow.{fulfilled, reservation_head}
use holibrary_backend.Reservations.Store.{
  create, insert_reservation, promote_next, make_ready, is_stale, is_ready, queued_for,
  has_reservation_id,
}
use holibrary_backend.Reservations.Service.{expire}
use holibrary_backend.Reservations.Order.{ahead}
use holibrary_backend.Reservations.CreateLaws.{created_result}
use holibrary_backend.Reservations.LineLaws.{IsLast, late_places, create-IsLast}
use holibrary_backend.Reservations.Uniqueness.{IsQueue, create-IsQueue}
use holibrary_backend.Reservations.Rules.{promoted, promote_fifo, expire_rules}
use holibrary_backend.Witnesses.Fixtures.{library, issued, copy_two}

-- One copy of title 10 is out, so the other is the one the library keeps.
abbrev lent_out : Db
lent_out = issued.1

lent_out-IsQueue : IsQueue lent_out
unfolding count_where record_audit fulfilled reservation_head book_of first_where find_where
lent_out-IsQueue = record {
  one_row = λ i. ground arith;
  fresh = λ i h. ground arith;
  one_place = λ b u. ground arith;
  deadlines = refl;
}

create-ok : create 10 8 60 lent_out ≡ ok (created_result 10 8 60 lent_out)
unfolding create insert_reservation borrowable_count count_where find_where update_where
    record_audit fulfilled reservation_head book_of first_where
create-ok = refl

abbrev reserved : Db
reserved = (created_result 10 8 60 lent_out).1

abbrev place : Reservation
place = (created_result 10 8 60 lent_out).0.0

create-IsLast_example : IsLast 10 8 place (created_result 10 8 60 lent_out).0.1 reserved
create-IsLast_example = create-IsLast 10 8 60 lent_out (created_result 10 8 60 lent_out) create-ok (
    unfold late_places record_audit fulfilled reservation_head book_of first_where find_where
      count_where in
    refl)

create-err : create 10 8 60 library ≡ err copies_available
unfolding create borrowable_count count_where
create-err = refl

reserved-IsQueue : IsQueue reserved
reserved-IsQueue =
    create-IsQueue 10 8 60 lent_out (created_result 10 8 60 lent_out) lent_out-IsQueue create-ok

abbrev promotion : Reservation × Db
promotion = (make_ready 70 30 place, promoted 30 70 place reserved)

promote-ok : promote_next 10 30 70 reserved ≡ ok promotion
unfolding promote_next first_where record_audit fulfilled reservation_head book_of find_where
promote-ok = refl

promote_fifo_example :
    (r : Reservation) × (queued_for 10 r ≡ true)
    × (ahead (queued_for 10) r reserved.reservations ≡ 0)
    × (promotion.0.id ≡ r.id)
    × (promotion.0.user_id ≡ r.user_id)
    × (is_ready promotion.0.status ≡ true)
    × (promotion.0.notified_at ≡ some 70)
    × (promotion.0.expires_at ≡ some (70 + 30))
    × (count_where (queued_for 10) promotion.1.reservations + 1
        ≡ count_where (queued_for 10) reserved.reservations)
promote_fifo_example = promote_fifo 10 30 70 reserved promotion reserved-IsQueue promote-ok

expire_rules_example :
    let (n, db') = expire 101 promotion.1 in
    (n ≡ ok (count_where (is_stale 101) promotion.1.reservations))
    × (count_where (is_stale 101) db'.reservations ≡ 0)
    × ((b : ℕ)
        → count_where (queued_for b) db'.reservations
          ≡ count_where (queued_for b) promotion.1.reservations)
    × (count_where (λ r. is_ready r.status) db'.reservations
          + count_where (is_stale 101) promotion.1.reservations
        ≡ count_where (λ r. is_ready r.status) promotion.1.reservations)
    × (db'.outbox ≡ promotion.1.outbox)
expire_rules_example = expire_rules 101 promotion.1

place_found : find_where (has_reservation_id 101) reserved.reservations ≡ some place
unfolding find_where record_audit fulfilled reservation_head book_of first_where
place_found = refl

not_ada : ◌≢◌ {A = ℕ} 8 7
not_ada e = omega (arith, e)

two_found : find_where (has_id 2) lent_out.copies ≡ some copy_two
unfolding find_where update_where record_audit fulfilled reservation_head book_of first_where
two_found = refl
