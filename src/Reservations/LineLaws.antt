-- ===== src/Reservations/LineLaws.antt =====
-- Where Create of reservation_repo.go puts a member in the line that PromoteNext serves.
use mathlib.Core.Path.{subst}
use holibrary_backend.Prelude.{
  ℕ, suc, ==_iff, ◌≡◌, refl, sym, ap, ◌∙◌, Bool, true, ◌&&◌, not, none, some, List, [], ◌∷◌, ok,
  ltb, count_where, first_where, arith,
}
use holibrary_backend.Domain.{Reservation}
use holibrary_backend.Db.{Db}
use holibrary_backend.Circulation.Copies.{earlier}
use holibrary_backend.Reservations.Store.{
  queued_for, create, new_reservation, queue_position, promote_next, make_ready,
}
use holibrary_backend.Reservations.CreateLaws.{create-inv, created_result}
use holibrary_backend.Reservations.Order.{ahead}
use holibrary_backend.Reservations.Rules.{promote-inv}

-- A pending place for the title that was not made before `now`.
abbrev is_late : ℕ → ℕ → Reservation → Bool
is_late b now r = queued_for b r && not (ltb r.created_at now)

-- How many places for the title in the line were not made before `now`.
unfoldable pub late_places : ℕ → ℕ → Db → ℕ
late_places b now db = count_where (is_late b now) db.reservations

position_in_line :
    (b now : ℕ) (rs : List Reservation)
    → count_where (is_late b now) rs ≡ 0
    → queue_position b now rs ≡ suc (count_where (queued_for b) rs)
unfolding queue_position count_where
position_in_line b now [] h = omega arith
position_in_line b now (r ∷ rs) h = ground (arith, position_in_line b now rs)

ahead_in_line :
    (b now i user : ℕ) (rs : List Reservation)
    → count_where (is_late b now) rs ≡ 0
    → ahead (queued_for b) (new_reservation i b user now) rs ≡ count_where (queued_for b) rs
unfolding count_where
ahead_in_line b now i user [] h = refl
ahead_in_line b now i user (r ∷ rs) h = ground (arith, ahead_in_line b now i user rs)

no_first :
    (p : Reservation → Bool) (rs : List Reservation)
    → count_where p rs ≡ 0
    → first_where p earlier rs ≡ none
unfolding count_where first_where
no_first p [] h = refl
no_first p (r ∷ rs) h = ground (arith, no_first p rs)

next_is_new :
    (b i user now : ℕ) (rs : List Reservation) (r : Reservation)
    → count_where (queued_for b) rs ≡ 0
    → first_where (queued_for b) earlier (new_reservation i b user now ∷ rs) ≡ some r
    → r ≡ new_reservation i b user now
unfolding first_where
next_is_new b i user now rs r z f = ground (arith, ==_iff b b, no_first (queued_for b) rs z)

-- What a member who joins is told, and where the member stands.
pub record IsLast (b user : ℕ) (place : Reservation) (position : ℕ) (db : Db) : Type 0 where
  pub pending : queued_for b place ≡ true
  pub own : place.user_id ≡ user
  pub open_ended : place.expires_at ≡ none
  pub length_of_line : position ≡ count_where (queued_for b) db.reservations
  pub others_ahead : position ≡ suc (ahead (queued_for b) place db.reservations)
  pub next_if_first :
      (hold later : ℕ) (s : Reservation × Db)
      → position ≡ 1
      → promote_next b hold later db ≡ ok s
      → s.0 ≡ make_ready later hold place

joined :
    (b user now : ℕ) (db : Db)
    → late_places b now db ≡ 0
    → (position : ℕ) → position ≡ queue_position b now db.reservations
    → IsLast b user
        (new_reservation db.next_id b user now)
        position
        (created_result b user now db).1
unfolding late_places count_where
joined b user now db h position q =
    let line = q ∙ position_in_line b now db.reservations h in
    record {
      pending = ground (arith, ==_iff b b);
      own = refl;
      open_ended = refl;
      length_of_line = ground (arith, line, ==_iff b b);
      others_ahead = ground (arith, line, ahead_in_line b now db.next_id user db.reservations h);
      next_if_first = λ hold later s one e.
          let (r, f, t) = promote-inv b hold later (created_result b user now db).1 s e in
          ap (λ (x : Reservation × Db). x.0) (sym t)
          ∙ ap (make_ready later hold)
              (next_is_new b db.next_id user now db.reservations r (omega (arith, line, one)) f);
    }

-- A member who reserves a title when every pending place for it is older than now is put at the end of
-- its line: the place is pending, the member's and without a deadline, the position that is told is the
-- length of the line and one more than the places that PromoteNext serves before, and where it is 1, the
-- next promotion makes this place ready.
pub create-IsLast :
    (b user now : ℕ) (db : Db) (r : (Reservation × ℕ) × Db)
    → create b user now db ≡ ok r
    → late_places b now db ≡ 0
    → IsLast b user r.0.0 r.0.1 r.1
create-IsLast b user now db r h l =
    let (_, q) = create-inv b user now db r h in
    subst (λ (x : (Reservation × ℕ) × Db). IsLast b user x.0.0 x.0.1 x.1) q
      (joined b user now db l (queue_position b now db.reservations) refl)
