-- ===== src/Reservations/Uniqueness.antt =====
-- The invariant of the reservations table and the statements of reservation_repo.go and
-- circulation_repo.go that keep it.
use mathlib.Core.Path.{subst}
use holibrary_backend.Prelude.{
  ℕ, ◌≤◌, ◌<◌, ◌≡◌, refl, ◌∙◌, inl, inr, Bool, true, ◌&&◌, ◌||◌, not, is_some, Option, none, some,
  List, [], ◌∷◌, ok, find_where, first_where, update_where, count_where, Bool-cases, Option-cases,
  count-update_le, count-update_keep, count_where_zero, arith,
}
use holibrary_backend.Domain.{Reservation, ReservationStatus}
use holibrary_backend.Db.{Db}
use holibrary_backend.Circulation.Copies.{earlier}
use holibrary_backend.Circulation.Borrow.{fulfilled, is_own_waiting}
use holibrary_backend.Reservations.Store.{
  open_place, has_reservation_id, is_pending, is_ready, create, cancel, set_status, is_stale,
  expire_stale,
}
use holibrary_backend.Reservations.CreateLaws.{MayReserve, created, create-inv}

-- A hold with no deadline, or a deadline on one who still waits.
abbrev pub bad_deadline : Reservation → Bool
bad_deadline r =
    is_ready r.status && not (is_some r.expires_at) || is_pending r.status && is_some r.expires_at

-- Keys are unique and fresh, a member has one open place in the queue of a title at most, and a
-- reservation has a deadline when it is ready and none while it is pending.
pub record IsQueue (db : Db) : Type 0 where
  pub one_row : (i : ℕ) → count_where (has_reservation_id i) db.reservations ≤ 1
  pub fresh : (i : ℕ) → db.next_id ≤ i → count_where (has_reservation_id i) db.reservations ≡ 0
  pub one_place : (b user : ℕ) → count_where (open_place b user) db.reservations ≤ 1
  pub deadlines : count_where bad_deadline db.reservations ≡ 0

-- An update that keeps ids and opens no place.
quiet_update :
    (p : Reservation → Bool) (f : Reservation → Reservation) (db : Db)
    → ((r : Reservation) → (f r).id ≡ r.id)
    → ((b user : ℕ) (r : Reservation)
        → p r ≡ true
        → open_place b user (f r) ≡ true
        → open_place b user r ≡ true)
    → ((r : Reservation) → p r ≡ true → bad_deadline (f r) ≡ true → bad_deadline r ≡ true)
    → IsQueue db
    → IsQueue (record db { reservations = update_where p f db.reservations })
quiet_update p f db same place deadline v = record {
  one_row = λ i. omega (arith, v.one_row i, keep i);
  fresh = λ i h. keep i ∙ v.fresh i h;
  one_place = λ b user. omega (
    arith,
    v.one_place b user,
    count-update_le p (open_place b user) f db.reservations (place b user),
  );
  deadlines = omega (arith, v.deadlines, count-update_le p bad_deadline f db.reservations deadline);
}
  where
    keep :
        (i : ℕ)
        → count_where (has_reservation_id i) (update_where p f db.reservations)
          ≡ count_where (has_reservation_id i) db.reservations
    keep i =
        count-update_keep p (has_reservation_id i) f db.reservations (λ r h. ground (arith, same r))

created-IsQueue :
    (b user now : ℕ) (db : Db) → IsQueue db → MayReserve b user db → IsQueue (created b user now db)
unfolding count_where
created-IsQueue b user now db v m = record {
  one_row = λ i. ground (arith, v.one_row i, v.fresh i);
  fresh = λ i h. ground (arith, v.fresh i);
  one_place = λ c u. ground (
    arith,
    v.one_place c u,
    count_where_zero (open_place b user) db.reservations m.no_place,
    one_key c u,
  );
  deadlines = ground (arith, v.deadlines);
}
  where
    one_key : (c u : ℕ) → c ≡ b → u ≡ user → count_where (open_place c u) db.reservations ≡ 0
    one_key c u e f = rw e (rw f (count_where_zero (open_place b user) db.reservations m.no_place))

pub create-IsQueue :
    (b user now : ℕ) (db : Db) (r : (Reservation × ℕ) × Db)
    → IsQueue db
    → create b user now db ≡ ok r
    → IsQueue r.1
create-IsQueue b user now db r v h =
    let (m, q) = create-inv b user now db r h in
    subst (λ (x : (Reservation × ℕ) × Db). IsQueue x.1) q (created-IsQueue b user now db v m)

pub cancel-IsQueue :
    (i user : ℕ) (db : Db) (r : (Bool × ℕ) × Db)
    → IsQueue db
    → cancel i user db ≡ ok r
    → IsQueue r.1
unfolding cancel
cancel-IsQueue i user db r v h =
    subst (λ (x : Db). IsQueue x) (ground arith)
      (quiet_update (has_reservation_id i) (set_status ReservationStatus.cancelled) db (λ r. refl)
        (λ b u r t s. ground arith) (λ r t s. ground arith) v)

pub expire_stale-IsQueue : (now : ℕ) (db : Db) → IsQueue db → IsQueue (expire_stale now db).1
unfolding expire_stale
expire_stale-IsQueue now db v =
    quiet_update (is_stale now) (set_status ReservationStatus.expired) db (λ r. refl)
      (λ b u r t s. ground arith) (λ r t s. ground arith) v

pub fulfil-IsQueue :
    (head : Option Reservation) (user : ℕ) (db : Db)
    → IsQueue db
    → IsQueue (record db { reservations = fulfilled head user db.reservations })
unfolding fulfilled
fulfil-IsQueue none user db v = v
fulfil-IsQueue (some head) user db v =
    quiet_update (is_own_waiting head user) (set_status ReservationStatus.fulfilled) db (λ r. refl)
      (λ b u r t s. ground arith) (λ r t s. ground arith) v

first_where-mem :
    (p : Reservation → Bool) (rs : List Reservation) (r : Reservation)
    → first_where p earlier rs ≡ some r
    → 0 < count_where (has_reservation_id r.id) rs
unfolding first_where count_where
first_where-mem p [] r h = cc
first_where-mem p (s ∷ rs) r h = elim (Bool-cases (p s)) [
  | inr n ↦ ground (arith, first_where-mem p rs r)
  | inl t ↦ elim (Option-cases (first_where p earlier rs)) [
    | inl e ↦ ground arith
    | inr (y, e) ↦ ground (arith, first_where-mem p rs y)
  ]
]

-- The row that the order picks is the row of its id.
pub first_where-find :
    (p : Reservation → Bool) (rs : List Reservation) (r : Reservation)
    → first_where p earlier rs ≡ some r
    → count_where (has_reservation_id r.id) rs ≤ 1
    → find_where (has_reservation_id r.id) rs ≡ some r
unfolding first_where find_where count_where
first_where-find p [] r h u = cc
first_where-find p (s ∷ rs) r h u = elim (Bool-cases (p s)) [
  | inr n ↦ ground (arith, first_where-mem p rs r, first_where-find p rs r)
  | inl t ↦ elim (Option-cases (first_where p earlier rs)) [
    | inl e ↦ ground arith
    | inr (y, e) ↦ ground (arith, first_where-mem p rs r, first_where-find p rs r)
  ]
]
