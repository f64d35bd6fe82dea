-- ===== src/Reservations/CreateLaws.antt =====
-- `Create` of reservation_repo.go, taken apart once.
use holibrary_backend.Prelude.{
  ℕ, ◌+◌, ◌<◌, ◌≡◌, sym, ◌∙◌, ◌≢◌, ◌↔◌, ◌⊎◌, none, ◌∷◌, Result, ok, err, find_where, count_where,
  arith,
}
use holibrary_backend.Domain.{
  Reservation, Error, not_reservable, copies_available, already_reserved,
}
use holibrary_backend.Domain.Retention.{borrowable_count}
use holibrary_backend.Db.{Db}
use holibrary_backend.Circulation.Copies.{in_stock, on_the_shelf}
use holibrary_backend.Reservations.Store.{
  open_place, reservable, create, insert_reservation, new_reservation, queue_position,
}

-- How many copies of a title may leave the building.
abbrev pub spare_copies : ℕ → Db → ℕ
spare_copies b db =
    borrowable_count (count_where (in_stock b) db.copies) (count_where (on_the_shelf b) db.copies)

-- The library holds a copy that can be reserved, none that can be borrowed now, and the member has no
-- open place in the queue.
pub record MayReserve (b user : ℕ) (db : Db) : Type 0 where
  pub held : 0 < count_where (reservable b) db.copies
  pub none_spare : spare_copies b db ≡ 0
  pub no_place : find_where (open_place b user) db.reservations ≡ none

abbrev pub created : ℕ → ℕ → ℕ → Db → Db
created b user now db = record db {
  reservations = new_reservation db.next_id b user now ∷ db.reservations;
  next_id = db.next_id + 1;
}

abbrev pub created_result : ℕ → ℕ → ℕ → Db → (Reservation × ℕ) × Db
created_result b user now db = (
  (new_reservation db.next_id b user now, queue_position b now db.reservations),
  created b user now db,
)

create-MayReserve :
    (b user now : ℕ) (db : Db) (r : (Reservation × ℕ) × Db)
    → create b user now db ≡ ok r
    → MayReserve b user db
unfolding create insert_reservation
create-MayReserve b user now db r h = record {
  held = ground arith;
  none_spare = ground arith;
  no_place = ground arith;
}

MayReserve-create :
    (b user now : ℕ) (db : Db)
    → MayReserve b user db
    → create b user now db ≡ ok (created_result b user now db)
unfolding create insert_reservation
MayReserve-create b user now db m = ground arith

ok-eq :
    {x y : (Reservation × ℕ) × Db}
    → ◌≡◌ {A = Result Error ((Reservation × ℕ) × Db)} (ok x) (ok y)
    → x ≡ y
ok-eq h = ground arith

pub create-inv :
    (b user now : ℕ) (db : Db) (r : (Reservation × ℕ) × Db)
    → create b user now db ≡ ok r
    → MayReserve b user db × (created_result b user now db ≡ r)
create-inv b user now db r h =
    let m : MayReserve b user db = create-MayReserve b user now db r h in
    (m, ok-eq (sym (MayReserve-create b user now db m) ∙ h))

-- A member joins the queue of a title exactly when the library holds a copy that may be reserved, no
-- copy can be borrowed now, and the member has no open place in it.
pub create-ok_iff :
    (b user now : ℕ) (db : Db)
    → (create b user now db ≡ ok (created_result b user now db)) ↔ MayReserve b user db
create-ok_iff b user now db = (
  create-MayReserve b user now db (created_result b user now db),
  MayReserve-create b user now db,
)

-- The three refusals, in the order in which the code tests for them; no other error occurs.
pub create_error :
    (b user now : ℕ) (db : Db) (e : Error)
    → create b user now db ≡ err e
    → ((e ≡ not_reservable) × (count_where (reservable b) db.copies ≡ 0))
      ⊎ ((e ≡ copies_available)
          × (0 < count_where (reservable b) db.copies)
          × (0 < spare_copies b db))
      ⊎ ((e ≡ already_reserved)
          × (0 < count_where (reservable b) db.copies)
          × (spare_copies b db ≡ 0)
          × (find_where (open_place b user) db.reservations ≢ none))
unfolding create insert_reservation
create_error b user now db e h = ground arith
