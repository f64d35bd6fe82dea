-- ===== src/Reservations/Order.antt =====
-- The order of the queue: ORDER BY created_at, id in reservation_repo.go and circulation_repo.go.
use holibrary_backend.Prelude.{
  ℕ, ◌≡◌, refl, inl, inr, Bool, true, false, ◌&&◌, none, some, List, [], ◌∷◌, first_where,
  count_where, Bool-cases, Option-cases, arith,
}
use holibrary_backend.Domain.{Reservation}
use holibrary_backend.Circulation.Copies.{earlier}

earlier_asym : (r s : Reservation) → earlier r s ≡ true → earlier s r ≡ false
earlier_asym r s h = ground arith

-- What comes before `x` comes before `y`, unless `y` comes before `x` already.
earlier_trans :
    (z x y : Reservation) → earlier z x ≡ true → earlier y x ≡ false → earlier z y ≡ true
earlier_trans z x y h k = ground arith

module _ (p : Reservation → Bool) where
  -- The rows that pass the test and come before `x`.
  abbrev pub ahead : Reservation → List Reservation → ℕ
  ahead x rs = count_where (λ z. p z && earlier z x) rs

  ahead-none :
      (x : Reservation) (rs : List Reservation) → first_where p earlier rs ≡ none → ahead x rs ≡ 0
  unfolding first_where count_where
  ahead-none x [] h = refl
  ahead-none x (r ∷ rs) h = ground (arith, ahead-none x rs)

  -- Nothing that comes before `x` comes before a row that `x` does not precede.
  ahead_mono :
      (x y : Reservation) (rs : List Reservation)
      → earlier y x ≡ false
      → ahead y rs ≡ 0
      → ahead x rs ≡ 0
  unfolding count_where
  ahead_mono x y [] h k = refl
  ahead_mono x y (r ∷ rs) h k = ground (arith, earlier_trans r x y, ahead_mono x y rs h)

  -- ORDER BY created_at, id LIMIT 1 takes a row that passes, and no row that passes comes before it.
  pub first_where-least :
      (rs : List Reservation) (x : Reservation)
      → first_where p earlier rs ≡ some x
      → (p x ≡ true) × (ahead x rs ≡ 0)
  unfolding first_where count_where
  first_where-least [] x h = cc
  first_where-least (r ∷ rs) x h = elim (Bool-cases (p r)) [
    | inr n ↦ ground (arith, first_where-least rs x)
    | inl t ↦ elim (Option-cases (first_where p earlier rs)) [
      | inl e ↦ ground (arith, ahead-none x rs)
      | inr (y, e) ↦ elim (Bool-cases (earlier y r)) [
        | inl s ↦ ground (arith, first_where-least rs y, earlier_asym y r)
        | inr s ↦ ground (arith, first_where-least rs y, ahead_mono r y rs)
      ]
    ]
  ]
