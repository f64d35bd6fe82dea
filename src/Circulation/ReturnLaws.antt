-- ===== src/Circulation/ReturnLaws.antt =====
-- What a return guarantees: circulation_repo.go, `Return`, and the round trip with `borrow`.
use mathlib.Core.Path.{subst}
use holibrary_backend.Prelude.{
  ℕ, ◌+◌, ◌==◌, ◌≤◌, ◌<◌, ltb, ◌≡◌, refl, ◌∙◌, ◌≢◌, ◌⊎◌, inl, inr, true, false, none, some, List,
  [], ◌∷◌, Result, ok, err, if◌then◌else◌, find_where, update_where, count_where, arith, Bool-cases,
  Option-cases, count-update_one, count-update_keep, count_where_mono, find_where-true,
  find_where_key, find_where-some, count_where-pos, update-where_zero,
}
use holibrary_backend.Domain.{Error, Copy, Loan, not_found, loan_already_closed, conflict, invalid}
use holibrary_backend.Db.{Db, record_audit, loan_returned}
use holibrary_backend.Circulation.Copies.{has_id, is_account}
use holibrary_backend.Circulation.Consistency.{
  IsConsistent, has_loan_id, open_for, lent, one_row-update, lent-update,
}
use holibrary_backend.Circulation.Borrow.{claimable, lend}
use holibrary_backend.Circulation.Return.{
  is_closable, close, shelve, close_loan, put_back, return_loan, explain_unreturnable_loan,
}

-- The tests of the database on the return of a loan.
pub record MayReturn (i staff now : ℕ) (db : Db) (l : Loan) : Type 0 where
  pub found : find_where (is_closable i) db.loans ≡ some l
  pub later : ltb now l.borrowed_at ≡ false
  pub known : is_account staff db.users ≡ true

-- The database after the return of the open loan `l`.
abbrev pub returned : ℕ → ℕ → ℕ → Loan → Db → Db
returned i staff now l db = record db {
  loans = update_where (is_closable i) (close now staff) db.loans;
  copies = update_where (lent l.copy_id) shelve db.copies;
  audit = (record_audit staff loan_returned l.id db).audit;
}

ok-eq : {x y : Loan × Db} → ◌≡◌ {A = Result Error (Loan × Db)} (ok x) (ok y) → x ≡ y
ok-eq h = ground arith

pub return-inv :
    (i staff now : ℕ) (db : Db) (r : Loan × Db)
    → return_loan i staff now db ≡ ok r
    → (l : Loan) × (find_where (is_closable i) db.loans ≡ some l)
      × ((close now staff l, returned i staff now l db) ≡ r)
unfolding return_loan close_loan put_back record_audit
return-inv i staff now db r h = elim (Option-cases (find_where (is_closable i) db.loans)) [
  | inl n ↦ absurd (ground arith)
  | inr (l, e) ↦ (l, e, ground arith)
]

pub return_eq :
    (i staff now : ℕ) (db : Db) (l : Loan)
    → MayReturn i staff now db l
    → return_loan i staff now db ≡ ok (close now staff l, returned i staff now l db)
unfolding return_loan close_loan put_back record_audit
return_eq i staff now db l m = ground arith

closable-le-one : (i : ℕ) (db : Db) → IsConsistent db → count_where (is_closable i) db.loans ≤ 1
closable-le-one i db v = omega (
  arith,
  v.one_loan i,
  count_where_mono (is_closable i) (has_loan_id i) db.loans (λ l h. ground arith),
)

open-returned :
    (i staff now : ℕ) (db : Db) (l : Loan) (j : ℕ)
    → IsConsistent db
    → find_where (is_closable i) db.loans ≡ some l
    → count_where (open_for j) (update_where (is_closable i) (close now staff) db.loans)
        + (if l.copy_id == j then 1 else 0)
      ≡ count_where (open_for j) db.loans
open-returned i staff now db l j v e = ground (
  arith,
  find_where-true (is_closable i) db.loans l e,
  count-update_one (is_closable i) (open_for j) (close now staff) db.loans l
      (closable-le-one i db v) e,
)

-- The copy of an open loan is out.
lent_found :
    (i : ℕ) (db : Db) (l : Loan)
    → IsConsistent db
    → find_where (is_closable i) db.loans ≡ some l
    → (c : Copy) × (find_where (lent l.copy_id) db.copies ≡ some c) × (lent l.copy_id c ≡ true)
lent_found i db l v e = find_where-some (lent l.copy_id) db.copies (
    ground (
      arith,
      v.agree l.copy_id,
      count_where-pos (is_closable i) db.loans l e,
      find_where-true (is_closable i) db.loans l e,
      open-returned i 0 0 db l l.copy_id v e,
    ))

returned-IsConsistent :
    (i staff now : ℕ) (db : Db) (l : Loan)
    → IsConsistent db
    → find_where (is_closable i) db.loans ≡ some l
    → IsConsistent (returned i staff now l db)
returned-IsConsistent i staff now db l v e =
    let (c, f, t) = lent_found i db l v e in
    record {
      one_row = λ j. omega (
        arith,
        v.one_row j,
        one_row-update (lent l.copy_id) shelve l.copy_id (λ d h. ground arith) (λ d. refl) db.copies
            j,
      );
      one_loan = λ j. omega (
        arith,
        v.one_loan j,
        count-update_keep (is_closable i) (has_loan_id j) (close now staff) db.loans (λ d h. refl),
      );
      fresh = λ j h.
          count-update_keep (is_closable i) (has_loan_id j) (close now staff) db.loans (λ d h. refl)
          ∙ v.fresh j h;
      agree = λ j. ground (
        arith,
        v.agree j,
        open-returned i staff now db l j v e,
        t,
        lent-update (lent l.copy_id) shelve l.copy_id (λ d h. ground arith) (λ d. refl) db.copies c
            j (v.one_row l.copy_id) f,
      );
    }

-- A return that succeeds keeps the invariant: the copy is back on the shelf and no open loan names it.
pub return-IsConsistent :
    (i staff now : ℕ) (db : Db) (r : Loan × Db)
    → IsConsistent db
    → return_loan i staff now db ≡ ok r
    → IsConsistent r.1
return-IsConsistent i staff now db r v h =
    let (l, e, q) = return-inv i staff now db r h in
    subst (λ (s : Loan × Db). IsConsistent s.1) q (returned-IsConsistent i staff now db l v e)

-- A return fails with `not_found` where no loan has the id, with `loan_already_closed` where one has it
-- and none that is open does, with `conflict` where the staff member is no account, and with the
-- database's own error where it would end before it was made; it fails in no other way.
pub return_error :
    (i staff now : ℕ) (db : Db) (e : Error)
    → return_loan i staff now db ≡ err e
    → ((e ≡ not_found) × (find_where (has_loan_id i) db.loans ≡ none))
      ⊎ ((e ≡ loan_already_closed)
          × (find_where (is_closable i) db.loans ≡ none)
          × (find_where (has_loan_id i) db.loans ≢ none))
      ⊎ ((e ≡ conflict) × (is_account staff db.users ≡ false))
      ⊎ ((e ≡ invalid)
          × ((l : Loan) × (find_where (is_closable i) db.loans ≡ some l) × (now < l.borrowed_at)))
unfolding return_loan close_loan explain_unreturnable_loan
return_error i staff now db e h = elim (Option-cases (find_where (is_closable i) db.loans)) [
  | inl n ↦ ground arith
  | inr (l, s) ↦ elim (Bool-cases (ltb now l.borrowed_at)) [
    | inl t ↦ inr (inr (inr (ground arith, (l, s, ground arith))))
    | inr f ↦ inr (inr (inl (ground arith)))
  ]
]

closed_again :
    (i staff now : ℕ) (loans : List Loan)
    → find_where (is_closable i) (update_where (is_closable i) (close now staff) loans) ≡ none
unfolding find_where update_where
closed_again i staff now [] = refl
closed_again i staff now (l ∷ loans) = ground (arith, closed_again i staff now loans)

-- A loan that was returned cannot be returned again, whoever tries and however much later.
pub return_twice :
    (i staff staff' now later : ℕ) (db : Db) (r : Loan × Db)
    → return_loan i staff now db ≡ ok r
    → (e : Error) × (return_loan i staff' later r.1 ≡ err e)
unfolding return_loan close_loan
return_twice i staff staff' now later db r h =
    let (l, _, q) = return-inv i staff now db r h in
    let none_left : find_where (is_closable i) r.1.loans ≡ none =
      subst (λ (s : Loan × Db). find_where (is_closable i) s.1.loans ≡ none) q
        (closed_again i staff now db.loans) in
    (explain_unreturnable_loan i r.1, ground arith)

pub restored :
    (i : ℕ) (copies : List Copy) (c : Copy)
    → count_where (has_id i) copies ≤ 1
    → find_where (claimable i) copies ≡ some c
    → update_where (lent i) shelve (update_where (claimable i) lend copies) ≡ copies
unfolding count_where find_where update_where
restored i [] c u e = cc
restored i (d ∷ copies) c u e = elim (Bool-cases (claimable i d)) [
  | inl t ↦ ground (
    arith,
    update-where_zero (claimable i) lend copies,
    update-where_zero (lent i) shelve copies,
    count_where_mono (claimable i) (has_id i) copies (λ x h. ground arith),
    count_where_mono (lent i) (has_id i) copies (λ x h. ground arith),
  )
  | inr n ↦ ground (
    arith,
    restored i copies c,
    count_where-pos (has_id i) copies c,
    find_where_key (claimable i) (has_id i) copies c (λ x h. ground arith),
  )
]
