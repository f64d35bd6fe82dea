-- ===== src/Circulation/Refusals.antt =====
-- The errors of `borrow` and explainUnclaimableCopy: circulation_repo.go.
use mathlib.Core.Path.{subst}
use holibrary_backend.Prelude.{
  ℕ, ◌≤◌, leb, ltb, ◌≡◌, sym, ◌∙◌, ◌≢◌, ◌⊎◌, Bool, true, false, none, some, List, err, find_where,
  count_where, arith, inl, inr, Bool-cases, Option-cases, find_where-true, find_where_key,
  find_where_sharp, find_where-none, count_where_only,
}
use holibrary_backend.Domain.{
  Error, is_borrowable, reserved_for_other, copy_not_found, copy_not_borrowable, copy_not_available,
  last_copy_retained, loan_limit_reached, conflict, invalid, Reservation, Copy, available,
}
use holibrary_backend.Domain.Retention.{borrowable_count}
use holibrary_backend.Db.{Db}
use holibrary_backend.Circulation.Copies.{
  has_id, count_active_loans, in_stock, on_the_shelf, is_account,
}
use holibrary_backend.Circulation.Consistency.{IsConsistent, open_for, lent}
use holibrary_backend.Circulation.Borrow.{
  BorrowParams, reservation_head, head_allows, claimable, claim, borrow, insert_loan,
  retention_refuses, explain_unclaimable_copy,
}
use holibrary_backend.Circulation.BorrowLaws.{claimed_copies}
use holibrary_backend.Circulation.RetentionRule.{retention_refuses-borrowable}

-- What each error of `borrow` says of the database.
abbrev pub Refusal : BorrowParams → Db → Error → Type 0
Refusal p db reserved_for_other =
    (head : Reservation) × (reservation_head p.copy_id db ≡ some head) × (head.user_id ≢ p.user_id)
Refusal p db copy_not_found = find_where (has_id p.copy_id) db.copies ≡ none
Refusal p db copy_not_borrowable =
    (c : Copy) × (find_where (has_id p.copy_id) db.copies ≡ some c)
    × (is_borrowable c.loan_policy ≡ false)
Refusal p db copy_not_available =
    (c : Copy) × (find_where (has_id p.copy_id) db.copies ≡ some c)
    × (is_borrowable c.loan_policy ≡ true)
    × (c.status ≢ available)
Refusal p db last_copy_retained =
    (c : Copy) × (find_where (has_id p.copy_id) db.copies ≡ some c)
    × (borrowable_count (count_where (in_stock c.book_id) db.copies)
          (count_where (on_the_shelf c.book_id) db.copies)
        ≡ 0)
Refusal p db loan_limit_reached = p.max_loans ≤ count_active_loans p.user_id db.loans
Refusal p db conflict =
    (is_account p.user_id db.users ≡ false) ⊎ (is_account p.issued_by db.users ≡ false)
Refusal p db invalid = p.due_at ≤ p.borrowed_at
Refusal p db _ = ⊥

is_out :
    (i : ℕ) (copies : List Copy) (c : Copy)
    → find_where (claimable i) copies ≡ none
    → find_where (has_id i) copies ≡ some c
    → is_borrowable c.loan_policy ≡ true
    → c.status ≢ available
unfolding is_borrowable
is_out i copies c e s b a = ground (
  arith,
  find_where-true (has_id i) copies c s,
  find_where_sharp (claimable i) (has_id i) copies c (λ d h. ground arith) s,
)

unclaimable-Refusal :
    (p : BorrowParams) (db : Db)
    → find_where (claimable p.copy_id) db.copies ≡ none
    → Refusal p db (explain_unclaimable_copy p.copy_id db)
unfolding explain_unclaimable_copy is_borrowable
unclaimable-Refusal p db e = elim (Option-cases (find_where (has_id p.copy_id) db.copies)) [
  | inl n ↦ rw (n, explain_unclaimable_copy) n
  | inr (c, s) ↦ elim (Bool-cases (is_borrowable c.loan_policy)) [
    | inl b ↦
        rw (s, explain_unclaimable_copy) (rw (b) (c, s, b, is_out p.copy_id db.copies c e s b))
    | inr b ↦ rw (s, explain_unclaimable_copy) (rw (b) (c, s, b))
  ]
]

retained-Refusal :
    (p : BorrowParams) (db : Db) (c : Copy)
    → IsConsistent db
    → find_where (claimable p.copy_id) db.copies ≡ some c
    → retention_refuses p.copy_id (claimed_copies p.copy_id db) ≡ true
    → Refusal p db last_copy_retained
retained-Refusal p db c v e t = (
  c,
  find_where_key (claimable p.copy_id) (has_id p.copy_id) db.copies c (λ d h. ground arith)
      (v.one_row p.copy_id) e,
  ground (arith, (retention_refuses-borrowable p.copy_id db.copies c (v.one_row p.copy_id) e).1),
)

not_out :
    (p : BorrowParams) (db : Db) (c : Copy)
    → IsConsistent db
    → find_where (claimable p.copy_id) db.copies ≡ some c
    → find_where (open_for p.copy_id) db.loans ≡ none
not_out p db c v e = find_where-none (open_for p.copy_id) db.loans (
    v.agree p.copy_id
    ∙ count_where_only (lent p.copy_id) (has_id p.copy_id) db.copies c (λ d h. ground arith)
        (v.one_row p.copy_id)
        (find_where_key (claimable p.copy_id) (has_id p.copy_id) db.copies c (λ d h. ground arith)
          (v.one_row p.copy_id) e)
        (ground (arith, find_where-true (claimable p.copy_id) db.copies c e)))

abbrev claimed : ℕ → Db → Db
claimed i db = record db { copies = claimed_copies i db }

insert_loan-Refusal :
    (p : BorrowParams) (db : Db) (c : Copy) (e : Error)
    → IsConsistent db
    → find_where (claimable p.copy_id) db.copies ≡ some c
    → insert_loan p (claimed p.copy_id db) ≡ err e
    → Refusal p db e
unfolding insert_loan
insert_loan-Refusal p db c e v s h = elim (Bool-cases (ltb p.borrowed_at p.due_at)) [
  | inr f ↦ subst (Refusal p db) {x = invalid} (ground arith) (ground arith)
  | inl t ↦
      let free = not_out p db c v s in
      subst (Refusal p db) {x = conflict} (ground arith)
        (elim (Bool-cases (is_account p.user_id db.users)) [
          | inr n ↦ inl n
          | inl k ↦ inr (ground arith)
        ])
]

-- The error of `borrow`, test by test.
borrow_error_cases :
    (p : BorrowParams) (self : Bool) (db : Db) (e : Error)
    → borrow p self db ≡ err e
    → ((e ≡ reserved_for_other) × (head_allows p.user_id (reservation_head p.copy_id db) ≡ false))
      ⊎ ((e ≡ explain_unclaimable_copy p.copy_id db)
          × (find_where (claimable p.copy_id) db.copies ≡ none))
      ⊎ ((c : Copy) × (find_where (claimable p.copy_id) db.copies ≡ some c)
          × ((e ≡ last_copy_retained)
                × (retention_refuses p.copy_id (claimed_copies p.copy_id db) ≡ true)
              ⊎ (e ≡ loan_limit_reached)
                × (leb p.max_loans (count_active_loans p.user_id db.loans) ≡ true)
              ⊎ (insert_loan p (claimed p.copy_id db) ≡ err e)))
unfolding borrow claim
borrow_error_cases p self db e h =
    elim (Option-cases (find_where (claimable p.copy_id) db.copies)) [
      | inl n ↦ ground arith
      | inr (c, s) ↦ elim (Bool-cases (head_allows p.user_id (reservation_head p.copy_id db))) [
        | inl t ↦ inr (inr (c, s, ground arith))
        | inr f ↦ inl (ground arith)
      ]
    ]

blocked-Refusal :
    (p : BorrowParams) (db : Db)
    → head_allows p.user_id (reservation_head p.copy_id db) ≡ false
    → Refusal p db reserved_for_other
blocked-Refusal p db f = elim (Option-cases (reservation_head p.copy_id db)) [
  | inl n ↦ absurd (ground arith)
  | inr (head, s) ↦ (head, s, λ e. ground arith)
]

-- On a consistent database each refusal tells the truth: `reserved_for_other` that another member
-- heads the queue, `copy_not_found` that no copy has the id, `copy_not_borrowable` that its policy
-- keeps it in the building, `copy_not_available` that it is not on the shelf, `last_copy_retained`
-- that BorrowableCount of its title is zero, `loan_limit_reached` that the member is at the limit,
-- `conflict` that the borrower or the issuer is no account, and the database's own error, `invalid`,
-- that the loan would fall due no later than it is made. No other error occurs.
pub borrow-Refusal :
    (p : BorrowParams) (self : Bool) (db : Db) (e : Error)
    → IsConsistent db
    → borrow p self db ≡ err e
    → Refusal p db e
borrow-Refusal p self db e v h = elim (borrow_error_cases p self db e h) [
  | inl (q, f) ↦ subst (Refusal p db) (sym q) (blocked-Refusal p db f)
  | inr (inl (q, n)) ↦ subst (Refusal p db) (sym q) (unclaimable-Refusal p db n)
  | inr (inr (c, s, inl (q, t))) ↦ subst (Refusal p db) (sym q) (retained-Refusal p db c v s t)
  | inr (inr (c, s, inr (inl (q, t)))) ↦ subst (Refusal p db) (sym q) (ground arith)
  | inr (inr (c, s, inr (inr t))) ↦ insert_loan-Refusal p db c e v s t
]
