-- ===== src/Circulation/Reminders.antt =====
-- ListLoans of internal/repository/postgres/circulation_repo.go, and the pass over it that queues
-- reminders: NotifyDueSoon of internal/service/circulation_service.go. ListLoans is given for the
-- calls that do not ask for synthetic members only.
use holibrary_backend.Prelude.{
  ℕ, ◌+◌, ◌-◌, ◌==◌, ◌≤◌, leb, ltb, ◌≡◌, refl, ap, ◌∙◌, Bool, true, false, ◌&&◌, ◌||◌, not, Option,
  none, some, List, [], ◌∷◌, if◌then◌else◌, count_where, select_where, sort_by, take, drop,
  take_all, length, length-select, length-sort, count-select, count-sort, count_where_mono, arith,
}
use holibrary_backend.Domain.{Loan}
use holibrary_backend.Domain.Loans.{is_returned, is_overdue_at}
use holibrary_backend.Db.{Db, OutboxRow, Payload, email, loan_due_soon, loan_overdue}
use holibrary_backend.Circulation.Copies.{is_open}
use holibrary_backend.Notifications.Queue.{queue}

abbrev listed_loan : Bool → Bool → ℕ → Loan → Bool
listed_loan overdue_only open_only now l =
    (not overdue_only || is_open l && ltb l.due_at now) && (not open_only || is_open l)

-- ORDER BY l.due_at, l.id
abbrev due_first : Loan → Loan → Bool
due_first l m = ltb l.due_at m.due_at || l.due_at == m.due_at && ltb l.id m.id

-- The page and the total.
unfoldable pub list_loans : Bool → Bool → ℕ → ℕ → ℕ → List Loan → List Loan × ℕ
list_loans overdue_only open_only limit offset now loans =
    let rows = select_where (listed_loan overdue_only open_only now) loans in
    (take limit (drop offset (sort_by due_first rows)), length rows)

abbrev loan_payload : Loan → Payload
loan_payload l = record { loan_id = some l.id; reservation_id = none; token = none }

-- The body of the loop: how many messages it queues for a loan, and the database after it.
unfoldable pub remind : ℕ → ℕ → Loan → Db → ℕ × Db
unfolding is_returned is_overdue_at
remind window now l db =
    if is_returned l
    then (0, db)
    else if is_overdue_at l now
    then (1, queue l.user_id email loan_overdue (loan_payload l) now db)
    else if leb (l.due_at - now) window
    then (1, queue l.user_id email loan_due_soon (loan_payload l) now db)
    else (0, db)

unfoldable pub remind_all : ℕ → ℕ → List Loan → ℕ → Db → ℕ × Db
remind_all window now [] queued db = (queued, db)
remind_all window now (l ∷ ls) queued db =
    let (n, db') = remind window now l db in remind_all window now ls (queued + n) db'

abbrev pub page_limit : ℕ
page_limit = 500

unfoldable pub notify_due_soon : ℕ → ℕ → Db → ℕ × Db
notify_due_soon window now db =
    remind_all window now (list_loans false true page_limit 0 now db.loans).0 0 db

-- A loan that is out and due before the window from now ends, late or not.
abbrev pub is_due : ℕ → ℕ → Loan → Bool
is_due window now l = is_open l && leb l.due_at (now + window)

abbrev same_id : Option ℕ → ℕ → Bool
same_id none i = false
same_id (some j) i = j == i

-- A reminder about loan `i`.
abbrev pub chases : ℕ → OutboxRow → Bool
chases i r = same_id r.payload.loan_id i

remind_counts :
    (window now : ℕ) (l : Loan) (db : Db) (i : ℕ)
    → ((remind window now l db).0 ≡ (if is_due window now l then 1 else 0))
      × (count_where (chases i) (remind window now l db).1.outbox
          ≡ count_where (chases i) db.outbox + (if l.id == i && is_due window now l then 1 else 0))
unfolding remind queue count_where
remind_counts window now l db i = ground arith

remind_all_counts :
    (window now : ℕ) (ls : List Loan) (queued : ℕ) (db : Db) (i : ℕ)
    → ((remind_all window now ls queued db).0 ≡ queued + count_where (is_due window now) ls)
      × (count_where (chases i) (remind_all window now ls queued db).1.outbox
          ≡ count_where (chases i) db.outbox
            + count_where (λ l. l.id == i && is_due window now l) ls)
unfolding remind_all count_where
remind_all_counts window now [] queued db i = (omega arith, omega arith)
remind_all_counts window now (l ∷ ls) queued db i =
    let (n, db') = remind window now l db in
    let (a, b) = remind_counts window now l db i in
    let (c, d) = remind_all_counts window now ls (queued + n) db' i in
    (ground (arith, a, c), omega (arith, b, d))

listed_count :
    (q : Loan → Bool) (now : ℕ) (loans : List Loan)
    → count_where is_open loans ≤ page_limit
    → ((l : Loan) → q l ≡ true → is_open l ≡ true)
    → count_where q (list_loans false true page_limit 0 now loans).0 ≡ count_where q loans
unfolding list_loans
listed_count q now loans h k =
    let rows = select_where (listed_loan false true now) loans in
    let fits : length (sort_by due_first rows) ≤ page_limit = omega (
      arith,
      length-sort due_first rows,
      length-select (listed_loan false true now) loans,
      count_where_mono (listed_loan false true now) is_open loans (λ l t. ground arith),
    ) in
    ap (count_where q) (take_all page_limit (sort_by due_first rows) fits)
    ∙ count-sort q due_first rows
    ∙ count-select (listed_loan false true now) q loans
    ∙ omega (
      arith,
      count_where_mono (λ l. listed_loan false true now l && q l) q loans (λ l t. ground arith),
      count_where_mono q (λ l. listed_loan false true now l && q l) loans
          (λ l t. ground (arith, k l)),
    )

-- With at most 500 loans out, a pass queues one reminder for each open loan that is late or falls due
-- within the window, answers how many, and queues none for any other loan.
pub notify_due_soon_exact :
    (window now : ℕ) (db : Db) (i : ℕ)
    → count_where is_open db.loans ≤ page_limit
    → let (n, db') = notify_due_soon window now db in
      (n ≡ count_where (is_due window now) db.loans)
      × (count_where (chases i) db'.outbox
          ≡ count_where (chases i) db.outbox
            + count_where (λ l. l.id == i && is_due window now l) db.loans)
unfolding notify_due_soon
notify_due_soon_exact window now db i h =
    let page = (list_loans false true page_limit 0 now db.loans).0 in
    let (a, b) = remind_all_counts window now page 0 db i in
    (
      omega (arith, a, listed_count (is_due window now) now db.loans h (λ l t. ground arith)),
      omega (
        arith,
        b,
        listed_count (λ l. l.id == i && is_due window now l) now db.loans h (λ l t. ground arith),
      ),
    )

remind_loans : (window now : ℕ) (l : Loan) (db : Db) → (remind window now l db).1.loans ≡ db.loans
unfolding remind queue
remind_loans window now l db = ground arith

remind_all_loans :
    (window now : ℕ) (ls : List Loan) (queued : ℕ) (db : Db)
    → (remind_all window now ls queued db).1.loans ≡ db.loans
unfolding remind_all
remind_all_loans window now [] queued db = refl
remind_all_loans window now (l ∷ ls) queued db =
    remind_all_loans window now ls (queued + (remind window now l db).0) (remind window now l db).1
    ∙ remind_loans window now l db

-- A pass does not look at what earlier passes have queued: while no more than 500 loans are open, the
-- one page that a pass reads, a second pass with nothing returned in between chases every loan that is
-- then due once more, whether the first has chased it or not.
pub notify_due_soon_again :
    (window now later : ℕ) (db : Db) (i : ℕ)
    → count_where is_open db.loans ≤ page_limit
    → let first = (notify_due_soon window now db).1 in
      let second = (notify_due_soon window later first).1 in
      count_where (chases i) second.outbox
      ≡ count_where (chases i) db.outbox
        + count_where (λ l. l.id == i && is_due window now l) db.loans
        + count_where (λ l. l.id == i && is_due window later l) db.loans
notify_due_soon_again window now later db i h =
    let first = (notify_due_soon window now db).1 in
    let same : first.loans ≡ db.loans =
      unfold notify_due_soon in
      remind_all_loans window now (list_loans false true page_limit 0 now db.loans).0 0 db in
    let again = (notify_due_soon_exact window later first i (rw same h)).1 in
    omega (arith, (notify_due_soon_exact window now db i h).1, rw same at again)
