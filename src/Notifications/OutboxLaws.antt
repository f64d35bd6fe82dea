-- ===== src/Notifications/OutboxLaws.antt =====
-- What OutboxRepo.Pending hands out, and what MarkFailed leaves for the next pass
-- (internal/repository/postgres/outbox_repo.go).
use holibrary_backend.Prelude.{
  ℕ, zero, suc, ◌+◌, ◌≤◌, ◌<◌, ◌==◌, leb, Bool, true, false, ◌&&◌, ◌||◌, some, List, [], ◌∷◌, ◌≡◌,
  refl, sym, ap, ◌∙◌, if◌then◌else◌, find_where, update_where, select_where, insert_by, sort_by,
  take, count_where, Bool-cases, find-update_hit, find_where-true, length, length-take-le, inl, inr,
  arith,
}
use holibrary_backend.Domain.{User}
use holibrary_backend.Db.{Db, OutboxRow, OutboxStatus}
use holibrary_backend.Notifications.Invitations.{invitation_failed}
use holibrary_backend.Notifications.Outbox.{
  PendingMessage, pending_messages, picked, listed_in, with_user, is_due_row, scheduled_first,
  claim_row, row_pending, has_row_id, fail_row, mark_failed,
}

unfoldable pub has_message : ℕ → List PendingMessage → Bool
has_message i [] = false
has_message i (m ∷ ms) = m.id == i || has_message i ms

abbrev pub waits : ℕ → OutboxRow → Bool
waits i r = r.id == i && row_pending r.status

-- No row of this id is pending, so no pass will look at it.
abbrev pub IsIdle : ℕ → Db → Type 0
IsIdle i db = count_where (waits i) db.outbox ≡ 0

listed-take :
    (i n : ℕ) (rows : List OutboxRow) → listed_in i (take n rows) ≡ true → listed_in i rows ≡ true
unfolding listed_in
listed-take i zero rows h = cc
listed-take i (suc n) [] h = cc
listed-take i (suc n) (r ∷ rows) h = ground (arith, listed-take i n rows)

listed-insert :
    (i : ℕ) (r : OutboxRow) (rows : List OutboxRow)
    → listed_in i (insert_by scheduled_first r rows) ≡ listed_in i (r ∷ rows)
unfolding listed_in insert_by
listed-insert i r [] = refl
listed-insert i r (s ∷ rows) = ground (arith, listed-insert i r rows)

listed-sort :
    (i : ℕ) (rows : List OutboxRow) → listed_in i (sort_by scheduled_first rows) ≡ listed_in i rows
unfolding listed_in sort_by
listed-sort i [] = refl
listed-sort i (r ∷ rows) =
    ground (arith, listed-sort i rows, listed-insert i r (sort_by scheduled_first rows))

listed-select :
    (i now : ℕ) (rows : List OutboxRow)
    → listed_in i (select_where (is_due_row now) rows) ≡ true
    → 0 < count_where (waits i) rows
unfolding listed_in select_where count_where
listed-select i now [] h = cc
listed-select i now (r ∷ rows) h = ground (arith, listed-select i now rows)

listed-with_user :
    (i : ℕ) (users : List User) (rows : List OutboxRow)
    → has_message i (with_user users rows) ≡ true
    → listed_in i rows ≡ true
unfolding listed_in has_message with_user
listed-with_user i users [] h = cc
listed-with_user i users (r ∷ rows) h = ground (arith, listed-with_user i users rows)

message-listed :
    (i limit now : ℕ) (db : Db)
    → has_message i (pending_messages limit now db).0 ≡ true
    → listed_in i (picked limit now db) ≡ true
unfolding pending_messages
message-listed i limit now db h = listed-with_user i db.users (picked limit now db) h

idle-update :
    (i : ℕ) (rows outbox : List OutboxRow)
    → listed_in i rows ≡ true
    → count_where (waits i) (update_where (λ r. listed_in r.id rows) claim_row outbox) ≡ 0
unfolding count_where update_where
idle-update i rows [] h = refl
idle-update i rows (r ∷ outbox) h = elim (Bool-cases (r.id == i)) [
  | inl e ↦
      let same : r.id ≡ i = ground arith in
      ground (arith, idle-update i rows outbox h, ap (λ j. listed_in j rows) same)
  | inr n ↦ ground (arith, idle-update i rows outbox h)
]

pub pending_messages-IsIdle :
    (i limit now : ℕ) (db : Db)
    → has_message i (pending_messages limit now db).0 ≡ true
    → IsIdle i (pending_messages limit now db).1
unfolding pending_messages
pending_messages-IsIdle i limit now db h =
    idle-update i (picked limit now db) db.outbox
      (listed-with_user i db.users (picked limit now db) h)

pub idle-pending_messages :
    (i limit now : ℕ) (db : Db)
    → IsIdle i db
    → has_message i (pending_messages limit now db).0 ≡ false
unfolding picked
idle-pending_messages i limit now db h =
    elim (Bool-cases (has_message i (pending_messages limit now db).0)) [
      | inl e ↦
          let listed = message-listed i limit now db e in
          let sorted =
            listed-take i limit (sort_by scheduled_first (select_where (is_due_row now) db.outbox))
              listed in
          let due = sym (listed-sort i (select_where (is_due_row now) db.outbox)) ∙ sorted in
          absurd (omega (arith, listed-select i now db.outbox due, h))
      | inr n ↦ n
    ]

-- A message that one Pending returns is returned by no later Pending, whatever the two limits and
-- times are, unless something puts its row back to pending in between.
pub pending_once :
    (i limit now limit' now' : ℕ) (db : Db)
    → has_message i (pending_messages limit now db).0 ≡ true
    → has_message i (pending_messages limit' now' (pending_messages limit now db).1).0 ≡ false
pending_once i limit now limit' now' db h =
    idle-pending_messages i limit' now' (pending_messages limit now db).1
      (pending_messages-IsIdle i limit now db h)

length-with_user :
    (users : List User) (rows : List OutboxRow) → length (with_user users rows) ≤ length rows
unfolding with_user
length-with_user users [] = omega arith
length-with_user users (r ∷ rows) = ground (arith, length-with_user users rows)

-- Pending returns at most as many messages as it is asked for, each of a row that was pending.
pub pending_bounded :
    (limit now : ℕ) (db : Db)
    → (length (pending_messages limit now db).0 ≤ limit)
      × ((i : ℕ)
          → has_message i (pending_messages limit now db).0 ≡ true
          → 0 < count_where (waits i) db.outbox)
unfolding pending_messages picked
pending_bounded limit now db = (
  omega (
    arith,
    length-with_user db.users (picked limit now db),
    length-take-le limit (sort_by scheduled_first (select_where (is_due_row now) db.outbox)),
  ),
  λ i h. listed-select i now db.outbox (
      sym (listed-sort i (select_where (is_due_row now) db.outbox))
      ∙ listed-take i limit (sort_by scheduled_first (select_where (is_due_row now) db.outbox))
          (message-listed i limit now db h)),
)

-- A message that is handed out and then fails for a passing reason has used two of its attempts, so
-- it is pending again only while it had fewer than three before: a new message is tried three times.
pub retry_limit :
    (i limit now : ℕ) (db : Db) (r : OutboxRow)
    → find_where (has_row_id i) db.outbox ≡ some r
    → has_message i (pending_messages limit now db).0 ≡ true
    → (s : OutboxRow) × (find_where
          (has_row_id i)
          (mark_failed i (pending_messages limit now db).1).outbox
        ≡ some s)
      × (s.attempts ≡ r.attempts + 2)
      × (s.status ≡ (if leb 3 r.attempts then OutboxStatus.failed else OutboxStatus.pending))
unfolding pending_messages mark_failed invitation_failed
retry_limit i limit now db r e h =
    let own : (r.id == i) ≡ true = find_where-true (has_row_id i) db.outbox r e in
    let same : r.id ≡ i = ground arith in
    let rows = picked limit now db in
    let listed = ap (λ j. listed_in j rows) same ∙ listed-with_user i db.users rows h in
    let claimed =
      find-update_hit (λ s. listed_in s.id rows) (has_row_id i) claim_row db.outbox r (λ y t. refl)
        e listed in
    let claimed_outbox = update_where (λ s. listed_in s.id rows) claim_row db.outbox in
    (
      fail_row (claim_row r),
      find-update_hit (has_row_id i) (has_row_id i) fail_row claimed_outbox (claim_row r)
          (λ y t. refl) claimed own,
      omega arith,
      ground arith,
    )
