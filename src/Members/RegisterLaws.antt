-- ===== src/Members/RegisterLaws.antt =====
-- Create of internal/service/member_service.go: who may create whom, and a roll without duplicates.
use holibrary_backend.Prelude.{
  ℕ, ◌+◌, ◌≡◌, ◌≤◌, refl, ◌∙◌, Bool, true, false, ◌||◌, Option, some, List, ◌∷◌, Result, ok, err,
  is_some, ==_iff, find_where, count_where, count_where_zero, text_eq, to_lower, Bool-cases, inl,
  inr, ◌⊎◌, arith, eq-of-text_eq,
}
use holibrary_backend.Domain.{
  invalid, forbidden, conflict, Error, User, Role, member, librarian, admin, no_role,
}
use holibrary_backend.Db.{Db, transact, record_audit, member_created}
use holibrary_backend.Circulation.Desk.{has_user_id}
use holibrary_backend.Accounts.Tokens.{save_password_reset}
use holibrary_backend.Accounts.Roles.{roles_creatable_by}
use holibrary_backend.Notifications.Queue.{queue}
use holibrary_backend.Notifications.Invitations.{queue_tracked}
use holibrary_backend.Members.Register.{
  NewMember, Draw, is_valid_member, may_create, requested_role, new_user, has_identifier, has_email,
  insert_user, invite, invite_new, welcome, create_member,
}

-- Another account has the identifier or the address.
unfoldable pub is_taken : User → Db → Bool
is_taken u db =
    is_some (find_where (has_identifier u.identifier) db.users)
    || is_some (find_where (has_email u.email) db.users)

-- The row that Create inserts, in the database that it inserts it in.
inserted : ℕ → User → Db → Db
inserted staff u db =
    record_audit staff member_created u.id
      (record db { users = u ∷ db.users; next_id = db.next_id + 1 })

find-inserted :
    (staff : ℕ) (u : User) (db : Db)
    → find_where (has_user_id u.id) (inserted staff u db).users ≡ some u
unfolding inserted find_where record_audit
find-inserted staff u db = ground (arith, ==_iff u.id u.id)

insert_user-taken :
    (staff : ℕ) (u : User) (db : Db) → is_taken u db ≡ true → insert_user staff u db ≡ err conflict
unfolding is_taken insert_user
insert_user-taken staff u db t = rw t

insert_user-free :
    (staff : ℕ) (u : User) (db : Db)
    → is_taken u db ≡ false
    → insert_user staff u db ≡ ok (u, inserted staff u db)
unfolding is_taken insert_user inserted
insert_user-free staff u db t = rw t

pub invite-ok :
    (user : ℕ) (batch : Option ℕ) (x : Draw) (now : ℕ) (db : Db) (u : User)
    → find_where (has_user_id user) db.users ≡ some u
    → (n : ℕ) × ((invite user batch x now db).0 ≡ ok n)
unfolding invite queue_tracked queue save_password_reset
invite-ok user batch x now db u f = (db.next_id, ground arith)

pub invite-users :
    (user : ℕ) (batch : Option ℕ) (x : Draw) (now : ℕ) (db : Db)
    → (invite user batch x now db).1.users ≡ db.users
unfolding invite queue_tracked queue save_password_reset
invite-users user batch x now db = ground arith

welcome-users : (u : User) (r : Result Error ℕ × Db) → (welcome u r).1.users ≡ r.1.users
welcome-users u (ok n, db) = refl
welcome-users u (err e, db) = refl

pub create_member-taken :
    (actor : Role) (staff : ℕ) (p : NewMember) (x : Draw) (now : ℕ) (db : Db)
    → is_valid_member p ≡ true
    → may_create (roles_creatable_by actor) (requested_role p) ≡ true
    → is_taken (new_user db.next_id p x.hash now) db ≡ true
    → create_member actor staff p x now db ≡ (err conflict, db)
unfolding create_member
create_member-taken actor staff p x now db v m t = rw (
  v,
  m,
  insert_user-taken staff (new_user db.next_id p x.hash now) db t,
  create_member,
  invite_new,
  transact,
)

-- The one way in which Create succeeds.
pub create_member-free :
    (actor : Role) (staff : ℕ) (p : NewMember) (x : Draw) (now : ℕ) (db : Db)
    → is_valid_member p ≡ true
    → may_create (roles_creatable_by actor) (requested_role p) ≡ true
    → is_taken (new_user db.next_id p x.hash now) db ≡ false
    → ((create_member actor staff p x now db).0 ≡ ok (new_user db.next_id p x.hash now))
      × ((create_member actor staff p x now db).1.users
          ≡ new_user db.next_id p x.hash now ∷ db.users)
unfolding create_member inserted record_audit
create_member-free actor staff p x now db v m t =
    let u = new_user db.next_id p x.hash now in
    let (n, k) = invite-ok u.id p.batch x now (inserted staff u db) u (find-inserted staff u db) in
    let free = insert_user-free staff u db t in
    (
      rw (v, m, free, k, create_member, invite_new, transact, welcome),
      rw (v, m, free, create_member, invite_new, transact)
          (welcome-users u (invite u.id p.batch x now (inserted staff u db))
            ∙ invite-users u.id p.batch x now (inserted staff u db)),
    )

pub create_member-cases :
    (actor : Role) (staff : ℕ) (p : NewMember) (x : Draw) (now : ℕ) (db : Db)
    → ((e : Error) × (create_member actor staff p x now db ≡ (err e, db)))
      ⊎ ((create_member actor staff p x now db).0 ≡ ok (new_user db.next_id p x.hash now))
        × ((create_member actor staff p x now db).1.users
            ≡ new_user db.next_id p x.hash now ∷ db.users)
        × (may_create (roles_creatable_by actor) (requested_role p) ≡ true)
        × (is_taken (new_user db.next_id p x.hash now) db ≡ false)
unfolding create_member
create_member-cases actor staff p x now db = elim (Bool-cases (is_valid_member p)) [
  | inr v ↦ inl (invalid, rw (v, create_member))
  | inl v ↦ elim (Bool-cases (may_create (roles_creatable_by actor) (requested_role p))) [
    | inr m ↦ inl (forbidden, rw (v, m, create_member))
    | inl m ↦ elim (Bool-cases (is_taken (new_user db.next_id p x.hash now) db)) [
      | inl t ↦ inl (conflict, create_member-taken actor staff p x now db v m t)
      | inr t ↦
          let (r, users) = create_member-free actor staff p x now db v m t in inr (r, users, m, t)
    ]
  ]
]

-- No two accounts have one identifier, and no two have one address up to case.
pub record IsRoll (db : Db) : Type 0 where
  pub identifiers : (i : List ℕ) → count_where (has_identifier i) db.users ≤ 1
  pub addresses : (a : List ℕ) → count_where (has_email a) db.users ≤ 1

may_create-role :
    (actor r : Role)
    → may_create (roles_creatable_by actor) r ≡ true
    → (actor ≡ admin) ⊎ ((actor ≡ librarian) × (r ≡ member))
unfolding roles_creatable_by
may_create-role admin r h = inl refl
may_create-role librarian member h = inr (refl, refl)
may_create-role librarian librarian h = absurd (ground arith)
may_create-role librarian admin h = absurd (ground arith)
may_create-role librarian no_role h = absurd (ground arith)
may_create-role member r h = absurd (ground arith)
may_create-role no_role r h = absurd (ground arith)

-- Create, refused for whatever reason, leaves the database as it was. Where it succeeds, the caller is
-- an administrator, or a librarian and the account that of a member; and the table of users has got the
-- returned account and no other change.
pub create_member_rights :
    (actor : Role) (staff : ℕ) (p : NewMember) (x : Draw) (now : ℕ) (db : Db)
    → ((e : Error) × (create_member actor staff p x now db ≡ (err e, db)))
      ⊎ ((u : User) × ((create_member actor staff p x now db).0 ≡ ok u)
          × ((create_member actor staff p x now db).1.users ≡ u ∷ db.users)
          × ((actor ≡ admin) ⊎ ((actor ≡ librarian) × (u.role ≡ member))))
create_member_rights actor staff p x now db = elim (create_member-cases actor staff p x now db) [
  | inl h ↦ inl h
  | inr (r, users, m, _) ↦ inr (
    new_user db.next_id p x.hash now,
    r,
    users,
    unfold new_user in may_create-role actor (requested_role p) m,
  )
]

-- A row with a new key, before rows of which no two have one key.
count-key :
    (key : User → List ℕ) (u : User) (users : List User) (i : List ℕ)
    → is_some (find_where (λ v. text_eq (key v) (key u)) users) ≡ false
    → count_where (λ v. text_eq (key v) i) users ≤ 1
    → count_where (λ v. text_eq (key v) i) (u ∷ users) ≤ 1
unfolding count_where
count-key key u users i t h = elim (Bool-cases (text_eq (key u) i)) [
  | inl s ↦
      let zero = count_where_zero (λ v. text_eq (key v) (key u)) users (ground (arith, t)) in
      let e = eq-of-text_eq (key u) i s in ground (arith, rw e at zero)
  | inr n ↦ ground (arith, n)
]

pub create_member-IsRoll :
    (actor : Role) (staff : ℕ) (p : NewMember) (x : Draw) (now : ℕ) (db : Db)
    → IsRoll db
    → IsRoll (create_member actor staff p x now db).1
create_member-IsRoll actor staff p x now db v = elim (create_member-cases actor staff p x now db) [
  | inl (e, h) ↦ rw h v
  | inr (r, users, m, t) ↦
      let u = new_user db.next_id p x.hash now in
      record {
        identifiers = λ i. rw users (
            count-key (λ w. w.identifier) u db.users i (unfold is_taken in ground (arith, t))
              (v.identifiers i));
        addresses = λ a. rw users (
            count-key (λ w. to_lower w.email) u db.users (to_lower a)
              (unfold is_taken in ground (arith, t)) (v.addresses a));
      }
]
