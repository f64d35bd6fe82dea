-- ===== src/Accounts/RoleLaws.antt =====
-- What a change of role guarantees: user_repo.go, `UpdateRole`, and member_service.go, `SetRole`.
use holibrary_backend.Prelude.{
  ℕ, ◌≤◌, ◌<◌, leb, ◌≡◌, ◌≢◌, ◌⊎◌, inl, inr, refl, true, false, ◌&&◌, Option, some, List, Result,
  ok, err, not, find_where, update_where, count_where, count-update_one, Bool-cases, Option-cases,
  arith,
}
use holibrary_backend.Domain.{
  Error, User, Role, member, admin, role_eq, MemberCategory, invalid_member_category,
}
use holibrary_backend.Db.{Db, transact, record_audit}
use holibrary_backend.Circulation.Desk.{has_user_id}
use holibrary_backend.Accounts.Roles.{
  is_admin, resolve_category, reassign, write_role, update_role, set_role, is_known_role,
}

admins-reassign :
    (i : ℕ) (role : Role) (category : Option MemberCategory) (now : ℕ) (users : List User)
    (u : User)
    → count_where (has_user_id i) users ≤ 1
    → find_where (has_user_id i) users ≡ some u
    → (is_admin u ≡ true → role_eq role admin ≡ false → 1 < count_where is_admin users)
    → 0 < count_where is_admin users
    → 0 < count_where is_admin (update_where (has_user_id i) (reassign role category now) users)
admins-reassign i role category now users u v e h p =
    ground
      (arith, count-update_one (has_user_id i) is_admin (reassign role category now) users u v e, h)

write_keeps_admin :
    (i : ℕ) (role : Role) (resolved : Option MemberCategory) (staff now : ℕ) (db : Db) (u : User)
    → count_where (has_user_id i) db.users ≤ 1
    → find_where (has_user_id i) db.users ≡ some u
    → (is_admin u ≡ true → role_eq role admin ≡ false → 1 < count_where is_admin db.users)
    → 0 < count_where is_admin db.users
    → 0 < count_where is_admin (transact (write_role i role resolved staff now u) db).1.users
unfolding write_role record_audit
write_keeps_admin i role resolved staff now db u v e h p =
    ground (arith, admins-reassign i role resolved now db.users u v e h p)

Result-cases :
    (r : Result Error (Option MemberCategory))
    → ((e : Error) × (r ≡ err e)) ⊎ ((c : Option MemberCategory) × (r ≡ ok c))
Result-cases (err e) = inl (e, refl)
Result-cases (ok c) = inr (c, refl)

update_keeps_admin :
    (i : ℕ) (role : Role) (category : Option MemberCategory) (staff now : ℕ) (db : Db) (u : User)
    → count_where (has_user_id i) db.users ≤ 1
    → find_where (has_user_id i) db.users ≡ some u
    → 0 < count_where is_admin db.users
    → 0 < count_where is_admin (transact (update_role i role category staff now) db).1.users
unfolding update_role
update_keeps_admin i role category staff now db u v e p =
    elim (Bool-cases
      (is_admin u && not (role_eq role admin) && leb (count_where is_admin db.users) 1)) [
        | inl t ↦ ground arith
        | inr f ↦ elim (Result-cases (resolve_category role u.category category)) [
          | inl (x, q) ↦ ground arith
          | inr (c, q) ↦
              ground (arith, write_keeps_admin i role c staff now db u v e (λ a n. ground arith) p)
        ]
      ]

-- A library that has an administrator keeps one through every change of role, whoever asks for it and
-- whatever comes of it, if no two accounts have one id.
pub set_role_keeps_admin :
    (i : ℕ) (role : Role) (category : Option MemberCategory) (staff now : ℕ) (db : Db)
    → ((j : ℕ) → count_where (has_user_id j) db.users ≤ 1)
    → 0 < count_where is_admin db.users
    → 0 < count_where is_admin (set_role i role category staff now db).1.users
unfolding set_role
set_role_keeps_admin i role category staff now db v p =
    elim (Option-cases (find_where (has_user_id i) db.users)) [
      | inl n ↦ unfold update_role in ground arith
      | inr (u, e) ↦ ground (arith, update_keeps_admin i role category staff now db u (v i) e p)
    ]

-- A borrowing category is refused with every role but member's, and then nothing changes, for any
-- account that exists and is not an administrator who would lose that role.
pub set_role_category :
    (i : ℕ) (role : Role) (c : MemberCategory) (staff now : ℕ) (db : Db) (u : User)
    → find_where (has_user_id i) db.users ≡ some u
    → role ≢ member
    → is_known_role role ≡ true
    → (is_admin u ≡ true → role ≡ admin)
    → set_role i role (some c) staff now db ≡ (err invalid_member_category, db)
unfolding set_role update_role resolve_category
set_role_category i role c staff now db u e n k a = ground arith
