-- ===== src/Accounts/Roles.antt =====
-- Roles and statuses: UpdateRole and UpdateStatus of internal/repository/postgres/user_repo.go, SetRole
-- and RolesCreatableBy of internal/service/member_service.go, and the Require middleware of
-- internal/transport/http/middleware/middleware.go.
use holibrary_backend.Prelude.{
  ℕ, leb, Bool, true, false, ◌&&◌, ◌||◌, Option, none, some, List, [], ◌∷◌, Result, ok, err,
  if◌then◌else◌, not, is_some, find_where, update_where, count_where,
}
use holibrary_backend.Domain.{
  Error, User, UserStatus, Role, member, librarian, admin, no_role, role_eq, can_manage_library,
  MemberCategory, category_eq, terms_for, not_found, conflict, invalid_member_category, no_category,
  invalid, forbidden,
}
use holibrary_backend.Db.{
  Tx, Action, transact, record_audit, member_role_changed, member_status_changed,
}
use holibrary_backend.Circulation.Desk.{has_user_id}

unfoldable pub roles_creatable_by : Role → List Role
roles_creatable_by admin = member ∷ librarian ∷ admin ∷ []
roles_creatable_by librarian = member ∷ []
roles_creatable_by _ = []

abbrev pub is_admin : User → Bool
is_admin u = role_eq u.role admin

abbrev same_category : Option MemberCategory → Option MemberCategory → Bool
same_category none none = true
same_category (some c) (some d) = category_eq c d
same_category _ _ = false

-- The category that the account ends with, or the refusal of the one that was asked for.
unfoldable pub resolve_category :
    Role → Option MemberCategory → Option MemberCategory → Result Error (Option MemberCategory)
resolve_category role existing none = ok existing
resolve_category role existing (some c) =
    if not (is_some (terms_for c)) || not (role_eq role member)
    then err invalid_member_category
    else ok (some c)

abbrev pub reassign : Role → Option MemberCategory → ℕ → User → User
reassign role category now u = record u {
  role = role;
  category = category;
  tokens_invalid_before = now;
}

-- The rest of UpdateRole, with the resolved category.
unfoldable pub write_role : ℕ → Role → Option MemberCategory → ℕ → ℕ → User → Tx (Unit {0})
write_role i role resolved staff now u db =
    if role_eq role member && not (is_some resolved)
    then err no_category
    else if role_eq u.role role && same_category u.category resolved
    then ok (tt, db)
    else ok (
      tt,
      record_audit staff member_role_changed i (record db {
        users = update_where (has_user_id i) (reassign role resolved now) db.users;
      }),
    )

-- UserRepo.UpdateRole
unfoldable pub update_role : ℕ → Role → Option MemberCategory → ℕ → ℕ → Tx (Unit {0})
update_role i role category staff now db = elim (find_where (has_user_id i) db.users) [
  | none ↦ err not_found
  | some u ↦
      if is_admin u && not (role_eq role admin) && leb (count_where is_admin db.users) 1
      then err conflict
      else elim (resolve_category role u.category category) [
        | err e ↦ err e
        | ok resolved ↦ write_role i role resolved staff now u db
      ]
]

abbrev is_known_category : Option MemberCategory → Bool
is_known_category none = true
is_known_category (some c) = is_some (terms_for c)

abbrev pub is_known_role : Role → Bool
is_known_role no_role = false
is_known_role _ = true

-- MemberService.SetRole
unfoldable pub set_role : ℕ → Role → Option MemberCategory → ℕ → ℕ → Action (Unit {0})
set_role i role category staff now db =
    if not (is_known_category category)
    then (err invalid_member_category, db)
    else if not (is_known_role role)
    then (err invalid, db)
    else transact (update_role i role category staff now) db

-- UserRepo.UpdateStatus, which MemberService.SetStatus calls.
unfoldable update_status : ℕ → UserStatus → ℕ → Tx (Unit {0})
update_status i status staff db = elim (find_where (has_user_id i) db.users) [
  | none ↦ err not_found
  | some _ ↦ ok (
    tt,
    record_audit staff member_status_changed i (record db {
      users = update_where (has_user_id i) (λ u. record u { status = status }) db.users;
    }),
  )
]

unfoldable pub require_librarian : Role → Result Error (Unit {0})
require_librarian r = if not (can_manage_library r) then err forbidden else ok tt

unfoldable pub require_member : Role → Result Error (Unit {0})
require_member r = if not (role_eq r member) then err forbidden else ok tt

unfoldable pub require_admin : Role → Result Error (Unit {0})
require_admin r = if not (role_eq r admin) then err forbidden else ok tt
