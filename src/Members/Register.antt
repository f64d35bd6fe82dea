-- ===== src/Members/Register.antt =====
-- Create, validateNewMember, displayName and ResendInvitation of internal/service/member_service.go, as
-- cmd/api/main.go wires them, with a token store and the outbox; and UserRepo.Create of
-- internal/repository/postgres/user_repo.go. `no_role` stands for the role that a request leaves out
-- or misspells, and is told apart by `role : Option Role`.
use holibrary_backend.Prelude.{
  ℕ, ◌+◌, ◌*◌, Bool, true, false, ◌&&◌, ◌||◌, not, Option, none, some, List, [], ◌∷◌, ◌++◌, Result,
  ok, err, if◌then◌else◌, is_some, find_where, codes, to_lower, trim_space, text_eq,
}
use holibrary_backend.Domain.{
  Error, User, Role, member, role_eq, MemberCategory, terms_for, active, day, not_found, conflict,
  forbidden, invalid,
}
use holibrary_backend.Db.{
  Db, Tx, Action, transact, record_audit, member_created, email, account_setup, Payload,
}
use holibrary_backend.Circulation.Desk.{has_user_id}
use holibrary_backend.Accounts.Tokens.{save_password_reset, invalidate_password_resets}
use holibrary_backend.Accounts.Roles.{roles_creatable_by}
use holibrary_backend.Notifications.Invitations.{queue_tracked, invalidate_for_member}

abbrev pub account_setup_ttl : ℕ
account_setup_ttl = 7 * day

-- NewMemberParams; `batch` is uuid.Nil, so `none`, outside an import.
pub record NewMember : Type 0 where
  pub identifier : List ℕ
  pub email : List ℕ
  pub full_name : List ℕ
  pub first_name : List ℕ
  pub last_name : List ℕ
  pub faculty : List ℕ
  pub department : List ℕ
  pub level : List ℕ
  pub category : MemberCategory
  pub role : Option Role
  pub is_synthetic : Bool
  pub batch : Option ℕ

abbrev pub is_blank : List ℕ → Bool
is_blank [] = true
is_blank (c ∷ s) = false

unfoldable pub display_name : NewMember → List ℕ
display_name p =
    let full = trim_space p.full_name in
    if is_blank full
    then trim_space (trim_space p.first_name ++ codes " " ++ trim_space p.last_name)
    else full

-- strings.Contains(p.Email, "@")
unfoldable pub has_at : List ℕ → Bool
has_at [] = false
has_at (c ∷ s) = text_eq (c ∷ []) (codes "@") || has_at s

abbrev pub requested_role : NewMember → Role
requested_role p = elim p.role [ none ↦ member | some r ↦ r ]

-- validateNewMember, whose errors are told apart by their text alone
unfoldable pub is_valid_member : NewMember → Bool
is_valid_member p =
    not (is_blank (trim_space p.identifier))
    && has_at p.email
    && not (is_blank (display_name p))
    && (not (role_eq (requested_role p) member) || is_some (terms_for p.category))

abbrev pub may_create : List Role → Role → Bool
may_create [] r = false
may_create (s ∷ rs) r = role_eq s r || may_create rs r

abbrev category_for : Role → MemberCategory → Option MemberCategory
category_for r c = if role_eq r member then some c else none

-- The row that Create writes.
unfoldable pub new_user : ℕ → NewMember → ℕ → ℕ → User
new_user i p hash now = record {
  id = i;
  identifier = trim_space p.identifier;
  email = to_lower (trim_space p.email);
  profile = record {
    full_name = display_name p;
    first_name = trim_space p.first_name;
    last_name = trim_space p.last_name;
    faculty = trim_space p.faculty;
    department = trim_space p.department;
    level = trim_space p.level;
    is_synthetic = p.is_synthetic;
  };
  role = requested_role p;
  category = category_for (requested_role p) p.category;
  status = active;
  password_hash = hash;
  must_change_password = true;
  tokens_invalid_before = now;
}

abbrev pub has_identifier : List ℕ → User → Bool
has_identifier i u = text_eq u.identifier i

-- The column is citext.
abbrev pub has_email : List ℕ → User → Bool
has_email e u = text_eq (to_lower u.email) (to_lower e)

-- UserRepo.Create, for a row that keeps members_need_a_category.
unfoldable pub insert_user : ℕ → User → Tx User
insert_user staff u db =
    if is_some (find_where (has_identifier u.identifier) db.users)
      || is_some (find_where (has_email u.email) db.users)
    then err conflict
    else ok (
      u,
      record_audit staff member_created u.id
          (record db { users = u ∷ db.users; next_id = db.next_id + 1 }),
    )

-- What a call draws: the hash of a random password, the setup token, and the token's hash.
pub record Draw : Type 0 where
  pub hash : ℕ
  pub token : ℕ
  pub token_hash : ℕ

abbrev pub setup_payload : ℕ → Payload
setup_payload token = record { loan_id = none; reservation_id = none; token = some token }

-- SavePasswordReset and QueueTracked for an account.
unfoldable pub invite : ℕ → Option ℕ → Draw → ℕ → Action ℕ
invite user batch x now db =
    transact (queue_tracked user email account_setup (setup_payload x.token) batch now)
      (save_password_reset user x.token_hash (now + account_setup_ttl) db)

abbrev pub welcome : User → Result Error ℕ × Db → Result Error User × Db
welcome u (ok _, db) = (ok u, db)
welcome u (err e, db) = (err e, db)

abbrev pub invite_new : NewMember → Draw → ℕ → Result Error User × Db → Result Error User × Db
invite_new p x now (err e, db) = (err e, db)
invite_new p x now (ok u, db) = welcome u (invite u.id p.batch x now db)

-- MemberService.Create
unfoldable pub create_member : Role → ℕ → NewMember → Draw → ℕ → Action User
create_member actor staff p x now db =
    if not (is_valid_member p)
    then (err invalid, db)
    else if not (may_create (roles_creatable_by actor) (requested_role p))
    then (err forbidden, db)
    else invite_new p x now (transact (insert_user staff (new_user db.next_id p x.hash now)) db)

-- ResendInvitation
unfoldable pub resend_invitation : ℕ → Draw → ℕ → Action ℕ
resend_invitation i x now db = elim (find_where (has_user_id i) db.users) [
  | none ↦ (err not_found, db)
  | some u ↦
      invite u.id none x now (invalidate_for_member u.id (invalidate_password_resets u.id now db))
]
