-- ===== src/Accounts/Tokens.antt =====
-- TokenRepo of internal/repository/postgres/token_repo.go, and the statements of user_repo.go that
-- sessions use. A hash is a number.
use holibrary_backend.Prelude.{
  ℕ, ◌==◌, leb, ltb, Bool, false, ◌&&◌, ◌||◌, Option, none, some, List, ◌∷◌, Result, ok, err, not,
  is_some, find_where, update_where, to_lower, trim_space, text_eq,
}
use holibrary_backend.Domain.{Error, User, Role, role_eq, not_found, token_invalid}
use holibrary_backend.Db.{Db, Tx, RefreshToken, PasswordReset}
use holibrary_backend.Circulation.Desk.{has_user_id}

unfoldable pub save_refresh_token : ℕ → ℕ → ℕ → ℕ → Db → Db
save_refresh_token user hash expires now db = record db {
  refresh_tokens =
      record {
        user_id = user;
        token_hash = hash;
        expires_at = expires;
        revoked_at = none;
        created_at = now;
      }
      ∷ db.refresh_tokens;
}

-- created_at >= (SELECT tokens_invalid_before ...), which is NULL without the user.
abbrev is_current : ℕ → Option User → Bool
is_current created none = false
is_current created (some u) = leb u.tokens_invalid_before created

abbrev pub is_usable : ℕ → ℕ → List User → RefreshToken → Bool
is_usable hash now users t =
    t.token_hash == hash
    && not (is_some t.revoked_at)
    && ltb now t.expires_at
    && is_current t.created_at (find_where (has_user_id t.user_id) users)

abbrev pub revoke : ℕ → RefreshToken → RefreshToken
revoke now t = record t { revoked_at = some now }

-- ConsumeRefreshToken
unfoldable pub consume_refresh_token : ℕ → ℕ → Tx ℕ
consume_refresh_token hash now db =
    elim (find_where (is_usable hash now db.users) db.refresh_tokens) [
      | none ↦ err not_found
      | some t ↦ ok (
        t.user_id,
        record db {
          refresh_tokens =
              update_where (is_usable hash now db.users) (revoke now) db.refresh_tokens;
        },
      )
    ]

unfoldable pub revoke_refresh_token : ℕ → ℕ → Db → Db
revoke_refresh_token hash now db = record db {
  refresh_tokens =
      update_where (λ t. t.token_hash == hash && not (is_some t.revoked_at)) (revoke now)
        db.refresh_tokens;
}

abbrev pub is_open_token : ℕ → RefreshToken → Bool
is_open_token user t = t.user_id == user && not (is_some t.revoked_at)

unfoldable pub revoke_all_refresh_tokens : ℕ → ℕ → Db → Db
revoke_all_refresh_tokens user now db = record db {
  refresh_tokens = update_where (is_open_token user) (revoke now) db.refresh_tokens;
}

unfoldable pub save_password_reset : ℕ → ℕ → ℕ → Db → Db
save_password_reset user hash expires db = record db {
  password_resets =
      record { user_id = user; token_hash = hash; expires_at = expires; used_at = none }
      ∷ db.password_resets;
}

abbrev pub is_unused : ℕ → ℕ → PasswordReset → Bool
is_unused hash now r = r.token_hash == hash && not (is_some r.used_at) && ltb now r.expires_at

abbrev pub use_up : ℕ → PasswordReset → PasswordReset
use_up now r = record r { used_at = some now }

-- ConsumePasswordReset
unfoldable pub consume_password_reset : ℕ → ℕ → Tx ℕ
consume_password_reset hash now db = elim (find_where (is_unused hash now) db.password_resets) [
  | none ↦ err token_invalid
  | some r ↦ ok (
    r.user_id,
    record db {
      password_resets = update_where (is_unused hash now) (use_up now) db.password_resets;
    },
  )
]

unfoldable pub invalidate_password_resets : ℕ → ℕ → Db → Db
invalidate_password_resets user now db = record db {
  password_resets =
      update_where (λ r. r.user_id == user && not (is_some r.used_at)) (use_up now)
        db.password_resets;
}

-- FindByLogin: lower(identifier) = lower($1) OR lower(email) = lower($1)
abbrev answers_to : List ℕ → User → Bool
answers_to login u =
    text_eq (to_lower u.identifier) (to_lower login) || text_eq (to_lower u.email) (to_lower login)

unfoldable pub find_by_login : List ℕ → Db → Option User
find_by_login login db = find_where (answers_to (trim_space login)) db.users

-- users.email is citext.
unfoldable pub find_by_email : List ℕ → Db → Option User
find_by_email address db = find_where (λ u. text_eq (to_lower u.email) (to_lower address)) db.users

abbrev pub renew : ℕ → ℕ → User → User
renew hash now u = record u {
  password_hash = hash;
  must_change_password = false;
  tokens_invalid_before = now;
}

-- UpdatePassword
unfoldable pub update_password : ℕ → ℕ → ℕ → Tx (Unit {0})
update_password user hash now db = elim (find_where (has_user_id user) db.users) [
  | none ↦ err not_found
  | some _ ↦
      ok (tt, record db { users = update_where (has_user_id user) (renew hash now) db.users })
]

-- SessionValid
unfoldable pub session_valid : ℕ → ℕ → Role → Db → Result Error Bool
session_valid user issued role db = elim (find_where (has_user_id user) db.users) [
  | none ↦ err not_found
  | some u ↦ ok (role_eq u.role role && leb u.tokens_invalid_before issued)
]
