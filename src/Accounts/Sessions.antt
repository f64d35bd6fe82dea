-- ===== src/Accounts/Sessions.antt =====
-- AuthService of internal/service/auth_service.go, with ValidatePassword of internal/auth/password.go
-- and the session tests of Authenticate in internal/transport/http/middleware/middleware.go. The
-- cryptography, the Unicode tables and the text of a uuid are parameters; a token or salt that the
-- source draws at random is an argument. `now` is one clock for the service and the database.
use holibrary_backend.Prelude.{
  ℕ, ◌+◌, ◌*◌, ◌/◌, ltb, Bool, false, ◌&&◌, ◌||◌, Option, none, some, List, [], ◌∷◌, ◌++◌, Result,
  ok, err, if◌then◌else◌, not, find_where, length, codes, to_lower, trim_space,
}
use holibrary_backend.Domain.{
  Error, User, is_active, Role, second, invalid_credentials, rate_limited, member_not_active,
  token_invalid, password_too_weak, not_found, must_change_password,
}
use holibrary_backend.Db.{Db, Action, Payload, email, password_reset}
use holibrary_backend.Circulation.Desk.{has_user_id}
use holibrary_backend.Notifications.Queue.{queue}
use holibrary_backend.Accounts.RateLimit.{
  Memory, Shared, per_account_login, per_account_reset, allow_account,
}
use holibrary_backend.Accounts.Tokens.{
  save_refresh_token, consume_refresh_token, revoke_refresh_token, revoke_all_refresh_tokens,
  save_password_reset, consume_password_reset, find_by_login, find_by_email, update_password,
  session_valid,
}

pub record Crypto : Type 0 where
  pub verify_password : List ℕ → ℕ → Bool
  pub hash_password : ℕ → List ℕ → ℕ
  pub hash_token : ℕ → ℕ
  pub is_letter : ℕ → Bool
  pub is_number : ℕ → Bool
  pub uuid_text : ℕ → List ℕ
  pub refresh_ttl : ℕ

unfoldable pub any_of : (ℕ → Bool) → List ℕ → Bool
any_of p [] = false
any_of p (c ∷ s) = p c || any_of p s

abbrev min_password_length : ℕ
min_password_length = 10

-- ValidatePassword, without the text of the message. A rune counts as a number only if it is no letter.
unfoldable pub validate_password : Crypto → List ℕ → Bool
validate_password x p =
    not (ltb (length p) min_password_length)
    && any_of x.is_letter p
    && any_of (λ c. not (x.is_letter c) && x.is_number c) p

-- The claims of an access token.
pub record Claims : Type 0 where
  pub user_id : ℕ
  pub role : Role
  pub pending : Bool
  pub issued_at : ℕ

pub record Session : Type 0 where
  pub access_token : Claims
  pub refresh_token : ℕ
  pub must_change_password : Bool

-- jwt.NewNumericDate drops the fraction of a second.
abbrev pub numeric_date : ℕ → ℕ
numeric_date now = now / second * second

unfoldable pub issue_session : Crypto → User → ℕ → ℕ → Db → Session × Db
issue_session x u token now db = (
  record {
    access_token = record {
      user_id = u.id;
      role = u.role;
      pending = u.must_change_password;
      issued_at = numeric_date now;
    };
    refresh_token = token;
    must_change_password = u.must_change_password;
  },
  save_refresh_token u.id (x.hash_token token) (now + x.refresh_ttl) now db,
)

abbrev pub login_key : Crypto → User → List ℕ
login_key x u = codes "rl:login:uid:" ++ to_lower (trim_space (x.uuid_text u.id))

abbrev reset_key : List ℕ → List ℕ
reset_key address = codes "rl:reset:" ++ to_lower (trim_space address)

-- Login after the account has been found and the limiter has been asked.
unfoldable pub admit : Crypto → Bool → User → List ℕ → ℕ → ℕ → Action Session
admit x allowed u password token now db =
    if not allowed
    then (err rate_limited, db)
    else if not (x.verify_password password u.password_hash)
    then (err invalid_credentials, db)
    else if not (is_active u.status)
    then (err member_not_active, db)
    else let (s, db') = issue_session x u token now db in (ok s, db')

unfoldable pub login :
    Crypto → Shared → List ℕ → List ℕ → ℕ → ℕ → Memory → Db → Result Error Session × Memory × Db
login x shared name password token now ws db = elim (find_by_login name db) [
  | none ↦ (err invalid_credentials, ws, db)
  | some u ↦
      let (allowed, ws') = allow_account shared (login_key x u) per_account_login now ws in
      let (r, db') = admit x allowed u password token now db in (r, ws', db')
]

abbrev renew_session : Crypto → ℕ → ℕ → Option User → Action Session
renew_session x token now none db = (err token_invalid, db)
renew_session x token now (some u) db =
    if not (is_active u.status)
    then (err member_not_active, db)
    else let (s, db') = issue_session x u token now db in (ok s, db')

-- Refresh: the old token is spent even where the call is refused afterwards.
unfoldable pub refresh : Crypto → ℕ → ℕ → ℕ → Action Session
refresh x old token now db = elim (consume_refresh_token (x.hash_token old) now db) [
  | err _ ↦ (err token_invalid, db)
  | ok (user, db') ↦ renew_session x token now (find_where (has_user_id user) db'.users) db'
]

unfoldable logout : Crypto → ℕ → ℕ → Db → Db
logout x old now db = revoke_refresh_token (x.hash_token old) now db

-- UpdatePassword and RevokeAllRefreshTokens, the end of both password changes.
unfoldable pub replace_password : ℕ → ℕ → ℕ → Action (Unit {0})
replace_password user hash now db = elim (update_password user hash now db) [
  | err e ↦ (err e, db)
  | ok (_, db') ↦ (ok tt, revoke_all_refresh_tokens user now db')
]

unfoldable pub change_password : Crypto → ℕ → List ℕ → List ℕ → ℕ → ℕ → Action (Unit {0})
change_password x user old new salt now db = elim (find_where (has_user_id user) db.users) [
  | none ↦ (err not_found, db)
  | some u ↦
      if not (x.verify_password old u.password_hash)
      then (err invalid_credentials, db)
      else if not (validate_password x new)
      then (err password_too_weak, db)
      else replace_password user (x.hash_password salt new) now db
]

abbrev password_reset_ttl : ℕ
password_reset_ttl = 30 * 60 * second

abbrev reset_payload : ℕ → Payload
reset_payload token = record { loan_id = none; reservation_id = none; token = some token }

-- RequestPasswordReset. It answers no error on any path that the model has.
unfoldable request_password_reset : Crypto → Shared → List ℕ → ℕ → ℕ → Memory → Db → Memory × Db
request_password_reset x shared address token now ws db =
    let (allowed, ws') = allow_account shared (reset_key address) per_account_reset now ws in
    if not allowed then (ws', db) else elim (find_by_email address db) [
      | none ↦ (ws', db)
      | some u ↦ (
        ws',
        queue u.id email password_reset (reset_payload token) now
            (save_password_reset u.id (x.hash_token token) (now + password_reset_ttl) db),
      )
    ]

abbrev reset_for : Crypto → ℕ → List ℕ → ℕ → ℕ → Option User → Action (Unit {0})
reset_for x user new salt now none db = (err not_found, db)
reset_for x user new salt now (some u) db =
    if not (is_active u.status)
    then (err member_not_active, db)
    else replace_password user (x.hash_password salt new) now db

-- ResetPassword: the token is spent even where the account turns out not to be active.
unfoldable pub reset_password : Crypto → ℕ → List ℕ → ℕ → ℕ → Action (Unit {0})
reset_password x token new salt now db =
    if not (validate_password x new)
    then (err password_too_weak, db)
    else elim (consume_password_reset (x.hash_token token) now db) [
      | err _ ↦ (err token_invalid, db)
      | ok (user, db') ↦ reset_for x user new salt now (find_where (has_user_id user) db'.users) db'
    ]

-- Authenticate after the token has been parsed, with a session validator; `exempt` is
-- isPasswordChangeRoute.
unfoldable pub authenticate : Claims → Bool → Db → Result Error Claims
authenticate c exempt db = elim (session_valid c.user_id c.issued_at c.role db) [
  | err _ ↦ err token_invalid
  | ok b ↦
      if not b
      then err token_invalid
      else if c.pending && not exempt
      then err must_change_password
      else ok c
]
