-- ===== src/Accounts/LoginLaws.antt =====
-- Who signs in and what an access token opens: internal/service/auth_service.go, `Login`, and
-- internal/transport/http/middleware/middleware.go, `Authenticate`.
use holibrary_backend.Prelude.{
  ℕ, ◌≤◌, ◌≡◌, inl, inr, Bool, true, false, none, some, List, ok, err, find_where, Option-cases,
  arith,
}
use holibrary_backend.Domain.{User, active, invalid_credentials}
use holibrary_backend.Db.{Db}
use holibrary_backend.Circulation.Desk.{has_user_id}
use holibrary_backend.Accounts.RateLimit.{Memory, Shared, allow_account, per_account_login}
use holibrary_backend.Accounts.Tokens.{find_by_login, session_valid}
use holibrary_backend.Accounts.Sessions.{
  Crypto, Claims, Session, issue_session, login_key, admit, login, authenticate, numeric_date,
}

login-inv :
    (x : Crypto) (shared : Shared) (name password : List ℕ) (token now : ℕ) (ws : Memory) (db : Db)
    (s : Session)
    → (login x shared name password token now ws db).0 ≡ ok s
    → (u : User) × (find_by_login name db ≡ some u)
      × (x.verify_password password u.password_hash ≡ true)
      × (u.status ≡ active)
      × ((allow_account shared (login_key x u) per_account_login now ws).0 ≡ true)
      × (s.access_token ≡ record {
        user_id = u.id;
        role = u.role;
        pending = u.must_change_password;
        issued_at = numeric_date now;
      })
unfolding login admit issue_session
login-inv x shared name password token now ws db s h = elim (Option-cases (find_by_login name db)) [
  | inl n ↦ absurd (ground arith)
  | inr (u, e) ↦ (u, e, ground arith, ground arith, ground arith, ground arith)
]

-- Nobody signs in but to an account that the name finds, with a password that its hash verifies, while
-- the account is active and the limiter lets the attempt through; the session is that account's, in
-- its role, and confined if the account must change its password. A name that finds no account is
-- refused in the same way as a wrong password.
pub login_rules :
    (x : Crypto) (shared : Shared) (name password : List ℕ) (token now : ℕ) (ws : Memory) (db : Db)
    → ((s : Session)
        → (login x shared name password token now ws db).0 ≡ ok s
        → (u : User) × (find_by_login name db ≡ some u)
          × (x.verify_password password u.password_hash ≡ true)
          × (u.status ≡ active)
          × ((allow_account shared (login_key x u) per_account_login now ws).0 ≡ true)
          × (s.access_token ≡ record {
            user_id = u.id;
            role = u.role;
            pending = u.must_change_password;
            issued_at = numeric_date now;
          }))
      × (find_by_login name db ≡ none
          → (login x shared name password token now ws db).0 ≡ err invalid_credentials)
      × ((u : User)
          → find_by_login name db ≡ some u
          → (allow_account shared (login_key x u) per_account_login now ws).0 ≡ true
          → x.verify_password password u.password_hash ≡ false
          → (login x shared name password token now ws db).0 ≡ err invalid_credentials)
login_rules x shared name password token now ws db = (
  (λ s h. login-inv x shared name password token now ws db s h),
  (λ n. unfold login in ground arith),
  (λ u e a v. unfold login admit in ground arith),
)

-- An access token of an account that must change its password opens no route but those for changing
-- the password and signing out, and one with a role that the account no longer has opens none.
pub authenticate_rules :
    (c d : Claims) (exempt : Bool) (db : Db)
    → authenticate c exempt db ≡ ok d
    → (d ≡ c)
      × ((c.pending ≡ true) → exempt ≡ true)
      × ((u : User) × (find_where (has_user_id c.user_id) db.users ≡ some u)
          × (u.role ≡ c.role)
          × (u.tokens_invalid_before ≤ c.issued_at))
unfolding authenticate session_valid
authenticate_rules c d exempt db h =
    elim (Option-cases (find_where (has_user_id c.user_id) db.users)) [
      | inl n ↦ absurd (ground arith)
      | inr (u, e) ↦ (ground arith, (λ p. ground arith), (u, e, ground arith, ground arith))
    ]
