-- ===== src/Accounts/PasswordLaws.antt =====
-- What a change and a reset of a password do to sessions: internal/service/auth_service.go,
-- `ChangePassword` and `ResetPassword`.
use mathlib.Core.Path.{subst}
use holibrary_backend.Prelude.{
  ℕ, ◌==◌, ◌<◌, ◌≡◌, ◌≢◌, inl, inr, refl, Bool, true, false, none, some, List, [], ◌∷◌, ok, err,
  find_where, update_where, find_where-true, find-update_hit, Bool-cases, Option-cases, arith,
}
use holibrary_backend.Domain.{User, active, token_invalid}
use holibrary_backend.Db.{Db, RefreshToken, PasswordReset}
use holibrary_backend.Circulation.Desk.{has_user_id}
use holibrary_backend.Accounts.Tokens.{
  is_usable, revoke, revoke_all_refresh_tokens, is_open_token, is_unused, use_up,
  consume_password_reset, update_password, session_valid, renew,
}
use holibrary_backend.Accounts.Sessions.{
  Crypto, Claims, Session, refresh, replace_password, change_password, reset_password, authenticate,
}
use holibrary_backend.Accounts.RefreshLaws.{refresh-inv}

-- After RevokeAllRefreshTokens no usable token is the user's.
others_only :
    (user now hash later : ℕ) (users : List User) (ts : List RefreshToken) (t : RefreshToken)
    → find_where (is_usable hash later users) (update_where (is_open_token user) (revoke now) ts)
      ≡ some t
    → (t.user_id == user) ≡ false
unfolding find_where update_where
others_only user now hash later users [] t h = cc
others_only user now hash later users (r ∷ ts) t h = elim (Bool-cases (r.user_id == user)) [
  | inl y ↦ ground (arith, others_only user now hash later users ts t)
  | inr n ↦ ground (arith, others_only user now hash later users ts t)
]

abbrev pub replaced : ℕ → ℕ → ℕ → Db → Db
replaced user hash now db = record db {
  users = update_where (has_user_id user) (renew hash now) db.users;
  refresh_tokens = update_where (is_open_token user) (revoke now) db.refresh_tokens;
}

replace-inv :
    (user hash now : ℕ) (db db' : Db)
    → replace_password user hash now db ≡ (ok tt, db')
    → (u : User) × (find_where (has_user_id user) db.users ≡ some u)
      × (replaced user hash now db ≡ db')
unfolding replace_password update_password revoke_all_refresh_tokens
replace-inv user hash now db db' h = elim (Option-cases (find_where (has_user_id user) db.users)) [
  | inl n ↦ absurd (ground arith)
  | inr (u, e) ↦ (u, e, ground arith)
]

-- No session of the user outlives an instant: no refresh token buys one of theirs, and no access token
-- of theirs that was issued before the instant is accepted.
abbrev pub IsSignedOut : Crypto → ℕ → ℕ → Db → Type 0
IsSignedOut x user now db =
    ((old token later : ℕ) (s : Session)
      → (refresh x old token later db).0 ≡ ok s
      → s.access_token.user_id ≢ user)
    × ((c : Claims) (exempt : Bool)
        → c.user_id ≡ user
        → c.issued_at < now
        → authenticate c exempt db ≡ err token_invalid)

no_refresh :
    (x : Crypto) (user hash now old token later : ℕ) (db : Db) (s : Session)
    → (refresh x old token later (replaced user hash now db)).0 ≡ ok s
    → s.access_token.user_id ≢ user
no_refresh x user hash now old token later db s h i =
    let (t, u, e, f, a, j, q) = refresh-inv x old token later (replaced user hash now db) s h in
    let other =
      others_only user now (x.hash_token old) later (replaced user hash now db).users
        db.refresh_tokens t e in
    let own = find_where-true (has_user_id t.user_id) (replaced user hash now db).users u f in
    absurd (ground (arith, other, own, i, j))

replaced-IsSignedOut :
    (x : Crypto) (user hash now : ℕ) (db : Db) (u : User)
    → find_where (has_user_id user) db.users ≡ some u
    → IsSignedOut x user now (replaced user hash now db)
replaced-IsSignedOut x user hash now db u e = (
  (λ old token later s h. no_refresh x user hash now old token later db s h),
  (λ c exempt i l.
      unfold authenticate session_valid in
      let found =
        find-update_hit (has_user_id user) (has_user_id user) (renew hash now) db.users u
          (λ v t. refl) e (find_where-true (has_user_id user) db.users u e) in
      ground (arith, found)),
)

change-inv :
    (x : Crypto) (user salt now : ℕ) (old new : List ℕ) (db db' : Db)
    → change_password x user old new salt now db ≡ (ok tt, db')
    → (u : User) × (find_where (has_user_id user) db.users ≡ some u)
      × (x.verify_password old u.password_hash ≡ true)
      × (replace_password user (x.hash_password salt new) now db ≡ (ok tt, db'))
unfolding change_password
change-inv x user salt now old new db db' h =
    elim (Option-cases (find_where (has_user_id user) db.users)) [
      | inl n ↦ absurd (ground arith)
      | inr (u, e) ↦ (u, e, ground arith, ground arith)
    ]

-- Changing a password needs the current one, and ends every session that the account had: no refresh
-- token buys another session for it, and its access tokens issued before the change are refused.
pub change_password-IsSignedOut :
    (x : Crypto) (user salt now : ℕ) (old new : List ℕ) (db db' : Db)
    → change_password x user old new salt now db ≡ (ok tt, db')
    → ((u : User) × (find_where (has_user_id user) db.users ≡ some u)
        × (x.verify_password old u.password_hash ≡ true))
      × IsSignedOut x user now db'
change_password-IsSignedOut x user salt now old new db db' h =
    let (u, e, v, r) = change-inv x user salt now old new db db' h in
    let (w, f, q) = replace-inv user (x.hash_password salt new) now db db' r in
    (
      (u, e, v),
      subst (IsSignedOut x user now) q
          (replaced-IsSignedOut x user (x.hash_password salt new) now db w f),
    )

reset-inv :
    (x : Crypto) (token salt now : ℕ) (new : List ℕ) (db db' : Db)
    → reset_password x token new salt now db ≡ (ok tt, db')
    → (r : PasswordReset) × (u : User) × (find_where
          (is_unused (x.hash_token token) now)
          db.password_resets
        ≡ some r)
      × (find_where (has_user_id r.user_id) db.users ≡ some u)
      × (u.status ≡ active)
      × (replaced r.user_id (x.hash_password salt new) now (record db {
        password_resets =
            update_where (is_unused (x.hash_token token) now) (use_up now) db.password_resets;
      })
          ≡ db')
unfolding reset_password consume_password_reset replace_password update_password
    revoke_all_refresh_tokens
reset-inv x token salt now new db db' h =
    elim (Option-cases (find_where (is_unused (x.hash_token token) now) db.password_resets)) [
      | inl n ↦ absurd (ground arith)
      | inr (r, e) ↦ elim (Option-cases (find_where (has_user_id r.user_id) db.users)) [
        | inl n ↦ absurd (ground arith)
        | inr (u, f) ↦ (r, u, e, f, ground arith, ground arith)
      ]
    ]

reset_spent :
    (hash now : ℕ) (rs : List PasswordReset)
    → find_where (is_unused hash now) (update_where (is_unused hash now) (use_up now) rs) ≡ none
unfolding find_where update_where
reset_spent hash now [] = refl
reset_spent hash now (r ∷ rs) = ground (arith, reset_spent hash now rs)

reset_apart :
    (hash other now : ℕ) (rs : List PasswordReset) (r : PasswordReset)
    → other ≢ hash
    → find_where (is_unused other now) rs ≡ some r
    → find_where (is_unused other now) (update_where (is_unused hash now) (use_up now) rs) ≡ some r
unfolding find_where update_where
reset_apart hash other now [] r n e = cc
reset_apart hash other now (q ∷ rs) r n e = ground (arith, reset_apart hash other now rs r n)

-- A reset goes through only with an unused token that has not run out and for an active account; it
-- spends the token and ends every session of the account.
pub reset_password-IsSignedOut :
    (x : Crypto) (token salt now : ℕ) (new : List ℕ) (db db' : Db)
    → reset_password x token new salt now db ≡ (ok tt, db')
    → (r : PasswordReset) × (u : User) × (find_where
          (is_unused (x.hash_token token) now)
          db.password_resets
        ≡ some r)
      × (find_where (has_user_id r.user_id) db.users ≡ some u)
      × (u.status ≡ active)
      × (find_where (is_unused (x.hash_token token) now) db'.password_resets ≡ none)
      × IsSignedOut x r.user_id now db'
reset_password-IsSignedOut x token salt now new db db' h =
    let (r, u, e, f, a, q) = reset-inv x token salt now new db db' h in
    (
      r,
      u,
      e,
      f,
      a,
      subst (λ (d : Db). find_where (is_unused (x.hash_token token) now) d.password_resets ≡ none) q
          (reset_spent (x.hash_token token) now db.password_resets),
      subst (IsSignedOut x r.user_id now) q (
          replaced-IsSignedOut x r.user_id (x.hash_password salt new) now
            (record db {
              password_resets =
                  update_where (is_unused (x.hash_token token) now) (use_up now) db.password_resets;
            })
            u f),
    )

-- A reset leaves the account's other reset links alone: a token that hashes differently and could be
-- used before the reset can be used after it.
pub reset_leaves_others :
    (x : Crypto) (token other salt now : ℕ) (new : List ℕ) (db db' : Db) (r : PasswordReset)
    → reset_password x token new salt now db ≡ (ok tt, db')
    → x.hash_token other ≢ x.hash_token token
    → find_where (is_unused (x.hash_token other) now) db.password_resets ≡ some r
    → find_where (is_unused (x.hash_token other) now) db'.password_resets ≡ some r
reset_leaves_others x token other salt now new db db' r h n e =
    let (_, _, _, _, _, q) = reset-inv x token salt now new db db' h in
    subst (λ (d : Db). find_where (is_unused (x.hash_token other) now) d.password_resets ≡ some r) q
      (reset_apart (x.hash_token token) (x.hash_token other) now db.password_resets r n e)
