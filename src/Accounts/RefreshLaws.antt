-- ===== src/Accounts/RefreshLaws.antt =====
-- A refresh token buys one session: internal/service/auth_service.go, `Refresh`.
use mathlib.Core.Path.{subst}
use holibrary_backend.Prelude.{
  ℕ, ◌+◌, ◌≤◌, ◌≡◌, ◌≢◌, inl, inr, refl, sym, ◌∙◌, none, some, List, [], ◌∷◌, ok, err, find_where,
  update_where, Option-cases, arith,
}
use holibrary_backend.Domain.{User, active, token_invalid}
use holibrary_backend.Db.{Db, RefreshToken}
use holibrary_backend.Circulation.Desk.{has_user_id}
use holibrary_backend.Accounts.Tokens.{is_usable, revoke, save_refresh_token, consume_refresh_token}
use holibrary_backend.Accounts.Sessions.{Crypto, Session, issue_session, refresh}

used_up :
    (hash hash' now later user expires issued : ℕ) (users : List User) (ts : List RefreshToken)
    → hash' ≢ hash
    → find_where (is_usable hash later users) (
        record {
          user_id = user;
          token_hash = hash';
          expires_at = expires;
          revoked_at = none;
          created_at = issued;
        }
        ∷ update_where (is_usable hash now users) (revoke now) ts)
      ≡ find_where
          (is_usable hash later users)
          (update_where (is_usable hash now users) (revoke now) ts)
unfolding find_where
used_up hash hash' now later user expires issued users ts n = ground arith

-- A token that a call consumed was usable at the time, so one that stays usable later was not.
spent :
    (hash now later : ℕ) (users : List User) (ts : List RefreshToken)
    → now ≤ later
    → find_where
        (is_usable hash later users)
        (update_where (is_usable hash now users) (revoke now) ts)
      ≡ none
unfolding find_where update_where
spent hash now later users [] h = refl
spent hash now later users (t ∷ ts) h = ground (arith, spent hash now later users ts h)

pub refresh-inv :
    (x : Crypto) (old token now : ℕ) (db : Db) (s : Session)
    → (refresh x old token now db).0 ≡ ok s
    → (t : RefreshToken) × (u : User) × (find_where
          (is_usable (x.hash_token old) now db.users)
          db.refresh_tokens
        ≡ some t)
      × (find_where (has_user_id t.user_id) db.users ≡ some u)
      × (u.status ≡ active)
      × (s.access_token.user_id ≡ u.id)
      × ((refresh x old token now db).1
          ≡ save_refresh_token u.id (x.hash_token token) (now + x.refresh_ttl) now (record db {
            refresh_tokens =
                update_where
                  (is_usable (x.hash_token old) now db.users)
                  (revoke now)
                  db.refresh_tokens;
          }))
unfolding refresh consume_refresh_token issue_session
refresh-inv x old token now db s h =
    elim (Option-cases (find_where (is_usable (x.hash_token old) now db.users) db.refresh_tokens)) [
      | inl n ↦ absurd (ground arith)
      | inr (t, e) ↦ elim (Option-cases (find_where (has_user_id t.user_id) db.users)) [
        | inl n ↦ absurd (ground arith)
        | inr (u, f) ↦ (t, u, e, f, ground arith, ground arith, ground arith)
      ]
    ]

refused-refresh :
    (x : Crypto) (old token now : ℕ) (db : Db)
    → find_where (is_usable (x.hash_token old) now db.users) db.refresh_tokens ≡ none
    → (refresh x old token now db).0 ≡ err token_invalid
unfolding refresh consume_refresh_token
refused-refresh x old token now db h = ground arith

-- A refresh token is good for one exchange: once it has bought a session, any later attempt with it is
-- refused, if the new token does not hash to the same value.
pub refresh_once :
    (x : Crypto) (old token token' now later : ℕ) (db : Db) (s : Session)
    → (refresh x old token now db).0 ≡ ok s
    → x.hash_token token ≢ x.hash_token old
    → now ≤ later
    → (refresh x old token' later (refresh x old token now db).1).0 ≡ err token_invalid
refresh_once x old token token' now later db s h n le =
    let (t, u, e, f, a, i, q) = refresh-inv x old token now db s h in
    subst (λ (d : Db). (refresh x old token' later d).0 ≡ err token_invalid) (sym q)
      (refused-refresh x old token' later
        (save_refresh_token u.id (x.hash_token token) (now + x.refresh_ttl) now (record db {
          refresh_tokens =
              update_where (is_usable (x.hash_token old) now db.users) (revoke now)
                db.refresh_tokens;
        }))
        (unfold save_refresh_token in
          used_up (x.hash_token old) (x.hash_token token) now later u.id (now + x.refresh_ttl) now
            db.users db.refresh_tokens n
          ∙ spent (x.hash_token old) now later db.users db.refresh_tokens le))
