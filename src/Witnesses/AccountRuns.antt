-- ===== src/Witnesses/AccountRuns.antt =====
-- Sessions, passwords and roles in the small library.
use holibrary_backend.Prelude.{
  ℕ, ◌+◌, ◌==◌, ◌≤◌, ◌<◌, leb, ◌≡◌, ◌≢◌, refl, true, false, ◌&&◌, none, some, List, [], ◌∷◌, ok,
  err, codes, length, find_where, update_where, count_where, arith,
}
use holibrary_backend.Domain.{User, member, librarian, admin, token_invalid}
use holibrary_backend.Db.{Db, PasswordReset}
use holibrary_backend.Circulation.Desk.{has_user_id}
use holibrary_backend.Accounts.RateLimitLaws.{
  attempt, tick, admitted, attempts, at_most, all_by, window_limit,
}
use holibrary_backend.Accounts.Tokens.{
  is_unused, consume_refresh_token, consume_password_reset, update_password,
  revoke_all_refresh_tokens, session_valid,
}
use holibrary_backend.Accounts.Sessions.{
  Crypto, Claims, Session, any_of, validate_password, issue_session, refresh, replace_password,
  change_password, reset_password, authenticate, numeric_date,
}
use holibrary_backend.Accounts.RefreshLaws.{refresh_once}
use holibrary_backend.Accounts.PasswordLaws.{IsSignedOut, change_password-IsSignedOut, replaced}
use holibrary_backend.Accounts.Roles.{is_admin}
use holibrary_backend.Witnesses.Fixtures.{library, ada, desk}

unfold_times :
    all_by (10 + 60) (attempt (codes "b") 12 ∷ tick 20 ∷ attempt (codes "a") 70 ∷ []) ≡ true
unfolding all_by
unfold_times = refl

window_limit_example :
    admitted
      (codes "a")
      1
      60
      (attempt (codes "a") 10 ∷ attempt (codes "b") 12 ∷ tick 20 ∷ attempt (codes "a") 70 ∷ [])
      []
    ≡ at_most 1 (
        attempts
          (codes "a")
          (attempt (codes "a") 10 ∷ attempt (codes "b") 12 ∷ tick 20 ∷ attempt (codes "a") 70 ∷ []))
window_limit_example =
    window_limit (codes "a") 1 60 10
      (attempt (codes "b") 12 ∷ tick 20 ∷ attempt (codes "a") 70 ∷ []) []
      (unfold find_where in refl) unfold_times

-- A toy cryptography in which the hash of a password is 70 more than its length.
abbrev toy : Crypto
toy = record {
  verify_password = λ p h. h == 70 + length p;
  hash_password = λ salt p. 70 + length p;
  hash_token = λ t. t + 1;
  is_letter = λ c. leb 65 c;
  is_number = λ c. leb 48 c && leb c 57;
  uuid_text = λ i. i ∷ [];
  refresh_ttl = 1000;
}

abbrev signed_in : Db
signed_in = record library {
  refresh_tokens =
      record { user_id = 7; token_hash = 31; expires_at = 500; revoked_at = none; created_at = 3 }
      ∷ [];
  password_resets =
      record { user_id = 7; token_hash = 41; expires_at = 500; used_at = none }
      ∷ record { user_id = 7; token_hash = 51; expires_at = 600; used_at = none }
      ∷ [];
}

abbrev new_session : Session
new_session = record {
  access_token = record {
    user_id = 7;
    role = member;
    pending = false;
    issued_at = numeric_date 20;
  };
  refresh_token = 60;
  must_change_password = false;
}

refresh-ok : (refresh toy 30 60 20 signed_in).0 ≡ ok new_session
unfolding refresh consume_refresh_token issue_session find_where
refresh-ok = refl

fresh_token : ◌≢◌ {A = ℕ} 61 31
fresh_token e = omega (arith, e)

refresh_once_example :
    (refresh toy 30 62 40 (refresh toy 30 60 20 signed_in).1).0 ≡ err token_invalid
refresh_once_example =
    refresh_once toy 30 60 62 20 40 signed_in new_session refresh-ok fresh_token (omega arith)

abbrev chosen : List ℕ
chosen = codes "reading4hours"

abbrev changed : Db
changed = replaced 7 83 20 signed_in

change-ok : change_password toy 7 [] chosen 0 20 signed_in ≡ (ok tt, changed)
unfolding change_password validate_password any_of replace_password update_password
    revoke_all_refresh_tokens find_where
change-ok = refl

change_password-IsSignedOut_example :
    ((u : User) × (find_where (has_user_id 7) signed_in.users ≡ some u)
      × (toy.verify_password [] u.password_hash ≡ true))
    × IsSignedOut toy 7 20 changed
change_password-IsSignedOut_example =
    change_password-IsSignedOut toy 7 0 20 [] chosen signed_in changed change-ok

abbrev after_reset : Db
after_reset = replaced 7 83 20 (record signed_in {
  password_resets =
      record { user_id = 7; token_hash = 41; expires_at = 500; used_at = some 20 }
      ∷ record { user_id = 7; token_hash = 51; expires_at = 600; used_at = none }
      ∷ [];
})

reset-ok : reset_password toy 40 chosen 0 20 signed_in ≡ (ok tt, after_reset)
unfolding reset_password validate_password any_of consume_password_reset replace_password
    update_password revoke_all_refresh_tokens find_where update_where
reset-ok = refl

abbrev older_link : PasswordReset
older_link = record { user_id = 7; token_hash = 51; expires_at = 600; used_at = none }

older_found : find_where (is_unused 51 20) signed_in.password_resets ≡ some older_link
unfolding find_where
older_found = refl

other_hash : ◌≢◌ {A = ℕ} 51 41
other_hash e = omega (arith, e)

abbrev claims : Claims
claims = record { user_id = 7; role = member; pending = true; issued_at = 5 }

authenticate-ok : authenticate claims true library ≡ ok claims
unfolding authenticate session_valid find_where
authenticate-ok = refl

abbrev with_admin : Db
with_admin = record library { users = record desk { role = admin } ∷ ada ∷ [] }

one_account : (j : ℕ) → count_where (has_user_id j) with_admin.users ≤ 1
unfolding count_where
one_account j = ground arith

an_admin : 0 < count_where is_admin with_admin.users
unfolding count_where
an_admin = omega arith

ada_found : find_where (has_user_id 7) library.users ≡ some ada
unfolding find_where
ada_found = refl

not_member : librarian ≢ member
not_member e = cc

not_admin : is_admin ada ≡ true → librarian ≡ admin
not_admin e = cc
