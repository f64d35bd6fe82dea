-- ===== src/Members/ResendLaws.antt =====
-- ResendInvitation of internal/service/member_service.go: the new link is the only one left.
use holibrary_backend.Prelude.{
  ℕ, suc, ◌+◌, ◌≤◌, ◌==◌, ◌≡◌, refl, Bool, true, false, ◌&&◌, not, none, some, List, [], ◌∷◌, ok,
  is_some, find_where, find_where-true, count_where, update_where, arith, ==_iff, Option-cases, inl,
  inr,
}
use holibrary_backend.Domain.{User}
use holibrary_backend.Db.{
  Db, PasswordReset, Invitation, OutboxRow, email, account_setup, superseded,
}
use holibrary_backend.Circulation.Desk.{has_user_id}
use holibrary_backend.Accounts.Tokens.{save_password_reset, invalidate_password_resets, use_up}
use holibrary_backend.Notifications.Queue.{queue, new_message}
use holibrary_backend.Notifications.Outbox.{has_row_id}
use holibrary_backend.Notifications.Invitations.{
  queue_tracked, invalidate_for_member, is_live_status, new_invitation, has_provider_id, event_row,
  email_delivered, apply_event,
}
use holibrary_backend.Members.Register.{
  Draw, invite, resend_invitation, setup_payload, account_setup_ttl,
}

-- A link of the account that has not been used.
unfoldable pub open_link : ℕ → PasswordReset → Bool
open_link user r = r.user_id == user && not (is_some r.used_at)

-- An invitation of the account that may still be on its way or be opened.
unfoldable pub live_invitation : ℕ → Invitation → Bool
live_invitation user r = r.member_id == user && is_live_status r.status

closed :
    (user now : ℕ) (rs : List PasswordReset)
    → count_where
        (open_link user)
        (update_where (λ r. r.user_id == user && not (is_some r.used_at)) (use_up now) rs)
      ≡ 0
unfolding open_link count_where update_where
closed user now [] = refl
closed user now (r ∷ rs) = ground (arith, closed user now rs)

silenced :
    (user : ℕ) (rs : List Invitation)
    → count_where (live_invitation user) (
        update_where
          (λ r. r.member_id == user && is_live_status r.status)
          (λ r. record r { status = superseded })
          rs)
      ≡ 0
unfolding live_invitation count_where update_where
silenced user [] = refl
silenced user (r ∷ rs) = ground (arith, silenced user rs)

-- The one unused link and the one live invitation, and the message that they go with.
pub record IsInvited (i message : ℕ) (x : Draw) (now : ℕ) (db : Db) : Type 0 where
  pub one_link : count_where (open_link i) db.password_resets ≡ 1
  pub one_live : count_where (live_invitation i) db.invitations ≡ 1
  pub link : PasswordReset
  pub is_link : find_where (open_link i) db.password_resets ≡ some link
  pub link_hash : link.token_hash ≡ x.token_hash
  pub link_expires : link.expires_at ≡ now + account_setup_ttl
  pub live : Invitation
  pub is_live : find_where (live_invitation i) db.invitations ≡ some live
  pub live_message : live.outbox_id ≡ message
  pub row : OutboxRow
  pub is_row : find_where (has_row_id message) db.outbox ≡ some row
  pub row_user : row.user_id ≡ i
  pub row_token : row.payload.token ≡ some x.token

abbrev new_link : ℕ → Draw → ℕ → PasswordReset
new_link i x now = record {
  user_id = i;
  token_hash = x.token_hash;
  expires_at = now + account_setup_ttl;
  used_at = none;
}

-- What `invite` writes for an account that is found and has neither an unused link nor a live invitation.
invite-IsInvited :
    (i : ℕ) (x : Draw) (now : ℕ) (db : Db) (u : User)
    → find_where (has_user_id i) db.users ≡ some u
    → count_where (open_link i) db.password_resets ≡ 0
    → count_where (live_invitation i) db.invitations ≡ 0
    → ((invite i none x now db).0 ≡ ok db.next_id)
      × IsInvited i db.next_id x now (invite i none x now db).1
unfolding invite queue_tracked queue save_password_reset open_link live_invitation count_where
    find_where
invite-IsInvited i x now db u f n m = (
  ground (arith, f),
  record {
    one_link = ground (arith, f, ==_iff i i);
    one_live = ground (arith, f, ==_iff i i);
    link = new_link i x now;
    is_link = ground (arith, f, ==_iff i i);
    link_hash = refl;
    link_expires = refl;
    live = new_invitation (db.next_id + 1) i db.next_id none now;
    is_live = ground (arith, f, ==_iff i i);
    live_message = refl;
    row = new_message db.next_id i email account_setup (setup_payload x.token) now;
    is_row = ground (arith, f, ==_iff db.next_id db.next_id);
    row_user = refl;
    row_token = refl;
  },
)

-- ResendInvitation changes nothing for an account that does not exist. For one that does, the account has
-- afterwards one unused link, which has the hash of the token that was drawn and the time limit of a
-- setup link, and one live invitation, which names the message that the call answers with; that message
-- is the account's and carries the token.
pub resend_invitation_one :
    (i : ℕ) (x : Draw) (now : ℕ) (db : Db)
    → (is_some (find_where (has_user_id i) db.users) ≡ false
        → (resend_invitation i x now db).1 ≡ db)
      × (is_some (find_where (has_user_id i) db.users) ≡ true
          → ((resend_invitation i x now db).0 ≡ ok db.next_id)
            × IsInvited i db.next_id x now (resend_invitation i x now db).1)
unfolding resend_invitation invalidate_for_member invalidate_password_resets
resend_invitation_one i x now db = elim (Option-cases (find_where (has_user_id i) db.users)) [
  | inl n ↦ ((λ _. rw (n, resend_invitation)), λ t. absurd (ground (arith, n, t)))
  | inr (u, f) ↦
      let u≡i : u.id ≡ i = (==_iff u.id i).0 (find_where-true (has_user_id i) db.users u f) in
      let mid = invalidate_for_member i (invalidate_password_resets i now db) in
      (
        (λ n. absurd (ground (arith, n, f))),
        λ _.
            rw (f, u≡i, resend_invitation)
              (invite-IsInvited i x now mid u f (closed i now db.password_resets)
                (silenced i db.invitations)),
      )
]

-- An invitation of the account that is live and has this id at the provider.
unfoldable pub sent_as : ℕ → ℕ → Invitation → Bool
sent_as i provider r = live_invitation i r && has_provider_id provider r

revived :
    (i provider at : ℕ) (rs : List Invitation) (old : Invitation)
    → find_where (sent_as i provider) rs ≡ some old
    → 1
      ≤ count_where (live_invitation i) (
          update_where (has_provider_id provider) (event_row email_delivered at) (
            update_where
              (λ r. r.member_id == i && is_live_status r.status)
              (λ r. record r { status = superseded })
              rs))
unfolding sent_as live_invitation find_where update_where count_where event_row
revived i provider at [] old h = cc
revived i provider at (r ∷ rs) old h = ground (arith, revived i provider at rs old)

invited_beside :
    (i provider at : ℕ) (x : Draw) (now : ℕ) (db : Db) (u : User)
    → find_where (has_user_id i) db.users ≡ some u
    → count_where
        (live_invitation i)
        (apply_event provider email_delivered at (invite i none x now db).1).invitations
      ≡ suc (
          count_where
            (live_invitation i)
            (update_where (has_provider_id provider) (event_row email_delivered at) db.invitations))
unfolding invite queue_tracked queue save_password_reset live_invitation count_where apply_event
    update_where
invited_beside i provider at x now db u f = ground (arith, f, ==_iff i i)

-- A report that a live invitation was delivered, when it comes after the account has been invited anew,
-- brings the superseded invitation back: the account then has two live ones or more.
pub late_event :
    (i provider at : ℕ) (x : Draw) (now : ℕ) (db : Db) (u : User) (old : Invitation)
    → find_where (has_user_id i) db.users ≡ some u
    → find_where (sent_as i provider) db.invitations ≡ some old
    → 2
      ≤ count_where
          (live_invitation i)
          (apply_event provider email_delivered at (resend_invitation i x now db).1).invitations
unfolding resend_invitation invalidate_for_member invalidate_password_resets
late_event i provider at x now db u old f o =
    let u≡i : u.id ≡ i = (==_iff u.id i).0 (find_where-true (has_user_id i) db.users u f) in
    let mid = invalidate_for_member i (invalidate_password_resets i now db) in
    rw (f, u≡i, resend_invitation)
      (omega (
        arith,
        invited_beside i provider at x now mid u f,
        revived i provider at db.invitations old o,
      ))
