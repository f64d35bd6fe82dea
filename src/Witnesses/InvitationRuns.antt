-- ===== src/Witnesses/InvitationRuns.antt =====
-- An invitation that was delivered, on which events come in late and twice.
use holibrary_backend.Prelude.{
  ℕ, ◌≤◌, ◌≡◌, refl, find_where, count_where, none, some, List, [], ◌∷◌,
}
use holibrary_backend.Db.{Db, Invitation, delivered}
use holibrary_backend.Notifications.Invitations.{
  EventType, email_delivered, email_bounced, apply_event,
}
use holibrary_backend.Notifications.InvitationLaws.{run_events, run_events-Grows, Grows}
use holibrary_backend.Members.Register.{Draw, resend_invitation}
use holibrary_backend.Members.ResendLaws.{late_event, sent_as, live_invitation}
use holibrary_backend.Witnesses.Fixtures.{library, ada}

abbrev arrived : Invitation
arrived = record {
  id = 1;
  member_id = 7;
  outbox_id = 2;
  import_batch_id = none;
  resend_message_id = some 500;
  queued_at = 10;
  sent_at = some 11;
  delivered_at = some 12;
  opened_at = none;
  bounced_at = none;
  status = delivered;
}

abbrev invited : Db
invited = record library { invitations = arrived ∷ [] }

abbrev late : List (EventType × ℕ)
late = (email_bounced, 20) ∷ (email_delivered, 30) ∷ []

run_events-Grows_example : Grows arrived (run_events late arrived)
run_events-Grows_example = run_events-Grows late arrived

arrived_live : find_where (sent_as 7 500) invited.invitations ≡ some arrived
unfolding sent_as live_invitation find_where
arrived_live = refl

abbrev drawn : Draw
drawn = record { hash = 1; token = 2; token_hash = 3 }

late_event_example :
    2
    ≤ count_where
        (live_invitation 7)
        (apply_event 500 email_delivered 60 (resend_invitation 7 drawn 50 invited).1).invitations
late_event_example =
    late_event 7 500 60 drawn 50 invited ada arrived (unfold find_where in refl) arrived_live
