-- ===== src/Witnesses/NotificationRuns.antt =====
-- Messages about Ada's loan in the small library.
use holibrary_backend.Prelude.{
  Bool, leb, ◌≡◌, inl, refl, true, false, none, some, [], ◌∷◌, ok, find_where, select_where,
  sort_by, insert_by, if◌then◌else◌,
}
use holibrary_backend.Db.{
  Db, OutboxRow, OutboxStatus, Payload, loan_due_soon, email, push, Channel, record_audit,
}
use holibrary_backend.Circulation.Return.{return_loan, close, close_loan, put_back}
use holibrary_backend.Circulation.ReturnLaws.{returned}
use holibrary_backend.Notifications.Queue.{queue, new_message}
use holibrary_backend.Notifications.Outbox.{
  PendingMessage, pending_messages, picked, listed_in, with_user, has_row_id, mark_superseded,
  mark_failed,
}
use holibrary_backend.Notifications.OutboxLaws.{has_message, retry_limit}
use holibrary_backend.Notifications.Worker.{
  Senders, accepted, permanent, deliver, drain_once, run_tick,
}
use holibrary_backend.Notifications.WorkerLaws.{
  lost_without_sender, is_stranded, IsSteady, at_most_once, no_reminder_after_return,
}
use holibrary_backend.Witnesses.Fixtures.{issued, issued-IsConsistent}

abbrev reminder : Payload
reminder = record { loan_id = some 100; reservation_id = none; token = none }

-- The reminder is queued under id 101, and Ada has one device.
abbrev queued : Db
queued =
    queue 7 email loan_due_soon reminder 40 (record issued.1 {
      device_tokens = record { user_id = 7; token = 500; revoked = false } ∷ [];
    })

reminder_taken : has_message 101 (pending_messages 20 45 queued).0 ≡ true
unfolding has_message pending_messages picked listed_in with_user queue select_where sort_by
    insert_by find_where record_audit
reminder_taken = refl

abbrev reminder_row : OutboxRow
reminder_row = new_message 101 7 email loan_due_soon reminder 40

reminder_found : find_where (has_row_id 101) queued.outbox ≡ some reminder_row
unfolding find_where queue record_audit
reminder_found = refl

retry_limit_example :
    (s : OutboxRow) × (find_where
        (has_row_id 101)
        (mark_failed 101 (pending_messages 20 45 queued).1).outbox
      ≡ some s)
    × (s.attempts ≡ 2)
    × (s.status ≡ (if leb 3 0 then OutboxStatus.failed else OutboxStatus.pending))
retry_limit_example = retry_limit 101 20 45 queued reminder_row reminder_found reminder_taken

abbrev steady : Senders
steady = record {
  configured = λ c. true;
  send = λ m. accepted;
  send_push = λ m t. permanent;
  provider_id = λ m. some 500;
  settled_at = 60;
}

-- The reminder goes by mail, and only push has a sender.
abbrev only_push : Channel → Bool
only_push push = true
only_push _ = false

abbrev mute : Senders
mute = record steady { configured = only_push }

reminder_stranded : is_stranded mute 101 (pending_messages 20 45 queued).0 ≡ true
unfolding is_stranded pending_messages with_user picked sort_by select_where queue insert_by
    record_audit find_where
reminder_stranded = refl

lost_without_sender_example :
    has_message 101 (pending_messages 20 60 (run_tick mute 20 45 queued).1).0 ≡ false
lost_without_sender_example =
    lost_without_sender mute 101 20 45 20 60 queued refl reminder_taken reminder_stranded

steady-IsSteady : IsSteady steady
steady-IsSteady = record { mail = λ m. refl; pushes = λ m t. refl }

at_most_once_example :
    has_message 101 (pending_messages 20 60 (drain_once steady 20 45 queued).1).0 ≡ false
at_most_once_example = at_most_once steady 101 20 45 20 60 queued steady-IsSteady reminder_taken

abbrev message : PendingMessage
message = record {
  id = 101;
  user_id = 7;
  email = [];
  channel = email;
  template = loan_due_soon;
  payload = reminder;
}

return-ok :
    return_loan 100 9 50 issued.1 ≡ ok (close 50 9 issued.0, returned 100 9 50 issued.0 issued.1)
unfolding return_loan close_loan put_back record_audit find_where
return-ok = refl

abbrev taken_back : Db
taken_back = returned 100 9 50 issued.0 issued.1

no_reminder_after_return_example :
    deliver steady message taken_back ≡ mark_superseded 101 taken_back
no_reminder_after_return_example =
    no_reminder_after_return steady message 100 9 50 issued.1 (close 50 9 issued.0, taken_back)
      issued-IsConsistent return-ok refl (inl refl)
