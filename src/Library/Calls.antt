-- ===== src/Library/Calls.antt =====
-- The calls of the handlers and the background jobs of cmd/api/main.go that write copies, loans,
-- reservations, messages, the records of books or the roll of members, one after the other. Those for
-- sessions, roles, bookmarks and saved searches write none of these tables but the roll's own columns.
use holibrary_backend.Prelude.{ℕ, Bool, Option, List, [], ◌∷◌}
use holibrary_backend.Domain.{CopyStatus, LoanPolicy, Role}
use holibrary_backend.Db.{Db, transact}
use holibrary_backend.Circulation.Desk.{borrow_at_desk, self_checkout, return_at_desk}
use holibrary_backend.Circulation.Reminders.{notify_due_soon}
use holibrary_backend.Catalogue.CopyEdit.{update_copy}
use holibrary_backend.Catalogue.Metadata.{BookPatch}
use holibrary_backend.Catalogue.Books.{update_book}
use holibrary_backend.Catalogue.NewBooks.{NewBook, create_book}
use holibrary_backend.Catalogue.Volumes.{archive_book, add_copy}
use holibrary_backend.Members.Register.{NewMember, Draw, create_member, resend_invitation}
use holibrary_backend.Members.Import.{CsvRow, import_csv}
use holibrary_backend.Reservations.Service.{reserve, cancel_reservation, expire}
use holibrary_backend.Notifications.Worker.{Senders, run_tick}

-- Each constructor has the arguments of its call, with `now` last.
pub data Call : Type 0 where
  lend_call : ℕ → ℕ → ℕ → ℕ → Call
  self_call : ℕ → ℕ → ℕ → Call
  return_call : Bool → ℕ → ℕ → ℕ → Call
  edit_call : ℕ → Option LoanPolicy → Option CopyStatus → ℕ → ℕ → Call
  reserve_call : ℕ → ℕ → ℕ → Call
  cancel_call : ℕ → ℕ → ℕ → Call
  expire_call : ℕ → Call
  remind_call : ℕ → ℕ → Call
  drain_call : Senders → ℕ → ℕ → Call
  add_copy_call : ℕ → List ℕ → Option LoanPolicy → ℕ → Call
  add_book_call : NewBook → ℕ → ℕ → Call
  edit_book_call : ℕ → BookPatch → ℕ → ℕ → Call
  archive_call : ℕ → ℕ → Call
  register_call : Role → ℕ → NewMember → Draw → ℕ → Call
  import_call : Role → ℕ → ℕ → (ℕ → Draw) → List (List ℕ) → List CsvRow → Bool → ℕ → Call
  invite_call : ℕ → Draw → ℕ → Call

unfoldable pub perform : Call → Db → Db
perform (lend_call copy user librarian now) db = (borrow_at_desk copy user librarian now db).1
perform (self_call copy user now) db = (self_checkout copy user now db).1
perform (return_call hooked i librarian now) db = (return_at_desk hooked i librarian now db).1
perform (edit_call i policy status staff now) db = (update_copy i policy status staff now db).1
perform (reserve_call b user now) db = (reserve b user now db).1
perform (cancel_call i user now) db = (cancel_reservation i user now db).1
perform (expire_call now) db = (expire now db).1
perform (remind_call window now) db = (notify_due_soon window now db).1
perform (drain_call senders alive now) db = (run_tick senders alive now db).1
perform (add_copy_call book accession policy staff) db = (add_copy book accession policy staff db).1
perform (add_book_call n staff this_year) db = (create_book n staff this_year db).1
perform (edit_book_call i p staff this_year) db = (update_book i p staff this_year db).1
perform (archive_call i staff) db = (transact (archive_book i staff) db).1
perform (register_call actor staff p x now) db = (create_member actor staff p x now db).1
perform (import_call actor staff batch draws header rows dry_run now) db =
    (import_csv actor staff batch draws now header rows dry_run db).1
perform (invite_call i x now) db = (resend_invitation i x now db).1

unfoldable pub perform_all : List Call → Db → Db
perform_all [] db = db
perform_all (c ∷ cs) db = perform_all cs (perform c db)
