-- ===== src/Library/History.antt =====
-- Any sequence of calls on a sound library leaves it sound.
use holibrary_backend.Prelude.{ℕ, true, false, List, [], ◌∷◌}
use holibrary_backend.Domain.{Role}
use holibrary_backend.Db.{Db, transact}
use holibrary_backend.Circulation.Desk.{
  borrow_at_desk, self_checkout, entitlement, self_entitlement,
}
use holibrary_backend.Circulation.Reminders.{notify_due_soon}
use holibrary_backend.Notifications.Worker.{run_tick}
use holibrary_backend.Library.Calls.{
  Call, lend_call, self_call, return_call, edit_call, reserve_call, cancel_call, expire_call,
  remind_call, drain_call, add_copy_call, add_book_call, edit_book_call, archive_call,
  register_call, import_call, invite_call, perform, perform_all,
}
use holibrary_backend.Library.Untouched.{notify_due_soon-Untouched, run_tick-Untouched}
use holibrary_backend.Library.LendSteps.{IsSound, Untouched-IsSound, checkout-IsSound}
use holibrary_backend.Library.CatalogueSteps.{
  create_book-Untouched, update_book-Untouched, archive-Untouched, create_member-Untouched,
  resend-Untouched, add_copy-IsSound,
}
use holibrary_backend.Catalogue.Books.{update_book}
use holibrary_backend.Catalogue.NewBooks.{create_book}
use holibrary_backend.Catalogue.Volumes.{archive_book}
use holibrary_backend.Members.Register.{NewMember, Draw, create_member, resend_invitation}
use holibrary_backend.Members.RollLaws.{import_csv-keeps}
use holibrary_backend.Library.EditCopySteps.{edit-IsSound}
use holibrary_backend.Library.QueueSteps.{
  return-IsSound, reserve-IsSound, cancel_reservation-IsSound, expire-IsSound,
}

register-IsSound :
    (actor : Role) (staff : ℕ) (p : NewMember) (x : Draw) (now : ℕ) (db : Db)
    → IsSound db
    → IsSound (create_member actor staff p x now db).1
register-IsSound actor staff p x now db v =
    Untouched-IsSound db (create_member actor staff p x now db).1
      (create_member-Untouched actor staff p x now db) v

perform-IsSound : (c : Call) (db : Db) → IsSound db → IsSound (perform c db)
unfolding perform borrow_at_desk self_checkout
perform-IsSound (lend_call copy user librarian now) db v =
    checkout-IsSound entitlement copy user librarian now false db v
perform-IsSound (self_call copy user now) db v =
    checkout-IsSound self_entitlement copy user user now true db v
perform-IsSound (return_call hooked i librarian now) db v =
    return-IsSound hooked i librarian now db v
perform-IsSound (edit_call i policy status staff now) db v =
    edit-IsSound i policy status staff now db v
perform-IsSound (reserve_call b user now) db v = reserve-IsSound b user now db v
perform-IsSound (cancel_call i user now) db v = cancel_reservation-IsSound i user now db v
perform-IsSound (expire_call now) db v = expire-IsSound now db v
perform-IsSound (remind_call window now) db v =
    Untouched-IsSound db (notify_due_soon window now db).1 (notify_due_soon-Untouched window now db)
      v
perform-IsSound (drain_call senders alive now) db v =
    Untouched-IsSound db (run_tick senders alive now db).1 (run_tick-Untouched senders alive now db)
      v
perform-IsSound (add_copy_call book accession policy staff) db v =
    add_copy-IsSound book accession policy staff db v
perform-IsSound (add_book_call n staff this_year) db v =
    Untouched-IsSound db (create_book n staff this_year db).1
      (create_book-Untouched n staff this_year db) v
perform-IsSound (edit_book_call i p staff this_year) db v =
    Untouched-IsSound db (update_book i p staff this_year db).1
      (update_book-Untouched i p staff this_year db) v
perform-IsSound (archive_call i staff) db v =
    Untouched-IsSound db (transact (archive_book i staff) db).1 (archive-Untouched i staff db) v
perform-IsSound (register_call actor staff p x now) db v = register-IsSound actor staff p x now db v
perform-IsSound (import_call actor staff batch draws header rows dry_run now) db v =
    import_csv-keeps IsSound
      (λ actor staff p x now db _ v. register-IsSound actor staff p x now db v) actor staff batch
      draws now header rows dry_run db v
perform-IsSound (invite_call i x now) db v =
    Untouched-IsSound db (resend_invitation i x now db).1 (resend-Untouched i x now db) v

-- Whatever calls of the desk, the members, the catalogue's and the roll's editors and the background jobs
-- are made, one after the other and with any arguments, successful or refused, the library stays sound:
-- a copy is marked as out on loan exactly while one open loan names it, keys stay unique, no member has
-- two open places in the queue of a title, a ready hold has a deadline and a pending place has none. The
-- calls are lending and self-service, returns, the edit and the addition of copies, reservations, their
-- cancelling and their expiry, reminders, delivery, the addition, edit and archiving of books,
-- registration, imports and resent invitations.
pub perform_all-IsSound : (cs : List Call) (db : Db) → IsSound db → IsSound (perform_all cs db)
unfolding perform_all
perform_all-IsSound [] db v = v
perform_all-IsSound (c ∷ cs) db v = perform_all-IsSound cs (perform c db) (perform-IsSound c db v)
