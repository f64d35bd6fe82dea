-- ===== src/Library/CatalogueSteps.antt =====
-- The calls that write the records of books and the roll of members touch no copy, loan or
-- reservation, and the one that adds a volume keeps the library sound.
use holibrary_backend.Prelude.{ℕ, ◌≡◌, ◌≤◌, Option, List, count_where, ==_iff, arith}
use holibrary_backend.Domain.{Role, LoanPolicy}
use holibrary_backend.Db.{Db, record_audit, transact}
use holibrary_backend.Catalogue.Metadata.{BookPatch}
use holibrary_backend.Catalogue.Books.{patch_book, update_book}
use holibrary_backend.Catalogue.NewBooks.{NewBook, insert_book, create_book}
use holibrary_backend.Catalogue.Volumes.{archive_book, insert_copy, add_copy, add_copy-IsConsistent}
use holibrary_backend.Accounts.Tokens.{save_password_reset, invalidate_password_resets}
use holibrary_backend.Notifications.Queue.{queue}
use holibrary_backend.Notifications.Invitations.{queue_tracked, invalidate_for_member}
use holibrary_backend.Members.Register.{
  NewMember, Draw, insert_user, invite, create_member, resend_invitation,
}
use holibrary_backend.Library.Untouched.{Untouched, kept-IsQueue}
use holibrary_backend.Library.LendSteps.{IsSound, IsDrawn}

pub update_book-Untouched :
    (i : ℕ) (p : BookPatch) (staff this_year : ℕ) (db : Db)
    → Untouched db (update_book i p staff this_year db).1
unfolding update_book patch_book record_audit
update_book-Untouched i p staff this_year db = record {
  copies = ground arith;
  loans = ground arith;
  reservations = ground arith;
  ids = ground arith;
}

pub create_book-Untouched :
    (n : NewBook) (staff this_year : ℕ) (db : Db)
    → Untouched db (create_book n staff this_year db).1
unfolding create_book insert_book record_audit
create_book-Untouched n staff this_year db = record {
  copies = ground arith;
  loans = ground arith;
  reservations = ground arith;
  ids = ground arith;
}

pub archive-Untouched :
    (i staff : ℕ) (db : Db) → Untouched db (transact (archive_book i staff) db).1
unfolding archive_book record_audit
archive-Untouched i staff db = record {
  copies = ground arith;
  loans = ground arith;
  reservations = ground arith;
  ids = ground arith;
}

pub create_member-Untouched :
    (actor : Role) (staff : ℕ) (p : NewMember) (x : Draw) (now : ℕ) (db : Db)
    → Untouched db (create_member actor staff p x now db).1
unfolding create_member insert_user invite queue_tracked queue save_password_reset record_audit
create_member-Untouched actor staff p x now db = record {
  copies = ground arith;
  loans = ground arith;
  reservations = ground arith;
  ids = ground arith;
}

pub resend-Untouched :
    (i : ℕ) (x : Draw) (now : ℕ) (db : Db) → Untouched db (resend_invitation i x now db).1
unfolding resend_invitation invite queue_tracked queue save_password_reset invalidate_for_member
    invalidate_password_resets
resend-Untouched i x now db = record {
  copies = ground arith;
  loans = ground arith;
  reservations = ground arith;
  ids = ground arith;
}

added_tables :
    (book : ℕ) (accession : List ℕ) (policy : Option LoanPolicy) (staff : ℕ) (db : Db)
    → ((add_copy book accession policy staff db).1.reservations ≡ db.reservations)
      × (db.next_id ≤ (add_copy book accession policy staff db).1.next_id)
unfolding add_copy insert_copy record_audit
added_tables book accession policy staff db = ground arith

add_copy-IsDrawn :
    (book : ℕ) (accession : List ℕ) (policy : Option LoanPolicy) (staff : ℕ) (db : Db)
    → IsDrawn db
    → IsDrawn (add_copy book accession policy staff db).1
unfolding IsDrawn add_copy insert_copy record_audit count_where
add_copy-IsDrawn book accession policy staff db d i h = ground (arith, d i, ==_iff db.next_id i)

pub add_copy-IsSound :
    (book : ℕ) (accession : List ℕ) (policy : Option LoanPolicy) (staff : ℕ) (db : Db)
    → IsSound db
    → IsSound (add_copy book accession policy staff db).1
unfolding IsDrawn
add_copy-IsSound book accession policy staff db v =
    let (r, n) = added_tables book accession policy staff db in
    record {
      consistent =
          add_copy-IsConsistent book accession policy staff db (v.drawn db.next_id (omega arith))
            v.consistent;
      queue = kept-IsQueue db (add_copy book accession policy staff db).1 r n v.queue;
      drawn = add_copy-IsDrawn book accession policy staff db v.drawn;
    }
