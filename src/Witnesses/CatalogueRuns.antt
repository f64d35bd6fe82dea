-- ===== src/Witnesses/CatalogueRuns.antt =====
-- Edits of a copy in the small library.
use holibrary_backend.Prelude.{
  arith, ◌≡◌, ◌≢◌, refl, true, false, none, some, ok, err, count_where, find_where, update_where,
}
use holibrary_backend.Domain.{Copy, available, lost, on_loan, restricted, copy_on_loan}
use holibrary_backend.Domain.Copies.{can_transition_to, closes_an_open_loan}
use holibrary_backend.Db.{record_audit}
use holibrary_backend.Circulation.Copies.{has_id}
use holibrary_backend.Circulation.Consistency.{IsConsistent, open_for, lent}
use holibrary_backend.Catalogue.CopyEdit.{edit, update_copy, update_copy_checked}
use holibrary_backend.Catalogue.HalfDone.{update_copy_half_done}
use holibrary_backend.Prelude.{ℕ, codes, has_prefix, ◌++◌, ◌∷◌, []}
use holibrary_backend.Catalogue.Isbn.{valid_isbn, checksum, digit_ten}
use holibrary_backend.Catalogue.IsbnLaws.{valid_isbn_single_error}
use holibrary_backend.Catalogue.StaleEdit.{edit_race}
use holibrary_backend.Witnesses.Fixtures.{
  library, library-IsConsistent, issue, issued, issue-ok, copy_one,
}

abbrev lent_one : Copy
lent_one = record copy_one { status = on_loan }

lent_one_found : find_where (has_id 1) issued.1.copies ≡ some lent_one
unfolding find_where update_where record_audit
lent_one_found = refl

lost_closes : closes_an_open_loan lost ≡ true
unfolding closes_an_open_loan
lost_closes = refl

update_copy_half_done_example :
    let (r, db') = update_copy 1 (some restricted) (some lost) 9 60 issued.1 in
    (r ≡ err copy_on_loan)
    × (find_where (has_id 1) db'.copies ≡ some (edit none (some lost) lent_one))
    × (count_where (open_for 1) db'.loans ≡ 0)
update_copy_half_done_example =
    update_copy_half_done 1 restricted lost 9 60 issued.1 lent_one lent_one_found refl lost_closes

one_found : find_where (has_id 1) library.copies ≡ some copy_one
unfolding find_where
one_found = refl

may_be_lost : can_transition_to available lost ≡ true
unfolding can_transition_to
may_be_lost = refl

lost_is_new : lost ≢ available
lost_is_new e = cc

edit_race_example :
    let (res, db') = update_copy_checked 1 none (some lost) 9 60 copy_one issued.1 in
    (res ≡ ok tt)
    × (count_where (open_for 1) db'.loans ≡ 1)
    × (count_where (lent 1) db'.copies ≡ 0)
    × ¬ IsConsistent db'
edit_race_example =
    edit_race issue false lost 9 60 library copy_one issued library-IsConsistent one_found issue-ok
      may_be_lost lost_is_new

eight_not_seven : ◌≢◌ {A = ℕ} 55 56
eight_not_seven e = omega (arith, e)

valid_isbn_single_error_example :
    (valid_isbn (codes "978030640615" ++ 55 ∷ []) 10 ≡ true
      → valid_isbn (codes "978030640615" ++ 56 ∷ []) 10 ≡ false)
    × (valid_isbn (codes "978030640615" ++ 55 ∷ []) 13 ≡ true
        → valid_isbn (codes "978030640615" ++ 56 ∷ []) 13 ≡ false)
valid_isbn_single_error_example =
    valid_isbn_single_error (codes "978030640615") [] 55 56 eight_not_seven

-- The text of the example is a valid ISBN-13, and a book of 1974 has a valid ISBN-10.
good_thirteen : valid_isbn (codes "9780306406157") 13 ≡ true
unfolding valid_isbn checksum has_prefix
good_thirteen = refl

good_ten : valid_isbn (codes "080442957X") 10 ≡ true
unfolding valid_isbn checksum digit_ten has_prefix
good_ten = refl
