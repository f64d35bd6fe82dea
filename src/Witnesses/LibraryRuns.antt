-- ===== src/Witnesses/LibraryRuns.antt =====
-- A day in the small library.
use holibrary_backend.Prelude.{
  ◌*◌, refl, true, none, some, List, [], ◌∷◌, count_where, codes, arith,
}
use holibrary_backend.Domain.{lost, day}
use holibrary_backend.Reservations.Uniqueness.{IsQueue}
use holibrary_backend.Library.Calls.{
  Call, lend_call, self_call, return_call, edit_call, reserve_call, cancel_call, add_copy_call,
  expire_call, remind_call, perform_all,
}
use holibrary_backend.Library.LendSteps.{IsSound, IsDrawn}
use holibrary_backend.Library.History.{perform_all-IsSound}
use holibrary_backend.Witnesses.Fixtures.{library, library-IsConsistent}

library-IsQueue : IsQueue library
unfolding count_where
library-IsQueue = record {
  one_row = λ i. ground arith;
  fresh = λ i h. ground arith;
  one_place = λ b u. ground arith;
  deadlines = refl;
}

library-IsSound : IsSound library
unfolding IsDrawn count_where
library-IsSound = record {
  consistent = library-IsConsistent;
  queue = library-IsQueue;
  drawn = λ i h. ground arith;
}

-- Ada borrows, Bola joins the queue, Ada returns late and is reminded, and a copy is reported lost.
abbrev a_day : List Call
a_day =
    lend_call 1 7 9 5
    ∷ reserve_call 10 8 6
    ∷ self_call 2 8 7
    ∷ remind_call (2 * day) (15 * day)
    ∷ return_call true 100 9 (16 * day)
    ∷ expire_call (20 * day)
    ∷ edit_call 2 none (some lost) 9 (21 * day)
    ∷ add_copy_call 10 (codes "A9") none 9
    ∷ cancel_call 102 8 (22 * day)
    ∷ []

perform_all-IsSound_example : IsSound (perform_all a_day library)
perform_all-IsSound_example = perform_all-IsSound a_day library library-IsSound
