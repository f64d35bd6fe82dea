-- ===== src/Readers/BookmarkLaws.antt =====
-- internal/repository/postgres/bookmark_repo.go against a set of titles for each reader.
use mathlib.Core.Path.{ap₂, fun_ext}
use holibrary_backend.Prelude.{
  ℕ, ◌==◌, ==_iff, ◌≡◌, refl, ◌∙◌, Bool, false, ◌&&◌, ◌||◌, List, [], ◌∷◌, if◌then◌else◌, is_some,
  find_where, delete_where, Bool-cases, Option-cases, inl, inr, arith,
}
use holibrary_backend.Domain.Books.{Bookmark}
use holibrary_backend.Db.{Db, transact}
use holibrary_backend.Circulation.Desk.{has_user_id}
use holibrary_backend.Readers.Bookmarks.{
  is_bookmark, has_book_id, add_bookmark, remove_bookmark, is_bookmarked,
}

-- A call: whose list, and which title.
pub data Call : Type 0 where
  save forget : ℕ → ℕ → Call

-- The calls, on the database; one that is refused changes nothing.
unfoldable pub run : List (ℕ × Call) → Db → Db
run [] db = db
run ((now, save user book) ∷ calls) db = run calls (transact (add_bookmark user book now) db).1
run ((now, forget user book) ∷ calls) db = run calls (remove_bookmark user book db)

-- Whether a reader and a title are known.
abbrev pub is_known : Db → ℕ → ℕ → Bool
is_known db user book =
    is_some (find_where (has_user_id user) db.users)
    && is_some (find_where (has_book_id book) db.books)

abbrev pub set_at : ℕ → ℕ → Bool → (ℕ → ℕ → Bool) → ℕ → ℕ → Bool
set_at user book b f u t = if u == user && t == book then b else f u t

-- The same calls, on a set of pairs.
pub replay : (ℕ → ℕ → Bool) → List (ℕ × Call) → (ℕ → ℕ → Bool) → ℕ → ℕ → Bool
replay known [] f = f
replay known ((now, save user book) ∷ calls) f =
    replay known calls (set_at user book (f user book || known user book) f)
replay known ((now, forget user book) ∷ calls) f = replay known calls (set_at user book false f)

find_deleted :
    (user book u t : ℕ) (bs : List Bookmark)
    → is_some (find_where (is_bookmark u t) (delete_where (is_bookmark user book) bs))
      ≡ (if u == user && t == book then false else is_some (find_where (is_bookmark u t) bs))
unfolding find_where delete_where
find_deleted user book u t [] = ground arith
find_deleted user book u t (b ∷ bs) = ground (arith, find_deleted user book u t bs)

abbrev pub saved : Db → ℕ → ℕ → Bool
saved db u t = is_bookmarked u t db

-- Adding or removing leaves the readers and the titles.
kept-known :
    (user book now : ℕ) (db : Db)
    → (is_known (transact (add_bookmark user book now) db).1 ≡ is_known db)
      × (is_known (remove_bookmark user book db) ≡ is_known db)
unfolding add_bookmark remove_bookmark
kept-known user book now db =
    elim (Option-cases (find_where (is_bookmark user book) db.bookmarks)) [
      | inr (b, f) ↦ (rw (f, transact, add_bookmark), refl)
      | inl n ↦ elim (Bool-cases (is_known db user book)) [
        | inl k ↦ (rw (n, k, transact, add_bookmark), refl)
        | inr k ↦ (rw (n, k, transact, add_bookmark), refl)
      ]
    ]

add_bookmark-hit :
    (user book now : ℕ) (db : Db)
    → saved (transact (add_bookmark user book now) db).1 user book
      ≡ (saved db user book || is_known db user book)
unfolding add_bookmark is_bookmarked find_where
add_bookmark-hit user book now db = ground (arith, ==_iff user user, ==_iff book book)

add_bookmark-miss :
    (user book now : ℕ) (db : Db) (u t : ℕ)
    → (u == user && t == book) ≡ false
    → saved (transact (add_bookmark user book now) db).1 u t ≡ saved db u t
unfolding add_bookmark is_bookmarked find_where
add_bookmark-miss user book now db u t h = ground arith

add_bookmark-saved :
    (user book now : ℕ) (db : Db) (u t : ℕ)
    → saved (transact (add_bookmark user book now) db).1 u t
      ≡ set_at user book (saved db user book || is_known db user book) (saved db) u t
add_bookmark-saved user book now db u t = elim (Bool-cases (u == user && t == book)) [
  | inr h ↦ rw h (add_bookmark-miss user book now db u t h)
  | inl h ↦
      let u≡user : u ≡ user = ground arith in
      let t≡book : t ≡ book = ground arith in
      rw (h, u≡user, t≡book) (add_bookmark-hit user book now db)
]

remove_bookmark-saved :
    (user book : ℕ) (db : Db) (u t : ℕ)
    → saved (remove_bookmark user book db) u t ≡ set_at user book false (saved db) u t
unfolding remove_bookmark is_bookmarked
remove_bookmark-saved user book db u t = find_deleted user book u t db.bookmarks

-- Any calls of Save and Remove leave each reader's list, as IsSaved reads it, as the same calls leave a
-- set: a title is put in if it was in already or the title and the reader are known, taking one out
-- that is not there does nothing, and no call touches the list of another reader.
pub run_refines :
    (calls : List (ℕ × Call)) (db : Db)
    → (λ u t. is_bookmarked u t (run calls db)) ≡ replay (is_known db) calls (saved db)
unfolding run replay
run_refines [] db = refl
run_refines ((now, save user book) ∷ calls) db =
    let next = (transact (add_bookmark user book now) db).1 in
    let step : saved next
        ≡ set_at user book (saved db user book || is_known db user book) (saved db) =
      fun_ext λ u. fun_ext λ t. add_bookmark-saved user book now db u t in
    run_refines calls next ∙ ap₂ (λ k f. replay k calls f) (kept-known user book now db).0 step
run_refines ((now, forget user book) ∷ calls) db =
    let next = remove_bookmark user book db in
    let step : saved next ≡ set_at user book false (saved db) =
      fun_ext λ u. fun_ext λ t. remove_bookmark-saved user book db u t in
    run_refines calls next ∙ ap₂ (λ k f. replay k calls f) (kept-known user book 0 db).1 step
