-- ===== src/Readers/Bookmarks.antt =====
-- internal/repository/postgres/bookmark_repo.go, which internal/service/bookmark_service.go passes on.
use holibrary_backend.Prelude.{
  ℕ, ◌+◌, ◌==◌, ltb, Bool, ◌&&◌, ◌||◌, none, some, List, ◌∷◌, ok, err, if◌then◌else◌, is_some,
  find_where, select_where, count_where, delete_where, sort_by, take, drop,
}
use holibrary_backend.Domain.{conflict}
use holibrary_backend.Domain.Books.{Book, Bookmark}
use holibrary_backend.Db.{Db, Tx}
use holibrary_backend.Circulation.Desk.{has_user_id}

abbrev pub is_bookmark : ℕ → ℕ → Bookmark → Bool
is_bookmark user book b = b.user_id == user && b.book_id == book

abbrev pub has_book_id : ℕ → Book → Bool
has_book_id i b = b.id == i

abbrev new_bookmark : ℕ → ℕ → ℕ → ℕ → Bookmark
new_bookmark i user book now = record { id = i; user_id = user; book_id = book; created_at = now }

-- Add. ON CONFLICT the row is kept; the foreign keys are tested for a new one only.
unfoldable pub add_bookmark : ℕ → ℕ → ℕ → Tx Bookmark
add_bookmark user book now db = elim (find_where (is_bookmark user book) db.bookmarks) [
  | some b ↦ ok (b, db)
  | none ↦
      if is_some (find_where (has_user_id user) db.users)
        && is_some (find_where (has_book_id book) db.books)
      then ok (
        new_bookmark db.next_id user book now,
        record db {
          bookmarks = new_bookmark db.next_id user book now ∷ db.bookmarks;
          next_id = db.next_id + 1;
        },
      )
      else err conflict
]

-- Remove
unfoldable pub remove_bookmark : ℕ → ℕ → Db → Db
remove_bookmark user book db = record db {
  bookmarks = delete_where (is_bookmark user book) db.bookmarks;
}

-- Exists
unfoldable pub is_bookmarked : ℕ → ℕ → Db → Bool
is_bookmarked user book db = is_some (find_where (is_bookmark user book) db.bookmarks)

-- ORDER BY bm.created_at DESC, bm.id
abbrev newest_first : Bookmark → Bookmark → Bool
newest_first a b = ltb b.created_at a.created_at || a.created_at == b.created_at && ltb a.id b.id

-- List: the page of rows, whose titles are joined in, and the count of all.
unfoldable pub list_bookmarks : ℕ → ℕ → ℕ → Db → List Bookmark × ℕ
list_bookmarks user limit offset db = (
  take limit
      (drop offset (sort_by newest_first (select_where (λ b. b.user_id == user) db.bookmarks))),
  count_where (λ b. b.user_id == user) db.bookmarks,
)
