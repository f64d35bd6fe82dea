-- ===== src/Readers/SavedSearches.antt =====
-- internal/service/saved_search_service.go and internal/repository/postgres/saved_search_repo.go. Create
-- locks the member's row, so two creates of one member come one after the other.
use holibrary_backend.Prelude.{
  ℕ, ◌+◌, ◌==◌, leb, ltb, Bool, ◌&&◌, ◌||◌, not, Option, none, some, List, ◌∷◌, Result, ok, err,
  if◌then◌else◌, find_where, select_where, count_where, delete_where, sort_by, trim_space, length,
}
use holibrary_backend.Domain.{Error, unauthenticated, invalid_search, not_found, saved_search_limit}
use holibrary_backend.Domain.Books.{Json, SavedSearch}
use holibrary_backend.Db.{
  Db, Tx, Action, transact, record_audit, saved_search_created, saved_search_deleted,
}
use holibrary_backend.Circulation.Desk.{has_user_id}
use holibrary_backend.Search.Query.{validate_saved_query}
use holibrary_backend.Search.Values.{no_control}

-- SavedSearchLimit
abbrev pub search_limit : ℕ
search_limit = 20

abbrev pub of_user : ℕ → SavedSearch → Bool
of_user user s = s.user_id == user

abbrev new_search : ℕ → ℕ → List ℕ → List (List ℕ × Json) → ℕ → SavedSearch
new_search i user name query now = record {
  id = i;
  user_id = user;
  name = name;
  query = query;
  created_at = now;
}

-- SavedSearchRepo.Create
unfoldable pub insert_search : ℕ → List ℕ → List (List ℕ × Json) → ℕ → ℕ → Tx SavedSearch
insert_search user name query limit now db = elim (find_where (has_user_id user) db.users) [
  | none ↦ err not_found
  | some _ ↦
      if leb limit (count_where (of_user user) db.saved_searches)
      then err saved_search_limit
      else ok (
        new_search db.next_id user name query now,
        record_audit user saved_search_created db.next_id (record db {
          saved_searches = new_search db.next_id user name query now ∷ db.saved_searches;
          next_id = db.next_id + 1;
        }),
      )
]

-- A name that is text, not blank, and no longer than a hundred characters.
unfoldable pub valid_name : List ℕ → Bool
valid_name name =
    no_control name && not (length (trim_space name) == 0) && leb (length (trim_space name)) 100

abbrev validated : Option Error → Action SavedSearch → Action SavedSearch
validated none k db = k db
validated (some e) k db = (err e, db)

-- Create; a query that is nil is `none`.
unfoldable pub create_saved_search :
    ℕ → List ℕ → Option (List (List ℕ × Json)) → ℕ → Action SavedSearch
create_saved_search user name query now db =
    if user == 0
    then (err unauthenticated, db)
    else if not (valid_name name)
    then (err invalid_search, db)
    else elim query [
      | none ↦ (err invalid_search, db)
      | some values ↦
          validated (validate_saved_query values)
            (transact (insert_search user (trim_space name) values search_limit now)) db
    ]

abbrev pub is_search : ℕ → ℕ → SavedSearch → Bool
is_search i user s = s.id == i && s.user_id == user

-- SavedSearchRepo.Delete
unfoldable pub delete_search : ℕ → ℕ → Tx (Unit {0})
delete_search i user db =
    if count_where (is_search i user) db.saved_searches == 0
    then err not_found
    else ok (
      tt,
      record_audit user saved_search_deleted i
          (record db { saved_searches = delete_where (is_search i user) db.saved_searches }),
    )

-- Delete
unfoldable pub delete_saved_search : ℕ → ℕ → Action (Unit {0})
delete_saved_search i user db =
    if user == 0
    then (err unauthenticated, db)
    else if i == 0
    then (err not_found, db)
    else transact (delete_search i user) db

-- ORDER BY created_at DESC, id
abbrev latest_first : SavedSearch → SavedSearch → Bool
latest_first a b = ltb b.created_at a.created_at || a.created_at == b.created_at && ltb a.id b.id

-- List
unfoldable pub list_saved_searches : ℕ → Db → Result Error (List SavedSearch)
list_saved_searches user db =
    if user == 0
    then err unauthenticated
    else ok (sort_by latest_first (select_where (of_user user) db.saved_searches))
