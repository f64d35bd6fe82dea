-- ===== src/Readers/SavedSearchLaws.antt =====
-- internal/service/saved_search_service.go: the limit on a member's saved searches.
use holibrary_backend.Prelude.{
  ℕ, ◌≤◌, Option, none, some, List, [], ◌∷◌, trim_space, count_where, delete_where, arith,
}
use holibrary_backend.Domain.Books.{Json, SavedSearch}
use holibrary_backend.Db.{Db, transact, record_audit}
use holibrary_backend.Readers.SavedSearches.{
  search_limit, of_user, insert_search, create_saved_search, is_search, delete_search,
  delete_saved_search,
}

-- A call of the service.
pub data SearchCall : Type 0 where
  create_call : ℕ → List ℕ → Option (List (List ℕ × Json)) → ℕ → SearchCall
  delete_call : ℕ → ℕ → SearchCall

unfoldable pub perform : SearchCall → Db → Db
perform (create_call user name query now) db = (create_saved_search user name query now db).1
perform (delete_call i user) db = (delete_saved_search i user db).1

unfoldable pub perform_all : List SearchCall → Db → Db
perform_all [] db = db
perform_all (c ∷ cs) db = perform_all cs (perform c db)

count_deleted :
    (i user other : ℕ) (ss : List SavedSearch)
    → count_where (of_user other) (delete_where (is_search i user) ss)
      ≤ count_where (of_user other) ss
unfolding count_where delete_where
count_deleted i user other [] = omega arith
count_deleted i user other (s ∷ ss) = ground (arith, count_deleted i user other ss)

count_inserted :
    (user : ℕ) (name : List ℕ) (query : List (List ℕ × Json)) (now other : ℕ) (db : Db)
    → count_where (of_user other) db.saved_searches ≤ search_limit
    → count_where
        (of_user other)
        (transact (insert_search user name query search_limit now) db).1.saved_searches
      ≤ search_limit
unfolding insert_search count_where record_audit
count_inserted user name query now other db h = ground (arith, h)

perform-limit :
    (c : SearchCall) (other : ℕ) (db : Db)
    → count_where (of_user other) db.saved_searches ≤ search_limit
    → count_where (of_user other) (perform c db).saved_searches ≤ search_limit
unfolding perform create_saved_search delete_saved_search delete_search record_audit
perform-limit (create_call user name none now) other db h = ground (arith, h)
perform-limit (create_call user name (some q) now) other db h =
    ground (arith, h, count_inserted user (trim_space name) q now other db)
perform-limit (delete_call i user) other db h =
    ground (arith, h, count_deleted i user other db.saved_searches)

-- Whatever is called, and by whomever, a member who has at most twenty saved searches never gets more.
pub perform_all-limit :
    (cs : List SearchCall) (user : ℕ) (db : Db)
    → count_where (of_user user) db.saved_searches ≤ 20
    → count_where (of_user user) (perform_all cs db).saved_searches ≤ 20
unfolding perform_all
perform_all-limit [] user db h = h
perform_all-limit (c ∷ cs) user db h =
    perform_all-limit cs user (perform c db) (perform-limit c user db h)
