-- ===== src/Domain/Books.antt =====
-- Book, Bookmark and SavedSearch of internal/domain/domain.go and saved_search.go. The authors and
-- subjects of a title, which have tables of their own, are lists of the book, main entry first.
use holibrary_backend.Prelude.{ℕ, Bool, List, Option}

-- A JSON value of a saved query. A number is whole, and otherwise `other_value`, as objects and arrays.
pub data Json : Type 0 where
  null other_value : Json
  bool_value : Bool → Json
  number negative : ℕ → Json
  text_value : List ℕ → Json

pub data BookStatus : Type 0 where
  active archived : BookStatus

pub record Book : Type 0 where
  pub id : ℕ
  pub title : List ℕ
  pub subtitle : List ℕ
  pub isbn13 : List ℕ
  pub isbn10 : List ℕ
  pub publisher : List ℕ
  pub place_of_publication : List ℕ
  pub published_year : Option ℕ
  pub call_number : List ℕ
  pub lcc_class : List ℕ
  pub status : BookStatus
  pub description : List ℕ
  pub edition : List ℕ
  pub language : List ℕ
  pub faculty : List ℕ
  pub department : List ℕ
  pub authors : List (List ℕ)
  pub subjects : List (List ℕ)

pub record Bookmark : Type 0 where
  pub id : ℕ
  pub user_id : ℕ
  pub book_id : ℕ
  pub created_at : ℕ

pub record SavedSearch : Type 0 where
  pub id : ℕ
  pub user_id : ℕ
  pub name : List ℕ
  pub query : List (List ℕ × Json)
  pub created_at : ℕ
