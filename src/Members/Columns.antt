-- ===== src/Members/Columns.antt =====
-- csvAliases and columnIndex of internal/service/member_service.go.
use holibrary_backend.Prelude.{
  ℕ, zero, suc, Bool, ◌&&◌, ◌||◌, Option, none, some, List, [], ◌∷◌, Result, ok, err, if◌then◌else◌,
  is_some, codes, to_lower, trim_space, text_eq,
}
use holibrary_backend.Domain.{Error, invalid}

pub data Field : Type 0 where
  identifier email first_name last_name full_name department faculty level category : Field

-- csvAliases
abbrev aliases : Field → List (List ℕ)
aliases identifier =
    codes "identifier" ∷ codes "student_id" ∷ codes "matric_no" ∷ codes "matric_number" ∷ []
aliases email = codes "email" ∷ codes "e-mail" ∷ codes "email_address" ∷ []
aliases first_name = codes "first_name" ∷ codes "firstname" ∷ codes "given_name" ∷ []
aliases last_name =
    codes "last_name" ∷ codes "lastname" ∷ codes "surname" ∷ codes "family_name" ∷ []
aliases full_name = codes "full_name" ∷ codes "fullname" ∷ codes "name" ∷ []
aliases department = codes "department" ∷ codes "dept" ∷ []
aliases faculty = codes "faculty" ∷ []
aliases level = codes "level" ∷ codes "year" ∷ []
aliases category = codes "category" ∷ codes "member_category" ∷ []

abbrev sooner : Bool → ℕ → Option ℕ → Option ℕ
sooner here i (some later) = some later
sooner here i none = if here then some i else none

-- present[name]: of two columns of one name the later counts.
unfoldable pub column_named : List ℕ → ℕ → List (List ℕ) → Option ℕ
column_named name i [] = none
column_named name i (h ∷ header) =
    sooner (text_eq (to_lower (trim_space h)) name) i (column_named name (suc i) header)

-- The first alias that some column bears.
unfoldable pub first_alias : List (List ℕ) → List (List ℕ) → Option ℕ
first_alias [] header = none
first_alias (name ∷ names) header = elim (column_named name 0 header) [
  | some i ↦ some i
  | none ↦ first_alias names header
]

-- index[field]
unfoldable pub column : List (List ℕ) → Field → Option ℕ
column header f = first_alias (aliases f) header

-- columnIndex
unfoldable pub column_index : List (List ℕ) → Result Error (Field → Option ℕ)
column_index header =
    if is_some (column header identifier)
      && is_some (column header email)
      && (is_some (column header full_name) || is_some (column header first_name))
    then ok (column header)
    else err invalid

unfoldable pub cell : ℕ → List (List ℕ) → List ℕ
cell i [] = []
cell zero (c ∷ cells) = c
cell (suc i) (c ∷ cells) = cell i cells

-- The closure `field` of ImportCSV
unfoldable pub value_of : (Field → Option ℕ) → List (List ℕ) → Field → List ℕ
value_of index cells f = elim (index f) [ none ↦ [] | some i ↦ trim_space (cell i cells) ]
