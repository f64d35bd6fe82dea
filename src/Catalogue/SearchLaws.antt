-- ===== src/Catalogue/SearchLaws.antt =====
-- The pages of a search and its tests on copies, against the lists and counts of internal/domain/domain.go.
use holibrary_backend.Prelude.{
  ℕ, zero, suc, ◌+◌, ◌*◌, ◌≤◌, ◌≡◌, refl, sym, ap, ◌∙◌, Bool, true, false, Option, none, some, List,
  [], ◌∷◌, ◌++◌, take, drop, length, take_all, count_where, select_where, arith,
}
use holibrary_backend.Domain.{Copy}
use holibrary_backend.Domain.Books.{Book}
use holibrary_backend.Domain.Retention.{borrowable, is_available}
use holibrary_backend.Search.Values.{SortOrder, relevance, newest, oldest, title_order}
use holibrary_backend.Search.Query.{SearchParams}
use mathlib.Core.Path.{subst}
use holibrary_backend.Readers.Bookmarks.{has_book_id}
use holibrary_backend.Catalogue.Arrangements.{
  IsArrangement, SameRows, NoTies, HasKeys, one_arrangement,
}
use holibrary_backend.Catalogue.Search.{
  TextSearch, by_title, by_year, order_by, borrowable_expression, availability, search_where,
  search_order, search_rows, text_matches, book_page,
}

-- The SQL for borrowable copies agrees with BorrowableCount of the counts that a book is shown with.
pub borrowable_expression-borrowable :
    (copies : List Copy) (b : Book)
    → borrowable_expression copies b ≡ borrowable (availability copies b)
unfolding borrowable_expression borrowable availability
borrowable_expression-borrowable copies b = ground arith

module _ {ℓ} {A : Type ℓ} where
  take-nil : (n : ℕ) → ◌≡◌ {A = List A} (take n []) []
  take-nil zero = refl
  take-nil (suc n) = refl

  take-step : (n m : ℕ) (xs : List A) → take n xs ++ take m (drop n xs) ≡ take (n + m) xs
  take-step zero m xs = ap (λ k. take k xs) (omega arith)
  take-step (suc n) m [] = take-nil m ∙ sym (take-nil (suc n + m))
  take-step (suc n) m (x ∷ xs) =
      ap (λ (ys : List A). x ∷ ys) (take-step n m xs)
      ∙ ap (λ k. take k (x ∷ xs)) {x = suc (n + m)} (omega arith)

  length-select : (q : A → Bool) (xs : List A) → length (select_where q xs) ≡ count_where q xs
  unfolding select_where count_where
  length-select q [] = refl
  length-select q (x ∷ xs) = ground (arith, length-select q xs)

count-select-le :
    (q w : Book → Bool) (xs : List Book) → count_where q (select_where w xs) ≤ count_where q xs
unfolding count_where select_where
count-select-le q w [] = omega arith
count-select-le q w (x ∷ xs) = ground (arith, count-select-le q w xs)

-- The first n pages, one after the other, each asked for in a request of its own.
unfoldable pub first_pages : TextSearch → SearchParams → List Copy → List Book → ℕ → List Book
first_pages x p copies books zero = []
first_pages x p copies books (suc n) =
    let rest = first_pages x p copies books n in
    rest ++ (search_rows x n (record p { offset = n * p.limit }) copies books).0

by_title-tie :
    (x : TextSearch) (a b : Book) → by_title x a b ≡ false → by_title x b a ≡ false → a.id ≡ b.id
unfolding by_title
by_title-tie x a b h k = ground arith

by_year-tie :
    (desc : Bool) (y z : Option ℕ) (s t : Bool)
    → by_year desc y z s ≡ false
    → by_year desc z y t ≡ false
    → (s ≡ false) × (t ≡ false)
unfolding by_year
by_year-tie desc none none s t h k = (h, k)
by_year-tie desc none (some z) s t h k = cc
by_year-tie desc (some y) none s t h k = cc
by_year-tie desc (some y) (some z) s t h k = ground arith

-- The order of a search leaves no two books tied.
order_by-tie :
    (x : TextSearch) (query : List ℕ) (sort : SortOrder) (a b : Book)
    → order_by x query sort a b ≡ false
    → order_by x query sort b a ≡ false
    → a.id ≡ b.id
unfolding order_by
order_by-tie x query relevance a b h k = ground (arith, by_title-tie x a b)
order_by-tie x query newest a b h k =
    let (s, t) =
      by_year-tie true a.published_year b.published_year (by_title x a b) (by_title x b a) h k in
    by_title-tie x a b s t
order_by-tie x query oldest a b h k =
    let (s, t) =
      by_year-tie false a.published_year b.published_year (by_title x a b) (by_title x b a) h k in
    by_title-tie x a b s t
order_by-tie x query title_order a b h k = by_title-tie x a b h k

search_order-NoTies : (x : TextSearch) (p : SearchParams) → NoTies (search_order x p)
unfolding NoTies search_order
search_order-NoTies x p a b h k = order_by-tie x p.query p.sort a b h k

select-HasKeys :
    (q : Book → Bool) (books : List Book) → HasKeys books → HasKeys (select_where q books)
unfolding HasKeys
select-HasKeys q books k i = omega (arith, k i, count-select-le (has_book_id i) q books)

same-HasKeys : (xs ys : List Book) → SameRows xs ys → HasKeys ys → HasKeys xs
unfolding HasKeys
same-HasKeys xs ys s k i = omega (arith, k i, s.counts i)

module _ (x : TextSearch) (p : SearchParams) (copies : List Copy) (books : List Book) where
  -- The books that match, and how the engine puts them for a request.
  unfoldable pub matching : List Book
  matching = select_where (search_where x p copies) books

  unfoldable pub arranged : ℕ → List Book
  arranged request = x.arrange request (search_order x p) matching

  next_page :
      (request o : ℕ)
      → (search_rows x request (record p { offset = o }) copies books).0
        ≡ take p.limit (drop o (arranged request))
  unfolding matching arranged search_rows book_page search_where search_order text_matches
  next_page request o = refl

  next_total :
      (request o : ℕ)
      → (search_rows x request (record p { offset = o }) copies books).1
        ≡ count_where (search_where x p copies) books
  unfolding search_rows book_page search_where text_matches
  next_total request o = refl

  module _ (keys : HasKeys books)
      (sorts : (request : ℕ) → IsArrangement (search_order x p) matching (arranged request)) where
    arranged_alike : (request : ℕ) → arranged request ≡ arranged 0
    unfolding matching
    arranged_alike request =
        let own = select-HasKeys (search_where x p copies) books keys in
        let s = sorts request in
        let t = sorts 0 in
        one_arrangement (search_order x p) (arranged request) (arranged 0) (search_order-NoTies x p)
          (same-HasKeys (arranged request) matching s.same own)
          (same-HasKeys (arranged 0) matching t.same own) s.ordered t.ordered
          (record {
            counts = λ i. s.same.counts i ∙ sym (t.same.counts i);
            rows = λ i. s.same.rows i ∙ sym (t.same.rows i);
          })

    first_pages-take : (n : ℕ) → first_pages x p copies books n ≡ take (n * p.limit) (arranged 0)
    unfolding first_pages
    first_pages-take zero = ap (λ k. take k (arranged 0)) {x = 0} (omega arith)
    first_pages-take (suc n) =
        ap
          (λ (zs : List Book).
            zs ++ (search_rows x n (record p { offset = n * p.limit }) copies books).0)
          (first_pages-take n)
        ∙ ap (λ (zs : List Book). take (n * p.limit) (arranged 0) ++ zs)
            (next_page n (n * p.limit)
              ∙ ap (λ (zs : List Book). take p.limit (drop (n * p.limit) zs)) (arranged_alike n))
        ∙ take-step (n * p.limit) p.limit (arranged 0)
        ∙ ap (λ k. take k (arranged 0)) {x = n * p.limit + p.limit} (grind arith)

    length-arranged : length (arranged 0) ≡ count_where (search_where x p copies) books
    unfolding matching
    length-arranged = (sorts 0).all ∙ length-select (search_where x p copies) books

    -- When no two books have one id and the engine puts the rows of each request in the order that the
    -- request asks for, though not the same way each time where rows tie: going through the pages of a
    -- search until all are seen lists exactly the books that match, each of them once and as its row
    -- stands, and each page comes with the number of the books that match.
    pub search_pages :
        (n : ℕ)
        → count_where (search_where x p copies) books ≤ n * p.limit
        → SameRows (first_pages x p copies books n) matching
          × ((request o : ℕ)
              → (search_rows x request (record p { offset = o }) copies books).1
                ≡ count_where (search_where x p copies) books)
    search_pages n h = (
      subst (λ zs. SameRows zs matching)
          (sym (
            first_pages-take n
            ∙ take_all (n * p.limit) (arranged 0) (grind (arith, length-arranged))))
          (sorts 0).same,
      next_total,
    )

-- A search for what can be borrowed, or for what cannot, lists only books for which IsAvailable, the rule
-- of the domain by which a book is shown, says the same of the counts of their copies.
pub search_borrowable :
    (x : TextSearch) (p : SearchParams) (copies : List Copy) (b : Book) (w : Bool)
    → p.borrowable ≡ some w
    → search_where x p copies b ≡ true
    → is_available (availability copies b) ≡ w
unfolding search_where is_available
search_borrowable x p copies b w e h = ground (arith, borrowable_expression-borrowable copies b)
