-- ===== src/Catalogue/BookLaws.antt =====
-- UpdateBook and CreateBook: one title for one ISBN, and what an edit leaves alone.
use holibrary_backend.Prelude.{
  ℕ, ◌+◌, ◌==◌, ==_iff, ◌≡◌, ◌≤◌, refl, Bool, true, false, ◌&&◌, not, some, List, [], ◌∷◌, Result,
  ok, err, trim_space, eq-of-text_eq, find_where, count_where, count_where_zero, count_where_mono,
  count_where_only, update_where, Bool-cases, Option-cases, inl, inr, ◌⊎◌, arith,
}
use holibrary_backend.Domain.{Error}
use holibrary_backend.Domain.Books.{Book}
use holibrary_backend.Db.{Db, transact, record_audit, book_metadata_updated}
use holibrary_backend.Search.Numbers.{to_upper}
use holibrary_backend.Readers.Bookmarks.{has_book_id}
use holibrary_backend.Catalogue.Metadata.{
  BookPatch, no_text, is_call_number, validate_book_metadata,
}
use holibrary_backend.Catalogue.Books.{
  patched, blank_mark, patch_book, then_patch, update_book, bears_isbn, isbn_taken, changes,
}
use holibrary_backend.Catalogue.NewBooks.{
  NewBook, whole, empty_book, insert_book, then_insert, create_book,
}

-- Ids are drawn once, and no two titles have one ISBN-13.
pub record IsCatalogue (db : Db) : Type 0 where
  pub one_row : (i : ℕ) → count_where (has_book_id i) db.books ≤ 1
  pub fresh : (i : ℕ) → db.next_id ≤ i → count_where (has_book_id i) db.books ≡ 0
  pub one_title : (isbn : List ℕ) → count_where (bears_isbn isbn) db.books ≤ 1

count-update_split :
    (p q : Book → Bool) (f : Book → Book) (bs : List Book)
    → count_where q (update_where p f bs)
      ≡ count_where (λ b. not (p b) && q b) bs + count_where (λ b. p b && q (f b)) bs
unfolding count_where update_where
count-update_split p q f [] = refl
count-update_split p q f (b ∷ bs) = ground (arith, count-update_split p q f bs)

-- The row of an id takes a number that no other row has.
update-one_title :
    (i : ℕ) (f : Book → Book) (b : Book) (isbn : List ℕ) (db : Db)
    → count_where (has_book_id i) db.books ≤ 1
    → find_where (has_book_id i) db.books ≡ some b
    → isbn_taken i (f b).isbn13 db ≡ false
    → count_where (bears_isbn isbn) db.books ≤ 1
    → count_where (bears_isbn isbn) (update_where (has_book_id i) f db.books) ≤ 1
unfolding isbn_taken
update-one_title i f b isbn db u e n h =
    let mine = λ (x : Book). has_book_id i x && bears_isbn isbn (f x) in
    let others = λ (x : Book). not (has_book_id i x) && bears_isbn isbn x in
    let split = count-update_split (has_book_id i) (bears_isbn isbn) f db.books in
    let few : count_where mine db.books ≤ count_where (has_book_id i) db.books =
      count_where_mono mine (has_book_id i) db.books (λ x. ground arith) in
    elim (Bool-cases (bears_isbn isbn (f b))) [
      | inl t ↦
          let same : (f b).isbn13 ≡ isbn = eq-of-text_eq (f b).isbn13 isbn (ground (arith, t)) in
          let none_else : count_where others db.books ≡ 0 =
            count_where_zero others db.books (ground (arith, rw same at n)) in
          omega (arith, split, few, u, none_else)
      | inr t ↦
          let none_here : count_where mine db.books ≡ 0 =
            count_where_only mine (has_book_id i) db.books b (λ x. ground arith) u e
              (ground (arith, t)) in
          let fewer : count_where others db.books ≤ count_where (bears_isbn isbn) db.books =
            count_where_mono others (bears_isbn isbn) db.books (λ x. ground arith) in
          omega (arith, split, none_here, fewer, h)
    ]

patched-id : (p : BookPatch) (b : Book) → (patched p b).id ≡ b.id
unfolding patched
patched-id p b = refl

count_rows :
    (i j : ℕ) (p : BookPatch) (bs : List Book)
    → count_where (has_book_id j) (update_where (has_book_id i) (patched p) bs)
      ≡ count_where (has_book_id j) bs
unfolding count_where update_where
count_rows i j p [] = refl
count_rows i j p (b ∷ bs) = ground (arith, count_rows i j p bs, patched-id p b)

-- An edit changes nothing, or writes the row that it was asked for and a line of the audit.
patch_book-cases :
    (i : ℕ) (p : BookPatch) (staff : ℕ) (db : Db)
    → ((transact (patch_book i p staff) db).1 ≡ db)
      ⊎ ((b : Book) × (find_where (has_book_id i) db.books ≡ some b)
          × (changes b p ≡ true)
          × (isbn_taken i (patched p b).isbn13 db ≡ false)
          × ((transact (patch_book i p staff) db).1
              ≡ record_audit staff book_metadata_updated i
                  (record db { books = update_where (has_book_id i) (patched p) db.books })))
unfolding patch_book
patch_book-cases i p staff db = elim (Option-cases (find_where (has_book_id i) db.books)) [
  | inl n ↦ inl (rw (n, transact, patch_book))
  | inr (b, f) ↦ elim (Bool-cases (changes b p)) [
    | inr n ↦ inl (rw (f, n, transact, patch_book))
    | inl c ↦ elim (Bool-cases (blank_mark p.call_number)) [
      | inl m ↦ inl (rw (f, c, m, transact, patch_book))
      | inr m ↦ elim (Bool-cases (isbn_taken i (patched p b).isbn13 db)) [
        | inl t ↦ inl (rw (f, c, m, t, transact, patch_book))
        | inr t ↦ inr (b, f, c, t, rw (f, c, m, t, transact, patch_book))
      ]
    ]
  ]
]

patch_book-IsCatalogue :
    (i : ℕ) (p : BookPatch) (staff : ℕ) (db : Db)
    → IsCatalogue db
    → IsCatalogue (transact (patch_book i p staff) db).1
patch_book-IsCatalogue i p staff db v = elim (patch_book-cases i p staff db) [
  | inl s ↦ rw s v
  | inr (b, f, _, t, e) ↦ rw e (
      unfold record_audit in
      record {
        one_row = λ j. rw (count_rows i j p db.books) (v.one_row j);
        fresh = λ j h. rw (count_rows i j p db.books) (v.fresh j h);
        one_title =
            λ isbn. update-one_title i (patched p) b isbn db (v.one_row i) f t (v.one_title isbn);
      })
]

count_others :
    (p q : Book → Bool) (bs : List Book)
    → count_where q bs ≤ count_where (λ b. not (p b) && q b) bs + count_where p bs
unfolding count_where
count_others p q [] = omega arith
count_others p q (b ∷ bs) = ground (arith, count_others p q bs)

insert-one_title :
    (b : Book) (isbn : List ℕ) (db : Db)
    → isbn_taken b.id b.isbn13 db ≡ false
    → count_where (has_book_id b.id) db.books ≡ 0
    → count_where (bears_isbn isbn) db.books ≤ 1
    → count_where (bears_isbn isbn) (b ∷ db.books) ≤ 1
unfolding isbn_taken count_where
insert-one_title b isbn db t z h = elim (Bool-cases (bears_isbn isbn b)) [
  | inr n ↦ ground (arith, n)
  | inl s ↦
      let same : b.isbn13 ≡ isbn = eq-of-text_eq b.isbn13 isbn (ground (arith, s)) in
      let others = λ (x : Book). not (has_book_id b.id x) && bears_isbn isbn x in
      let none_else : count_where others db.books ≡ 0 =
        count_where_zero others db.books (ground (arith, rw same at t)) in
      ground (arith, none_else, count_others (has_book_id b.id) (bears_isbn isbn) db.books)
]

insert_book-IsCatalogue :
    (staff : ℕ) (b : Book) (db : Db)
    → b.id ≡ db.next_id
    → IsCatalogue db
    → IsCatalogue (transact (insert_book staff b) db).1
unfolding insert_book record_audit
insert_book-IsCatalogue staff b db e v = elim (Bool-cases (isbn_taken b.id b.isbn13 db)) [
  | inl t ↦ rw (t, transact, insert_book) v
  | inr t ↦
      rw (t, transact, insert_book)
        (record {
          one_row =
              λ j. unfold count_where in ground (arith, e, ==_iff b.id j, v.one_row j, v.fresh j);
          fresh = λ j h. unfold count_where in ground (arith, e, ==_iff b.id j, v.fresh j);
          one_title = λ isbn.
              insert-one_title b isbn db t (rw e (v.fresh db.next_id (omega arith)))
                (v.one_title isbn);
        })
]

then_patch-IsCatalogue :
    (i staff : ℕ) (r : Result Error BookPatch) (db : Db)
    → IsCatalogue db
    → IsCatalogue (then_patch i staff r db).1
then_patch-IsCatalogue i staff (err e) db v = v
then_patch-IsCatalogue i staff (ok p) db v = patch_book-IsCatalogue i p staff db v

then_insert-IsCatalogue :
    (staff : ℕ) (r : Result Error BookPatch) (db : Db)
    → IsCatalogue db
    → IsCatalogue (then_insert staff r db).1
then_insert-IsCatalogue staff (err e) db v = v
then_insert-IsCatalogue staff (ok p) db v =
    insert_book-IsCatalogue staff (patched p (empty_book db.next_id)) db
      (patched-id p (empty_book db.next_id)) v

-- The edit of a title and the creation of one, by whomever and with whatever values, refused or not:
-- where ids are drawn once and no two titles have one ISBN-13, this is so afterwards.
pub books-IsCatalogue :
    (i : ℕ) (p : BookPatch) (n : NewBook) (staff this_year : ℕ) (db : Db)
    → IsCatalogue db
    → IsCatalogue (update_book i p staff this_year db).1
      × IsCatalogue (create_book n staff this_year db).1
unfolding update_book create_book
books-IsCatalogue i p n staff this_year db v =
    let edited = then_patch-IsCatalogue i staff (validate_book_metadata this_year p) db v in
    let made = then_insert-IsCatalogue staff (validate_book_metadata this_year (whole n)) db v in
    (
      elim (Bool-cases (staff == 0)) [
        | inl s ↦ rw (s, update_book) v
        | inr s ↦ rw (s, update_book) edited
      ],
      elim (Bool-cases (no_text (trim_space n.title))) [
        | inl s ↦ rw (s, create_book) v
        | inr s ↦ elim (Bool-cases (is_call_number (to_upper (trim_space n.call_number)))) [
          | inl c ↦ rw (s, c, create_book) made
          | inr c ↦ rw (s, c, create_book) v
        ]
      ],
    )
