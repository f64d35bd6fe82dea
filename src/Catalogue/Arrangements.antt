-- ===== src/Catalogue/Arrangements.antt =====
-- ORDER BY in Search of internal/repository/postgres/catalogue_repo.go: rows that are put in an order in
-- which no two of them tie can be put in it in one way only.
use mathlib.Core.Path.{subst}
use holibrary_backend.Prelude.{
  ℕ, ◌==◌, ==_iff, ◌≤◌, ◌≡◌, refl, sym, ap, ◌∙◌, inl, inr, Bool, false, some, List, [], ◌∷◌, length,
  find_where, find_where-none, count_where, Bool-cases, arith,
}
use holibrary_backend.Domain.Books.{Book}
use holibrary_backend.Readers.Bookmarks.{has_book_id}

-- No row stands behind one that it has to come before.
unfoldable pub IsOrdered : (Book → Book → Bool) → List Book → Type 0
IsOrdered before [] = Unit {0}
IsOrdered before (x ∷ xs) = (count_where (λ y. before y x) xs ≡ 0) × IsOrdered before xs

-- The rows have the ids, and under each id the row, of the others.
pub record SameRows (xs ys : List Book) : Type 0 where
  pub counts : (i : ℕ) → count_where (has_book_id i) xs ≡ count_where (has_book_id i) ys
  pub rows : (i : ℕ) → find_where (has_book_id i) xs ≡ find_where (has_book_id i) ys

-- What SELECT ... ORDER BY answers for the rows that match.
pub record IsArrangement (before : Book → Book → Bool) (rows out : List Book) : Type 0 where
  pub same : SameRows out rows
  pub all : length out ≡ length rows
  pub ordered : IsOrdered before out

not_counted :
    (p q : Book → Bool) (xs : List Book) (y : Book)
    → find_where p xs ≡ some y
    → count_where q xs ≡ 0
    → q y ≡ false
unfolding find_where count_where
not_counted p q [] y f c = cc
not_counted p q (x ∷ xs) y f c = elim (Bool-cases (p x)) [
  | inl t ↦ ground arith
  | inr n ↦ not_counted p q xs y (ground arith) (ground arith)
]

unfoldable pub NoTies : (Book → Book → Bool) → Type 0
NoTies before = (a b : Book) → before a b ≡ false → before b a ≡ false → a.id ≡ b.id

unfoldable pub HasKeys : List Book → Type 0
HasKeys xs = (i : ℕ) → count_where (has_book_id i) xs ≤ 1

same_key :
    (before : Book → Book → Bool) (x y : Book) (xs ys : List Book)
    → NoTies before
    → IsOrdered before (x ∷ xs)
    → IsOrdered before (y ∷ ys)
    → SameRows (x ∷ xs) (y ∷ ys)
    → x.id ≡ y.id
unfolding IsOrdered NoTies find_where
same_key before x y xs ys n (ox, _) (oy, _) s = elim (Bool-cases (x.id == y.id)) [
  | inl t ↦ (==_iff x.id y.id).0 t
  | inr f ↦
      let y_behind : find_where (has_book_id y.id) xs ≡ some y =
        ground (arith, s.rows y.id, ==_iff y.id y.id, f) in
      let x_behind : find_where (has_book_id x.id) ys ≡ some x =
        ground (arith, s.rows x.id, ==_iff x.id x.id, f) in
      n x y (not_counted (has_book_id x.id) (λ z. before z y) ys x x_behind oy)
        (not_counted (has_book_id y.id) (λ z. before z x) xs y y_behind ox)
]

same_head : (x y : Book) (xs ys : List Book) → x.id ≡ y.id → SameRows (x ∷ xs) (y ∷ ys) → x ≡ y
unfolding find_where
same_head x y xs ys e s = ground (arith, s.rows x.id, ==_iff x.id x.id, ==_iff y.id x.id)

tail_rows :
    (x : Book) (xs ys : List Book)
    → HasKeys (x ∷ xs)
    → HasKeys (x ∷ ys)
    → SameRows (x ∷ xs) (x ∷ ys)
    → SameRows xs ys
unfolding HasKeys find_where count_where
tail_rows x xs ys k l s = record {
  counts = λ i. ground (arith, s.counts i);
  rows = λ i. elim (Bool-cases (x.id == i)) [
    | inl t ↦
        find_where-none (has_book_id i) xs (ground (arith, k i))
        ∙ sym (find_where-none (has_book_id i) ys (ground (arith, l i)))
    | inr f ↦ ground (arith, s.rows i)
  ];
}

tail_keys : (x : Book) (xs : List Book) → HasKeys (x ∷ xs) → HasKeys xs
unfolding HasKeys count_where
tail_keys x xs k = λ i. ground (arith, k i)

IsOrdered-tail :
    (before : Book → Book → Bool) (x : Book) (xs : List Book)
    → IsOrdered before (x ∷ xs)
    → IsOrdered before xs
unfolding IsOrdered
IsOrdered-tail before x xs (_, o) = o

-- Two lists of the same rows, each under its own key, that are in an order without ties are one list.
pub one_arrangement :
    (before : Book → Book → Bool) (xs ys : List Book)
    → NoTies before
    → HasKeys xs
    → HasKeys ys
    → IsOrdered before xs
    → IsOrdered before ys
    → SameRows xs ys
    → xs ≡ ys
one_arrangement before [] [] n k l o p s = refl
one_arrangement before [] (y ∷ ys) n k l o p s =
    absurd (unfold count_where in ground (arith, s.counts y.id, ==_iff y.id y.id))
one_arrangement before (x ∷ xs) [] n k l o p s =
    absurd (unfold count_where in ground (arith, s.counts x.id, ==_iff x.id x.id))
one_arrangement before (x ∷ xs) (y ∷ ys) n k l o p s =
    let e = same_head x y xs ys (same_key before x y xs ys n o p s) s in
    let keys : HasKeys (x ∷ ys) = subst (λ z. HasKeys (z ∷ ys)) (sym e) l in
    let both : SameRows (x ∷ xs) (x ∷ ys) = subst (λ z. SameRows (x ∷ xs) (z ∷ ys)) (sym e) s in
    ap (λ (zs : List Book). x ∷ zs)
      (one_arrangement before xs ys n (tail_keys x xs k) (tail_keys x ys keys)
        (IsOrdered-tail before x xs o) (IsOrdered-tail before y ys p)
        (tail_rows x xs ys k keys both))
    ∙ ap (λ z. z ∷ ys) e
