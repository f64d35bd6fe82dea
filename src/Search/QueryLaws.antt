-- ===== src/Search/QueryLaws.antt =====
-- ParseCatalogueQuery and ValidateSavedQuery of internal/service/catalogue_query.go: the bounds of what
-- is accepted, and the order in which Go goes through a map.
use native.Mathlib.Nat.{mul-le-mul}
use holibrary_backend.Prelude.{
  ℕ, ◌-◌, ◌*◌, ◌≤◌, leb, ◌==◌, ◌≡◌, refl, ap, Bool, true, false, ◌&&◌, Option, none, some, List, [],
  ◌∷◌, ◌++◌, ok, Bool-cases, Option-cases, inl, inr, arith,
}
use holibrary_backend.Search.Query.{
  Key, q, title, author, subject, faculty, department, language, isbn, call_number, class, wing,
  available, borrowable, year_from, year_to, sort, page, per_page, no_key, key_of, SearchParams,
  take_key, take_values, only_value, conclude, take_all_keys, parse_catalogue_query, defaults,
  years_in_order,
}
use holibrary_backend.Search.Values.{bounded}

year_in_range : Option ℕ → Bool
year_in_range none = true
year_in_range (some n) = leb 1 n && leb n 9999

-- What every turn of the loop keeps.
in_bounds : SearchParams → Bool
in_bounds p =
    leb 1 p.limit
    && leb p.limit 100
    && leb 1 p.page
    && leb p.page 1_000_000
    && year_in_range p.year_from
    && year_in_range p.year_to

take_key-in_bounds :
    (k : Key) (v : List ℕ) (p r : SearchParams)
    → in_bounds p ≡ true
    → take_key k v p ≡ some r
    → in_bounds r ≡ true
unfolding in_bounds year_in_range take_key bounded
take_key-in_bounds q v p r h e = ground arith
take_key-in_bounds title v p r h e = ground arith
take_key-in_bounds author v p r h e = ground arith
take_key-in_bounds subject v p r h e = ground arith
take_key-in_bounds faculty v p r h e = ground arith
take_key-in_bounds department v p r h e = ground arith
take_key-in_bounds language v p r h e = ground arith
take_key-in_bounds isbn v p r h e = ground arith
take_key-in_bounds call_number v p r h e = ground arith
take_key-in_bounds class v p r h e = ground arith
take_key-in_bounds wing v p r h e = ground arith
take_key-in_bounds available v p r h e = ground arith
take_key-in_bounds borrowable v p r h e = ground arith
take_key-in_bounds year_from v p r h e = ground arith
take_key-in_bounds year_to v p r h e = ground arith
take_key-in_bounds sort v p r h e = ground arith
take_key-in_bounds page v p r h e = ground arith
take_key-in_bounds per_page v p r h e = ground arith
take_key-in_bounds no_key v p r h e = ground arith

unfoldable pub key_index : Key → ℕ
key_index q = 0
key_index title = 1
key_index author = 2
key_index subject = 3
key_index faculty = 4
key_index department = 5
key_index language = 6
key_index isbn = 7
key_index call_number = 8
key_index class = 9
key_index wing = 10
key_index available = 11
key_index borrowable = 12
key_index year_from = 13
key_index year_to = 14
key_index sort = 15
key_index page = 16
key_index per_page = 17
key_index no_key = 18

abbrev and_then : Option SearchParams → Key → List ℕ → Option SearchParams
and_then none l w = none
and_then (some p) l w = take_key l w p

take_key_comm :
    (k l : Key) (v w : List ℕ) (p : SearchParams)
    → (key_index k == key_index l) ≡ false
    → and_then (take_key k v p) l w ≡ and_then (take_key l w p) k v
unfolding key_index take_key
take_key_comm k l v w p h = ground arith

take_values-in_bounds :
    (key : List ℕ) (values : List (List ℕ)) (p r : SearchParams)
    → in_bounds p ≡ true
    → take_values key values p ≡ some r
    → in_bounds r ≡ true
unfolding take_values
take_values-in_bounds key values p r h e = elim (Option-cases (only_value values)) [
  | inl n ↦ absurd (ground (arith, n))
  | inr (v, o) ↦ take_key-in_bounds (key_of key) v p r h (rw (o, take_values) at e)
]

take_all_keys-in_bounds :
    (query : List (List ℕ × List (List ℕ))) (p r : SearchParams)
    → in_bounds p ≡ true
    → take_all_keys query p ≡ some r
    → in_bounds r ≡ true
unfolding take_all_keys take_values
take_all_keys-in_bounds [] p r h e = ground arith
take_all_keys-in_bounds ((key, values) ∷ rest) p r h e =
    elim (Option-cases (take_values key values p)) [
      | inl n ↦ absurd (ground (arith, n))
      | inr (mid, t) ↦
          take_all_keys-in_bounds rest mid r (take_values-in_bounds key values p mid h t)
            (rw (t, take_all_keys) at e)
    ]

bounds-conclude :
    (r p : SearchParams)
    → in_bounds r ≡ true
    → conclude (some r) ≡ ok p
    → (1 ≤ p.limit)
      × (p.limit ≤ 100)
      × (1 ≤ p.page)
      × (p.page ≤ 1_000_000)
      × (p.offset ≡ (p.page - 1) * p.limit)
      × (p.offset ≤ 99_999_900)
      × ((a : ℕ) → p.year_from ≡ some a → (1 ≤ a) × (a ≤ 9999))
      × ((b : ℕ) → p.year_to ≡ some b → (1 ≤ b) × (b ≤ 9999))
      × ((a b : ℕ) → p.year_from ≡ some a → p.year_to ≡ some b → a ≤ b)
unfolding in_bounds year_in_range
bounds-conclude r p b h = elim (Bool-cases (years_in_order r.year_from r.year_to)) [
  | inr n ↦ absurd (ground (arith, n))
  | inl y ↦
      let rows : p.limit ≤ 100 = ground (arith, y) in
      let pages : p.page - 1 ≤ 999_999 = ground (arith, y) in
      let at : p.offset ≡ (p.page - 1) * p.limit = ground (arith, y) in
      (
        ground (arith, y),
        rows,
        ground (arith, y),
        ground (arith, y),
        at,
        omega (arith, at, mul-le-mul pages rows),
        (λ a e. ground (arith, y)),
        (λ a e. ground (arith, y)),
        λ a c d e. ground (arith, y),
      )
]

-- The keys before, the two, and the keys after.
take_values_comm :
    (k l : List ℕ) (v w : List (List ℕ)) (rest : List (List ℕ × List (List ℕ))) (p : SearchParams)
    → (key_index (key_of k) == key_index (key_of l)) ≡ false
    → take_all_keys ((k, v) ∷ (l, w) ∷ rest) p ≡ take_all_keys ((l, w) ∷ (k, v) ∷ rest) p
unfolding take_all_keys take_values
take_values_comm k l v w rest p h = elim (Option-cases (only_value v)) [
  | inl n ↦ ground (arith, n)
  | inr (a, n) ↦ elim (Option-cases (only_value w)) [
    | inl m ↦ ground (arith, n, m)
    | inr (b, m) ↦ ground (arith, n, m, take_key_comm (key_of k) (key_of l) a b p h)
  ]
]

take_all_keys_comm :
    (before after : List (List ℕ × List (List ℕ))) (k l : List ℕ) (v w : List (List ℕ))
    (p : SearchParams)
    → (key_index (key_of k) == key_index (key_of l)) ≡ false
    → take_all_keys (before ++ (k, v) ∷ (l, w) ∷ after) p
      ≡ take_all_keys (before ++ (l, w) ∷ (k, v) ∷ after) p
unfolding take_all_keys
take_all_keys_comm [] after k l v w p h = take_values_comm k l v w after p h
take_all_keys_comm ((key, values) ∷ before) after k l v w p h =
    elim (Option-cases (take_values key values p)) [
      | inl n ↦ rw (n, take_all_keys)
      | inr (mid, t) ↦ rw (t, take_all_keys) (take_all_keys_comm before after k l v w mid h)
    ]

-- A query that is accepted asks for a page of 1 to 100 rows among the first million pages, from the row
-- where that page begins; its years, where it has any, are in 1 to 9999 and in order.
pub parse_catalogue_query_bounds :
    (query : List (List ℕ × List (List ℕ))) (p : SearchParams)
    → parse_catalogue_query query ≡ ok p
    → (1 ≤ p.limit)
      × (p.limit ≤ 100)
      × (1 ≤ p.page)
      × (p.page ≤ 1_000_000)
      × (p.offset ≡ (p.page - 1) * p.limit)
      × (p.offset ≤ 99_999_900)
      × ((a : ℕ) → p.year_from ≡ some a → (1 ≤ a) × (a ≤ 9999))
      × ((b : ℕ) → p.year_to ≡ some b → (1 ≤ b) × (b ≤ 9999))
      × ((a b : ℕ) → p.year_from ≡ some a → p.year_to ≡ some b → a ≤ b)
unfolding parse_catalogue_query
parse_catalogue_query_bounds query p h = elim (Option-cases (take_all_keys query defaults)) [
  | inl n ↦ absurd (ground (arith, n, h))
  | inr (r, t) ↦
      bounds-conclude r p
        (take_all_keys-in_bounds query defaults r (unfold in_bounds year_in_range in refl) t)
        (rw t at h)
]

-- Two different keys of the contract may be met in either order.
pub parse_catalogue_query_comm :
    (before after : List (List ℕ × List (List ℕ))) (k l : List ℕ) (v w : List (List ℕ))
    → (key_index (key_of k) == key_index (key_of l)) ≡ false
    → parse_catalogue_query (before ++ (k, v) ∷ (l, w) ∷ after)
      ≡ parse_catalogue_query (before ++ (l, w) ∷ (k, v) ∷ after)
unfolding parse_catalogue_query
parse_catalogue_query_comm before after k l v w h =
    ap conclude (take_all_keys_comm before after k l v w defaults h)
