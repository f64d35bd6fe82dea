-- ===== src/Catalogue/IsbnLaws.antt =====
-- What the checksums of validISBN catch: internal/service/book_metadata.go.
use mathlib.Core.Path.{subst}
use holibrary_backend.Prelude.{
  ℕ, ◌+◌, ◌*◌, ◌%◌, ◌==◌, ◌≤◌, ◌≡◌, ◌≢◌, refl, sym, true, false, Option, none, some, List, [], ◌∷◌,
  ◌++◌, if◌then◌else◌, length, length-append, Bool-cases, Option-cases, inl, inr, ◌⊎◌, arith,
}
use holibrary_backend.Catalogue.Isbn.{
  digit_ten, digit_thirteen, weight_ten, weight_thirteen, checksum, divides, valid_isbn,
}

module _ (digit : ℕ → ℕ → Option ℕ) (weight : ℕ → ℕ) where
  -- Two sums that start apart stay apart by as much.
  apart :
      (i a b t u : ℕ) (s : List ℕ)
      → checksum digit weight i a s ≡ some t
      → checksum digit weight i b s ≡ some u
      → t + b ≡ u + a
  unfolding checksum
  apart i a b t u [] h k = ground arith
  apart i a b t u (r ∷ s) h k = elim (Option-cases (digit i r)) [
    | inl n ↦ absurd (ground arith)
    | inr (d, e) ↦ omega (
      arith,
      apart (i + 1) (a + weight i * d) (b + weight i * d) t u s (ground arith) (ground arith),
    )
  ]

  -- Two texts that differ at one place.
  differ :
      (i a t u c d : ℕ) (pre post : List ℕ)
      → checksum digit weight i a (pre ++ c ∷ post) ≡ some t
      → checksum digit weight i a (pre ++ d ∷ post) ≡ some u
      → (j : ℕ) × (x : ℕ) × (y : ℕ) × (j ≡ i + length pre)
        × (digit j c ≡ some x)
        × (digit j d ≡ some y)
        × (t + weight j * y ≡ u + weight j * x)
  unfolding checksum
  differ i a t u c d [] post h k = elim (Option-cases (digit i c)) [
    | inl n ↦ absurd (ground arith)
    | inr (x, e) ↦ elim (Option-cases (digit i d)) [
      | inl n ↦ absurd (ground arith)
      | inr (y, f) ↦ (
        i,
        x,
        y,
        omega arith,
        e,
        f,
        omega (
          arith,
          apart (i + 1) (a + weight i * x) (a + weight i * y) t u post (ground arith)
              (ground arith),
        ),
      )
    ]
  ]
  differ i a t u c d (r ∷ pre) post h k = elim (Option-cases (digit i r)) [
    | inl n ↦ absurd (ground arith)
    | inr (z, g) ↦
        let (j, x, y, at, e, f, q) =
          differ (i + 1) (a + weight i * z) t u c d pre post (ground arith) (ground arith) in
        (j, x, y, omega (arith, at), e, f, q)
  ]

ten_weights :
    (w : ℕ)
    → 1 ≤ w
    → w ≤ 10
    → (w ≡ 1)
      ⊎ (w ≡ 2)
      ⊎ (w ≡ 3)
      ⊎ (w ≡ 4)
      ⊎ (w ≡ 5)
      ⊎ (w ≡ 6)
      ⊎ (w ≡ 7)
      ⊎ (w ≡ 8)
      ⊎ (w ≡ 9)
      ⊎ (w ≡ 10)
ten_weights w l m = ground arith

-- Every weight of an ISBN-10 has an inverse modulo 11.
same_mod_eleven :
    (w x y t u : ℕ)
    → 1 ≤ w
    → w ≤ 10
    → x ≤ 10
    → y ≤ 10
    → t + w * y ≡ u + w * x
    → t % 11 ≡ 0
    → u % 11 ≡ 0
    → x ≡ y
same_mod_eleven w x y t u l m p q e h k = by_weight (ten_weights w l m)
  where
    at : (v : ℕ) → w ≡ v → t + v * y ≡ u + v * x
    at v s = subst (λ n. t + n * y ≡ u + n * x) s e

    by_weight :
        (w ≡ 1)
          ⊎ (w ≡ 2)
          ⊎ (w ≡ 3)
          ⊎ (w ≡ 4)
          ⊎ (w ≡ 5)
          ⊎ (w ≡ 6)
          ⊎ (w ≡ 7)
          ⊎ (w ≡ 8)
          ⊎ (w ≡ 9)
          ⊎ (w ≡ 10)
        → x ≡ y
    by_weight (inl s) = omega (arith, at 1 s, h, k, p, q)
    by_weight (inr (inl s)) = omega (arith, at 2 s, h, k, p, q)
    by_weight (inr (inr (inl s))) = omega (arith, at 3 s, h, k, p, q)
    by_weight (inr (inr (inr (inl s)))) = omega (arith, at 4 s, h, k, p, q)
    by_weight (inr (inr (inr (inr (inl s))))) = omega (arith, at 5 s, h, k, p, q)
    by_weight (inr (inr (inr (inr (inr (inl s)))))) = omega (arith, at 6 s, h, k, p, q)
    by_weight (inr (inr (inr (inr (inr (inr (inl s))))))) = omega (arith, at 7 s, h, k, p, q)
    by_weight (inr (inr (inr (inr (inr (inr (inr (inl s)))))))) = omega (arith, at 8 s, h, k, p, q)
    by_weight (inr (inr (inr (inr (inr (inr (inr (inr (inl s))))))))) =
        omega (arith, at 9 s, h, k, p, q)
    by_weight (inr (inr (inr (inr (inr (inr (inr (inr (inr (s)))))))))) =
        omega (arith, at 10 s, h, k, p, q)

digit_ten-bounds : (i r x : ℕ) → digit_ten i r ≡ some x → x ≤ 10
unfolding digit_ten
digit_ten-bounds i r x h = ground arith

digit_ten-injective : (i c d x : ℕ) → digit_ten i c ≡ some x → digit_ten i d ≡ some x → c ≡ d
unfolding digit_ten
digit_ten-injective i c d x h k = ground arith

divides-inv : (m : ℕ) (o : Option ℕ) → divides m o ≡ true → (t : ℕ) × (o ≡ some t) × (t % m ≡ 0)
divides-inv m none h = absurd (ground arith)
divides-inv m (some t) h = (t, refl, ground arith)

valid_ten :
    (value : List ℕ)
    → valid_isbn value 10 ≡ true
    → (length value ≡ 10) × (divides 11 (checksum digit_ten weight_ten 0 0 value) ≡ true)
unfolding valid_isbn
valid_ten value h = ground arith

valid_thirteen :
    (value : List ℕ)
    → valid_isbn value 13 ≡ true
    → divides 10 (checksum (λ i r. digit_thirteen r) weight_thirteen 0 0 value) ≡ true
unfolding valid_isbn
valid_thirteen value h = ground arith

ten_error :
    (pre post : List ℕ) (c d : ℕ)
    → valid_isbn (pre ++ c ∷ post) 10 ≡ true
    → valid_isbn (pre ++ d ∷ post) 10 ≡ true
    → c ≡ d
ten_error pre post c d v w =
    let (n, a) = valid_ten (pre ++ c ∷ post) v in
    let (_, b) = valid_ten (pre ++ d ∷ post) w in
    let (t, p, h) = divides-inv 11 (checksum digit_ten weight_ten 0 0 (pre ++ c ∷ post)) a in
    let (u, q, k) = divides-inv 11 (checksum digit_ten weight_ten 0 0 (pre ++ d ∷ post)) b in
    let (j, x, y, at, e, f, g) = differ digit_ten weight_ten 0 0 t u c d pre post p q in
    let same =
      same_mod_eleven (weight_ten j) x y t u (omega (arith, at, n, length-append pre (c ∷ post)))
        (omega arith) (digit_ten-bounds j c x e) (digit_ten-bounds j d y f) g h k in
    digit_ten-injective j c d x e (subst (λ z. digit_ten j d ≡ some z) (sym same) f)

same_mod_ten :
    (r c d x y t u : ℕ)
    → digit_thirteen c ≡ some x
    → digit_thirteen d ≡ some y
    → t + (if r == 1 then 3 else 1) * y ≡ u + (if r == 1 then 3 else 1) * x
    → t % 10 ≡ 0
    → u % 10 ≡ 0
    → c ≡ d
same_mod_ten r c d x y t u e f g h k = elim (Bool-cases (r == 1)) [
  | inl o ↦ ground arith
  | inr o ↦ ground arith
]

thirteen_error :
    (pre post : List ℕ) (c d : ℕ)
    → valid_isbn (pre ++ c ∷ post) 13 ≡ true
    → valid_isbn (pre ++ d ∷ post) 13 ≡ true
    → c ≡ d
thirteen_error pre post c d v w =
    let a = valid_thirteen (pre ++ c ∷ post) v in
    let b = valid_thirteen (pre ++ d ∷ post) w in
    let (t, p, h) =
      divides-inv 10 (checksum (λ i r. digit_thirteen r) weight_thirteen 0 0 (pre ++ c ∷ post)) a in
    let (u, q, k) =
      divides-inv 10 (checksum (λ i r. digit_thirteen r) weight_thirteen 0 0 (pre ++ d ∷ post)) b in
    let (j, x, y, at, e, f, g) =
      differ (λ i r. digit_thirteen r) weight_thirteen 0 0 t u c d pre post p q in
    same_mod_ten (j % 2) c d x y t u e f g h k

-- Both checksums catch every mistyped character: of two texts that differ in one place only, at most
-- one is a valid ISBN-10, and at most one is a valid ISBN-13.
pub valid_isbn_single_error :
    (pre post : List ℕ) (c d : ℕ)
    → c ≢ d
    → (valid_isbn (pre ++ c ∷ post) 10 ≡ true → valid_isbn (pre ++ d ∷ post) 10 ≡ false)
      × (valid_isbn (pre ++ c ∷ post) 13 ≡ true → valid_isbn (pre ++ d ∷ post) 13 ≡ false)
valid_isbn_single_error pre post c d n = (
  (λ v. elim (Bool-cases (valid_isbn (pre ++ d ∷ post) 10)) [
    | inl w ↦ absurd (n (ten_error pre post c d v w))
    | inr w ↦ w
  ]),
  (λ v. elim (Bool-cases (valid_isbn (pre ++ d ∷ post) 13)) [
    | inl w ↦ absurd (n (thirteen_error pre post c d v w))
    | inr w ↦ w
  ]),
)
