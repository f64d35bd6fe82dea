-- ===== src/Search/NumberLaws.antt =====
-- strconv.Itoa and strconv.Atoi, as internal/service/catalogue_query.go uses them: the number that is
-- written is the number that is read.
use holibrary_backend.Prelude.{
  ℕ, zero, suc, ◌+◌, ◌*◌, ◌/◌, ◌%◌, ◌≤◌, ◌<◌, ltb, ◌==◌, ◌≡◌, refl, ap, ◌∙◌, Bool, true, false,
  some, List, [], ◌∷◌, no_space, length, Bool-cases, inl, inr, arith,
}
use holibrary_backend.Search.Numbers.{read_digits, atoi, emit, itoa, is_digit_code, unsigned}

read_digit :
    (d m : ℕ) (s : List ℕ) (n : ℕ)
    → d < 10
    → n * 10 + d ≡ m
    → read_digits ((b'0' + d) ∷ s) n ≡ read_digits s m
unfolding read_digits
read_digit d m s n h e = ground (arith, ap (λ k. read_digits s k) e)

-- Reading what is written goes on with the number.
read-emit :
    (fuel n : ℕ) (out : List ℕ) → n ≤ fuel → read_digits (emit fuel n out) 0 ≡ read_digits out n
unfolding emit
read-emit zero n out h = read_digit (n % 10) n out 0 (omega arith) (omega arith)
read-emit (suc fuel) n out h = elim (Bool-cases (ltb n 10)) [
  | inl t ↦ rw t (read_digit n n out 0 (ground arith) (omega arith))
  | inr f ↦ rw f (
      read-emit fuel (n / 10) ((b'0' + n % 10) ∷ out) (ground arith)
      ∙ read_digit (n % 10) n out (n / 10) (omega arith) (omega arith))
]

starts_with_digit : List ℕ → Bool
starts_with_digit [] = false
starts_with_digit (c ∷ s) = is_digit_code c

emit-digit : (fuel n : ℕ) (out : List ℕ) → starts_with_digit (emit fuel n out) ≡ true
unfolding emit starts_with_digit
emit-digit zero n out = ground arith
emit-digit (suc fuel) n out = ground (arith, emit-digit fuel (n / 10) ((b'0' + n % 10) ∷ out))

atoi-digits : (s : List ℕ) → starts_with_digit s ≡ true → atoi s ≡ read_digits s 0
unfolding starts_with_digit atoi unsigned
atoi-digits [] h = absurd (ground arith)
atoi-digits (c ∷ s) h = ground arith

nonempty : (s : List ℕ) → starts_with_digit s ≡ true → (length s == 0) ≡ false
unfolding starts_with_digit
nonempty [] h = absurd (ground arith)
nonempty (c ∷ s) h = ground arith

pub atoi-itoa : (n : ℕ) → atoi (itoa n) ≡ some n
unfolding itoa
atoi-itoa n =
    atoi-digits (emit n n []) (emit-digit n n [])
    ∙ read-emit n n [] (omega arith)
    ∙ (unfold read_digits in refl)

emit-no_space :
    (fuel n : ℕ) (out : List ℕ) → no_space out ≡ true → no_space (emit fuel n out) ≡ true
unfolding emit no_space
emit-no_space zero n out h = ground arith
emit-no_space (suc fuel) n out h =
    ground (arith, emit-no_space fuel (n / 10) ((b'0' + n % 10) ∷ out))

pub itoa-no_space : (n : ℕ) → no_space (itoa n) ≡ true
unfolding itoa
itoa-no_space n = emit-no_space n n [] (unfold no_space in refl)

pub itoa-length : (n : ℕ) → (length (itoa n) == 0) ≡ false
unfolding itoa starts_with_digit
itoa-length n = nonempty (emit n n []) (emit-digit n n [])
