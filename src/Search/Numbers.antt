-- ===== src/Search/Numbers.antt =====
-- What internal/service/catalogue_query.go uses of strconv and unicode. Every number that it reads has to
-- be at least 1, so a sign of minus and a failure come to the same, and a text past the range of int is
-- past the bounds that the code tests next.
use holibrary_backend.Prelude.{
  ℕ, zero, suc, ◌+◌, ◌-◌, ◌*◌, ◌/◌, ◌%◌, leb, ltb, ◌==◌, Bool, ◌&&◌, ◌||◌, Option, none, some, List,
  [], ◌∷◌, if◌then◌else◌,
}

abbrev pub is_digit_code : ℕ → Bool
is_digit_code c = leb b'0' c && leb c b'9'

-- The digits of a number, most significant first.
unfoldable pub read_digits : List ℕ → ℕ → Option ℕ
read_digits [] n = some n
read_digits (c ∷ s) n = if is_digit_code c then read_digits s (n * 10 + (c - b'0')) else none

unfoldable pub unsigned : List ℕ → Option ℕ
unfolding read_digits
unsigned [] = none
unsigned (c ∷ s) = read_digits (c ∷ s) 0

-- strconv.Atoi, with `none` for an error and for a number below 0.
unfoldable pub atoi : List ℕ → Option ℕ
unfolding unsigned
atoi [] = none
atoi (c ∷ s) = if c == b'+' then unsigned s else unsigned (c ∷ s)

-- strconv.Itoa on a number of at least 0; a number has no more digits than the fuel, itself.
unfoldable pub emit : ℕ → ℕ → List ℕ → List ℕ
emit zero n out = (b'0' + n % 10) ∷ out
emit (suc fuel) n out =
    let rest = emit fuel (n / 10) ((b'0' + n % 10) ∷ out) in
    if ltb n 10 then (b'0' + n) ∷ out else rest

unfoldable pub itoa : ℕ → List ℕ
itoa n = emit n n []

-- unicode.IsControl
abbrev pub is_control : ℕ → Bool
is_control c = leb c 31 || leb 127 c && leb c 159

-- strings.ToUpper, on ASCII
abbrev upper_code : ℕ → ℕ
upper_code c = if leb b'a' c && leb c b'z' then c - 32 else c

unfoldable pub to_upper : List ℕ → List ℕ
to_upper [] = []
to_upper (c ∷ s) = upper_code c ∷ to_upper s
