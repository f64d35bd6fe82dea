-- ===== src/Http/Paths.antt =====
-- What internal/transport/http/router.go uses of the multiplexer of net/http: the match of a pattern with
-- a method and a path, and the choice of the more specific pattern. A path is one that the multiplexer
-- has cleaned and unescaped. A table with two patterns of which neither is more specific does not start.
use holibrary_backend.Prelude.{
  ℕ, ◌==◌, Bool, true, false, ◌&&◌, not, List, [], ◌∷◌, if◌then◌else◌, codes, text_eq, has_prefix,
}

pub data Method : Type 0 where
  get head post patch delete options : Method

abbrev pub method_number : Method → ℕ
method_number get = 0
method_number head = 1
method_number post = 2
method_number patch = 3
method_number delete = 4
method_number options = 5

-- A pattern for GET serves HEAD as well.
unfoldable pub method_fits : Method → Method → Bool
method_fits get head = true
method_fits p m = method_number p == method_number m

abbrev pub extend : ℕ → List (List ℕ) → List (List ℕ)
extend c [] = (c ∷ []) ∷ []
extend c (w ∷ ws) = (c ∷ w) ∷ ws

-- strings.Split(path, "/")
unfoldable pub segments : List ℕ → List (List ℕ)
segments [] = [] ∷ []
segments (c ∷ s) = let rest = segments s in if c == b'/' then [] ∷ rest else extend c rest

abbrev pub is_end : List ℕ → Bool
is_end part = text_eq part (codes "{$}")

unfoldable pub is_wildcard : List ℕ → Bool
is_wildcard part = has_prefix part (codes "{") && not (is_end part)

unfoldable pub part_fits : List ℕ → List ℕ → Bool
unfolding is_wildcard
part_fits part w =
    if is_wildcard part
    then not (text_eq w [])
    else if is_end part
    then text_eq w []
    else text_eq part w

unfoldable pub path_fits : List (List ℕ) → List (List ℕ) → Bool
unfolding part_fits
path_fits [] [] = true
path_fits (part ∷ p) (w ∷ ws) = part_fits part w && path_fits p ws
path_fits _ _ = false

-- Of two patterns that match one path, whether the first has a literal where they first differ.
unfoldable pub is_more_specific : List (List ℕ) → List (List ℕ) → Bool
unfolding is_wildcard
is_more_specific (a ∷ p) (b ∷ q) =
    let rest = is_more_specific p q in
    if is_wildcard a
    then (if is_wildcard b then rest else false)
    else if is_wildcard b
    then true
    else rest
is_more_specific _ _ = true
