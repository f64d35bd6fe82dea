-- ===== src/Prelude/Text.antt =====
-- Text as the list of its code points, with the functions of Go's package strings on ASCII text.
use Prim.Native.Char.{code}
use Prim.Native.String.{String}
use Prim.Native.Nat.{ℕ, ◌+◌}
use mathlib.Core.Path.{◌≡◌, refl}
use mathlib.Core.Bool.{Bool, true, false, ◌&&◌, ◌||◌, not}
use mathlib.Core.List.{List, [], ◌∷◌, ◌++◌, map, reverse, reverse-cons, reverse-reverse}
use native.Mathlib.Omega.{arith}
use holibrary_backend.Prelude.Tests.{leb, ◌==◌, if◌then◌else◌}

abbrev pub codes : String → List ℕ
codes String.[] = []
codes (String.◌∷◌ c s) = code c ∷ codes s

abbrev to_lower_code : ℕ → ℕ
to_lower_code c = if leb b'A' c && leb c b'Z' then c + 32 else c

unfoldable pub to_lower : List ℕ → List ℕ
to_lower = map to_lower_code

abbrev is_space : ℕ → Bool
is_space c = c == 32 || leb 9 c && leb c 13

unfoldable trim_left : List ℕ → List ℕ
trim_left [] = []
trim_left (c ∷ s) = if is_space c then trim_left s else c ∷ s

unfoldable pub trim_space : List ℕ → List ℕ
unfolding trim_left
trim_space s = reverse (trim_left (reverse (trim_left s)))

unfoldable pub text_eq : List ℕ → List ℕ → Bool
text_eq [] [] = true
text_eq (c ∷ s) (d ∷ t) = c == d && text_eq s t
text_eq _ _ = false

unfoldable pub has_prefix : List ℕ → List ℕ → Bool
has_prefix s [] = true
has_prefix [] (d ∷ t) = false
has_prefix (c ∷ s) (d ∷ t) = c == d && has_prefix s t

unfoldable pub has_suffix : List ℕ → List ℕ → Bool
unfolding has_prefix
has_suffix s t = has_prefix (reverse s) (reverse t)

pub text_eq_refl : (s : List ℕ) → text_eq s s ≡ true
unfolding text_eq
text_eq_refl [] = refl
text_eq_refl (c ∷ s) = ground (arith, text_eq_refl s)

pub eq-of-text_eq : (s t : List ℕ) → text_eq s t ≡ true → s ≡ t
unfolding text_eq
eq-of-text_eq [] [] h = refl
eq-of-text_eq [] (d ∷ t) h = cc
eq-of-text_eq (c ∷ s) [] h = cc
eq-of-text_eq (c ∷ s) (d ∷ t) h = ground (arith, eq-of-text_eq s t)

unfoldable pub no_space : List ℕ → Bool
no_space [] = true
no_space (c ∷ s) = not (is_space c) && no_space s

no_space-append : (s t : List ℕ) → no_space s ≡ true → no_space t ≡ true → no_space (s ++ t) ≡ true
unfolding no_space
no_space-append [] t h k = k
no_space-append (c ∷ s) t h k = ground (arith, no_space-append s t)

no_space-reverse : (s : List ℕ) → no_space s ≡ true → no_space (reverse s) ≡ true
no_space-reverse [] h = unfold no_space in refl
no_space-reverse (c ∷ s) h = rw (reverse-cons c s) (
    no_space-append (reverse s) (c ∷ []) (no_space-reverse s (unfold no_space in ground arith))
      (unfold no_space in ground arith))

trim_left-clear : (s : List ℕ) → no_space s ≡ true → trim_left s ≡ s
unfolding no_space trim_left
trim_left-clear [] h = refl
trim_left-clear (c ∷ s) h = ground arith

pub trim_space-clear : (s : List ℕ) → no_space s ≡ true → trim_space s ≡ s
unfolding trim_space
trim_space-clear s h =
    rw (trim_left-clear s h, trim_left-clear (reverse s) (no_space-reverse s h), reverse-reverse s)
