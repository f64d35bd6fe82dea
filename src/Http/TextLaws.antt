-- ===== src/Http/TextLaws.antt =====
-- Case and trailing slashes of a path, against the patterns of internal/transport/http/router.go: what
-- isPasswordChangeRoute of internal/transport/http/middleware/middleware.go overlooks.
use mathlib.Core.Path.{subst}
use holibrary_backend.Prelude.{
  ℕ, ◌+◌, leb, ◌==◌, ◌≡◌, refl, sym, ap, ◌∙◌, inl, inr, Bool, true, false, ◌&&◌, ◌||◌, List, [],
  ◌∷◌, ◌++◌, map, if◌then◌else◌, codes, text_eq, text_eq_refl, eq-of-text_eq, has_prefix, to_lower,
  Bool-cases, arith,
}
use holibrary_backend.Http.Paths.{segments, extend, is_end, is_wildcard, part_fits, path_fits}

wildcard-lower :
    (part : List ℕ) → has_prefix (to_lower part) (codes "{") ≡ has_prefix part (codes "{")
unfolding has_prefix to_lower
wildcard-lower [] = refl
wildcard-lower (c ∷ s) = ground arith

end-lower : (part : List ℕ) → is_end (to_lower part) ≡ is_end part
unfolding text_eq to_lower
end-lower [] = refl
end-lower (a ∷ []) = ground arith
end-lower (a ∷ b ∷ []) = ground arith
end-lower (a ∷ b ∷ c ∷ []) = ground arith
end-lower (a ∷ b ∷ c ∷ d ∷ s) = ground arith

empty-lower : (w : List ℕ) → text_eq (to_lower w) [] ≡ text_eq w []
unfolding text_eq to_lower
empty-lower [] = refl
empty-lower (c ∷ s) = refl

text-lower : (s t : List ℕ) → text_eq s t ≡ true → text_eq (to_lower s) (to_lower t) ≡ true
text-lower s t h =
    subst (λ u. text_eq (to_lower s) (to_lower u) ≡ true) (eq-of-text_eq s t h)
      (text_eq_refl (to_lower s))

part-lower :
    (part w : List ℕ) → part_fits part w ≡ true → part_fits (to_lower part) (to_lower w) ≡ true
unfolding part_fits is_wildcard
part-lower part w h =
    ground (arith, wildcard-lower part, end-lower part, empty-lower w, text-lower part w)

-- A path that fits a pattern fits it in lower case.
pub path-lower :
    (p ws : List (List ℕ))
    → path_fits p ws ≡ true
    → path_fits (map to_lower p) (map to_lower ws) ≡ true
unfolding path_fits
path-lower [] [] h = refl
path-lower [] (w ∷ ws) h = cc
path-lower (part ∷ p) [] h = cc
path-lower (part ∷ p) (w ∷ ws) h = ground (arith, part-lower part w, path-lower p ws)

abbrev low : ℕ → ℕ
low c = if leb b'A' c && leb c b'Z' then c + 32 else c

low_slash : (c : ℕ) → low c == b'/' ≡ (c == b'/')
low_slash c = ground arith

extend-lower :
    (c : ℕ) (ws : List (List ℕ)) → map to_lower (extend c ws) ≡ extend (low c) (map to_lower ws)
unfolding to_lower
extend-lower c [] = refl
extend-lower c (w ∷ ws) = refl

pub segments-lower : (s : List ℕ) → segments (to_lower s) ≡ map to_lower (segments s)
unfolding segments to_lower
segments-lower [] = refl
segments-lower (c ∷ s) = elim (Bool-cases (c == b'/')) [
  | inl t ↦
      let u : low c == b'/' ≡ true = low_slash c ∙ t in
      rw t (rw u (ap (λ (ws : List (List ℕ)). [] ∷ ws) (segments-lower s)))
  | inr f ↦
      let u : low c == b'/' ≡ false = low_slash c ∙ f in
      rw f (rw u (ap (extend (low c)) (segments-lower s) ∙ sym (extend-lower c (segments s))))
]

-- A pattern whose last part is empty or the mark for the end.
unfoldable pub ends_open : List (List ℕ) → Bool
ends_open [] = false
ends_open (part ∷ []) = text_eq part [] || is_end part
ends_open (part ∷ q ∷ p) = ends_open (q ∷ p)

empty_part : (part : List ℕ) → part_fits part [] ≡ true → (text_eq part [] || is_end part) ≡ true
unfolding part_fits is_wildcard text_eq
empty_part [] h = refl
empty_part (c ∷ s) h = ground arith

-- A path that ends with a slash fits such a pattern only.
pub slash_fits : (p ws : List (List ℕ)) → path_fits p (ws ++ ([] ∷ [])) ≡ true → ends_open p ≡ true
unfolding path_fits ends_open
slash_fits [] [] h = cc
slash_fits [] (w ∷ ws) h = cc
slash_fits (part ∷ []) [] h = ground (arith, empty_part part)
slash_fits (part ∷ q ∷ p) [] h = ground arith
slash_fits (part ∷ []) (w ∷ []) h = ground arith
slash_fits (part ∷ []) (w ∷ v ∷ ws) h = ground arith
slash_fits (part ∷ q ∷ p) (w ∷ ws) h = ground (arith, slash_fits (q ∷ p) ws)

cons_segments : (s : List ℕ) → (w : List ℕ) × (ws : List (List ℕ)) × (segments s ≡ w ∷ ws)
unfolding segments
cons_segments [] = ([], [], refl)
cons_segments (c ∷ s) =
    let (w, ws, e) = cons_segments s in
    elim (Bool-cases (c == b'/')) [
      | inl t ↦ ([], segments s, ground arith)
      | inr f ↦ (c ∷ w, ws, ground arith)
    ]

extend_slash :
    (c : ℕ) (s : List ℕ) → extend c (segments s ++ ([] ∷ [])) ≡ extend c (segments s) ++ ([] ∷ [])
extend_slash c s = let (w, ws, e) = cons_segments s in rw e refl

pub segments_slash : (s : List ℕ) → segments (s ++ (b'/' ∷ [])) ≡ segments s ++ ([] ∷ [])
unfolding segments
segments_slash [] = refl
segments_slash (c ∷ s) = elim (Bool-cases (c == b'/')) [
  | inl t ↦ rw t (ap (λ (ws : List (List ℕ)). [] ∷ ws) (segments_slash s))
  | inr f ↦ rw f (ap (extend c) (segments_slash s) ∙ extend_slash c s)
]
