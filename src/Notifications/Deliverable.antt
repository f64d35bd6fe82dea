-- ===== src/Notifications/Deliverable.antt =====
-- IsDeliverable of internal/notify/deliverable.go, over the code points of an address.
use holibrary_backend.Prelude.{
  ℕ, ◌==◌, Bool, false, ◌&&◌, ◌||◌, not, Option, none, some, List, [], ◌∷◌, if◌then◌else◌, codes,
  to_lower, trim_space, text_eq, has_suffix,
}

abbrev reserved_tlds : List (List ℕ)
reserved_tlds = codes ".invalid" ∷ codes ".test" ∷ codes ".example" ∷ codes ".localhost" ∷ []

abbrev reserved_domains : List (List ℕ)
reserved_domains = codes "example.com" ∷ codes "example.net" ∷ codes "example.org" ∷ []

-- What stands behind the last '@', and whether something stands before it.
unfoldable after_at : List ℕ → Option (List ℕ)
after_at [] = none
after_at (c ∷ s) = elim (after_at s) [ some d ↦ some d | none ↦ if c == b'@' then some s else none ]

-- addr[at+1:] where at ≥ 1 and at < len(addr)-1.
abbrev non_empty : Option (List ℕ) → Option (List ℕ)
non_empty none = none
non_empty (some []) = none
non_empty (some (c ∷ s)) = some (c ∷ s)

unfoldable domain_of : List ℕ → Option (List ℕ)
unfolding after_at
domain_of [] = none
domain_of (c ∷ s) = non_empty (after_at s)

abbrev drop_dot : List ℕ → List ℕ
drop_dot [] = []
drop_dot (c ∷ s) = if c == b'.' then s else c ∷ s

unfoldable under_tld : List ℕ → List (List ℕ) → Bool
under_tld domain [] = false
under_tld domain (tld ∷ tlds) =
    text_eq domain (drop_dot tld) || has_suffix domain tld || under_tld domain tlds

unfoldable under_domain : List ℕ → List (List ℕ) → Bool
under_domain domain [] = false
under_domain domain (d ∷ ds) =
    text_eq domain d || has_suffix domain (b'.' ∷ d) || under_domain domain ds

unfoldable pub is_deliverable : List ℕ → Bool
unfolding domain_of under_tld under_domain
is_deliverable address = elim (domain_of (to_lower (trim_space address))) [
  | none ↦ false
  | some domain ↦ not (under_tld domain reserved_tlds) && not (under_domain domain reserved_domains)
]
