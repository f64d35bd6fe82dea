-- ===== src/Http/Network.antt =====
-- RateLimit and clientIP of internal/transport/http/middleware/middleware.go, with net.SplitHostPort. A
-- header that is absent is the empty text. The answer of the shared limiter is an argument, none for a
-- failure; the routes that throttle share one in-process counter.
use holibrary_backend.Prelude.{
  ℕ, ◌*◌, ◌==◌, Bool, ◌&&◌, ◌||◌, not, Option, none, some, List, [], ◌∷◌, ◌++◌, if◌then◌else◌,
  codes, trim_space, is_some,
}
use holibrary_backend.Domain.{second}
use holibrary_backend.Accounts.RateLimit.{Memory, Policy, allow}
use holibrary_backend.Http.Paths.{Method}

pub record Request : Type 0 where
  pub method : Method
  pub path : List ℕ
  pub authorization : List ℕ
  pub cf_connecting_ip : List ℕ
  pub x_forwarded_for : List ℕ
  pub remote_addr : List ℕ

abbrev pub per_ip_auth : Policy
per_ip_auth = record { limit = 120; window = 60 * second }

abbrev before : ℕ → Option (List ℕ × List ℕ) → Option (List ℕ × List ℕ)
before c none = none
before c (some (l, r)) = some (c ∷ l, r)

-- strings.Cut at one code point, none where it does not occur.
unfoldable pub cut : ℕ → List ℕ → Option (List ℕ × List ℕ)
cut d [] = none
cut d (c ∷ s) = let rest = cut d s in if c == d then some ([], s) else before c rest

abbrev has_code : ℕ → List ℕ → Bool
has_code c s = is_some (cut c s)

-- The host of a text that begins with a bracket, given what follows the bracket.
unfoldable bracketed : List ℕ → Option (List ℕ)
unfolding cut
bracketed s = elim (cut b']' s) [
  | none ↦ none
  | some (host, []) ↦ none
  | some (host, c ∷ port) ↦
      if c == b':' && not (has_code b':' port) && not (has_code b'[' s) && not (has_code b']' port)
      then some host
      else none
]

unfoldable unbracketed : List ℕ → Option (List ℕ)
unfolding cut
unbracketed s = elim (cut b':' s) [
  | none ↦ none
  | some (host, port) ↦
      if has_code b':' port || has_code b'[' s || has_code b']' s then none else some host
]

-- The host that net.SplitHostPort returns, none for its error.
unfoldable pub split_host : List ℕ → Option (List ℕ)
unfolding bracketed unbracketed
split_host [] = none
split_host (c ∷ s) = if c == b'[' then bracketed s else unbracketed (c ∷ s)

unfoldable pub remote_host : Request → List ℕ
unfolding split_host
remote_host r = elim (split_host r.remote_addr) [ none ↦ r.remote_addr | some host ↦ host ]

unfoldable pub first_forwarded : List ℕ → List ℕ
unfolding cut
first_forwarded s = elim (cut b',' s) [
  | none ↦ trim_space s
  | some (first, rest) ↦ trim_space first
]

unfoldable pub client_ip : Bool → Request → List ℕ
unfolding remote_host first_forwarded
client_ip trust r = if not trust then remote_host r else elim r.cf_connecting_ip [
  | c ∷ s ↦ c ∷ s
  | [] ↦ elim r.x_forwarded_for [ [] ↦ remote_host r | c ∷ s ↦ first_forwarded (c ∷ s) ]
]

unfoldable pub network_key : Bool → Request → List ℕ
unfolding client_ip
network_key trust r = codes "rl:ip:" ++ client_ip trust r

-- RateLimit
unfoldable pub throttle : Option Bool → Bool → Request → ℕ → Memory → Bool × Memory
throttle (some b) trust r now ws = (b, ws)
throttle none trust r now ws =
    allow (network_key trust r) per_ip_auth.limit per_ip_auth.window now ws
