-- ===== src/Http/NetworkLaws.antt =====
-- The limit of one network, RateLimit of internal/transport/http/middleware/middleware.go, when the
-- service has been told to trust no proxy and the shared limiter cannot be reached.
use holibrary_backend.Prelude.{
  ℕ, ◌+◌, leb, ◌≡◌, refl, Bool, true, false, ◌&&◌, none, List, [], ◌∷◌, ◌++◌, if◌then◌else◌,
  find_where, text_eq, codes, arith,
}
use holibrary_backend.Accounts.RateLimit.{Memory, has_key, allow}
use holibrary_backend.Accounts.RateLimitLaws.{
  Event, attempt, admitted, attempts, at_most, all_by, is_live, window_limit,
}
use holibrary_backend.Http.Network.{
  Request, per_ip_auth, remote_host, client_ip, network_key, throttle,
}

-- The key of a connection, whatever its headers say.
abbrev pub connection_key : Request → List ℕ
unfolding remote_host
connection_key r = codes "rl:ip:" ++ remote_host r

-- How many requests of the connections with this key pass the throttle.
unfoldable pub let_through : List ℕ → List (Request × ℕ) → Memory → ℕ
unfolding throttle
let_through k [] ws = 0
let_through k ((r, t) ∷ rs) ws =
    let (b, ws') = throttle none false r t ws in
    (if b && text_eq (connection_key r) k then 1 else 0) + let_through k rs ws'

unfoldable pub made_by : List ℕ → List (Request × ℕ) → ℕ
made_by k [] = 0
made_by k ((r, t) ∷ rs) = (if text_eq (connection_key r) k then 1 else 0) + made_by k rs

unfoldable pub made_before : ℕ → List (Request × ℕ) → Bool
made_before t [] = true
made_before t ((r, u) ∷ rs) = leb u t && made_before t rs

unfoldable as_attempts : List (Request × ℕ) → List Event
as_attempts [] = []
as_attempts ((r, t) ∷ rs) = attempt (connection_key r) t ∷ as_attempts rs

let_through-admitted :
    (k : List ℕ) (rs : List (Request × ℕ)) (ws : Memory)
    → let_through k rs ws ≡ admitted k per_ip_auth.limit per_ip_auth.window (as_attempts rs) ws
unfolding let_through admitted as_attempts throttle network_key client_ip
let_through-admitted k [] ws = refl
let_through-admitted k ((r, t) ∷ rs) ws = ground (
  arith,
  let_through-admitted k rs (allow (connection_key r) per_ip_auth.limit per_ip_auth.window t ws).1,
)

made_by-attempts :
    (k : List ℕ) (rs : List (Request × ℕ)) → made_by k rs ≡ attempts k (as_attempts rs)
unfolding made_by attempts as_attempts
made_by-attempts k [] = refl
made_by-attempts k ((r, t) ∷ rs) = ground (arith, made_by-attempts k rs)

made_before-all_by :
    (t : ℕ) (rs : List (Request × ℕ)) → made_before t rs ≡ true → all_by t (as_attempts rs) ≡ true
unfolding made_before all_by as_attempts
made_before-all_by t [] h = refl
made_before-all_by t ((r, u) ∷ rs) h = ground (arith, made_before-all_by t rs)

-- Within one window the throttle of the routes for signing in lets through as many requests of one remote address as
-- the limit says and no more, whatever CF-Connecting-IP and X-Forwarded-For headers the requests have,
-- counting from a request made when no window is live for the address to the end of the window it opens,
-- when proxy headers are not trusted and the shared limiter fails.
pub network_limit :
    (r : Request) (t : ℕ) (rs : List (Request × ℕ)) (ws : Memory)
    → is_live t (find_where (has_key (connection_key r)) ws) ≡ false
    → made_before (t + per_ip_auth.window) rs ≡ true
    → let_through (connection_key r) ((r, t) ∷ rs) ws
      ≡ at_most per_ip_auth.limit (made_by (connection_key r) ((r, t) ∷ rs))
unfolding as_attempts
network_limit r t rs ws n b =
    let bound =
      window_limit (connection_key r) per_ip_auth.limit per_ip_auth.window t (as_attempts rs) ws n
        (made_before-all_by (t + per_ip_auth.window) rs b) in
    rw
      (
        let_through-admitted (connection_key r) ((r, t) ∷ rs) ws,
        made_by-attempts (connection_key r) ((r, t) ∷ rs),
      )
      bound
