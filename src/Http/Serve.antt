-- ===== src/Http/Serve.antt =====
-- How a request reaches a handler: NewRouter of internal/transport/http/router.go with CORS, RateLimit,
-- Authenticate and the role tests of internal/transport/http/middleware/middleware.go. The reading of
-- an access token, signature and expiry included, is a parameter; every token has the time of its issue.
use holibrary_backend.Prelude.{
  ℕ, ◌==◌, Bool, ◌||◌, Option, none, some, List, [], ◌∷◌, Result, ok, err, if◌then◌else◌, codes,
  text_eq, has_prefix, drop, to_lower,
}
use mathlib.Core.List.{reverse}
use holibrary_backend.Domain.{Error, Role, unauthenticated, token_invalid, rate_limited}
use holibrary_backend.Db.{Db}
use holibrary_backend.Accounts.RateLimit.{Memory}
use holibrary_backend.Accounts.Sessions.{Claims, authenticate}
use holibrary_backend.Accounts.Roles.{require_librarian, require_member, require_admin}
use holibrary_backend.Http.Paths.{options, method_number, segments}
use holibrary_backend.Http.Network.{Request, throttle}
use holibrary_backend.Http.Routes.{
  Handler, Gate, open_to_all, throttled, signed_in, member_only, staff, admin_only, routes,
  find_route, serves_path,
}

pub record Options : Type 0 where
  pub parse_access_token : List ℕ → Option Claims
  pub trust_proxy_headers : Bool
  pub has_webhook : Bool

unfoldable pub drop_slashes : List ℕ → List ℕ
drop_slashes [] = []
drop_slashes (c ∷ s) = if c == b'/' then drop_slashes s else c ∷ s

-- isPasswordChangeRoute
unfoldable pub is_password_change_route : List ℕ → Bool
unfolding drop_slashes
is_password_change_route path =
    let p = to_lower (reverse (drop_slashes (reverse path))) in
    text_eq p (codes "/api/v1/auth/change-password") || text_eq p (codes "/api/v1/auth/logout")

-- strings.CutPrefix(header, "Bearer ")
unfoldable pub bearer : List ℕ → Option (List ℕ)
bearer header = if has_prefix header (codes "Bearer ") then some (drop 7 header) else none

unfoldable pub check_claims : List ℕ → Db → Option Claims → Result Error Claims
check_claims path db none = err token_invalid
check_claims path db (some claims) = authenticate claims (is_password_change_route path) db

unfoldable pub read_token : Options → List ℕ → Db → Option (List ℕ) → Result Error Claims
unfolding check_claims
read_token o path db none = err unauthenticated
read_token o path db (some []) = err unauthenticated
read_token o path db (some (c ∷ token)) = check_claims path db (o.parse_access_token (c ∷ token))

-- Authenticate
unfoldable pub identify : Options → Request → Db → Result Error Claims
unfolding bearer read_token
identify o r db = read_token o r.path db (bearer r.authorization)

-- What becomes of a request: a preflight is answered by CORS, the multiplexer knows no such path or not
-- with this method, a middleware refuses, or the handler is called with the caller's claims, if any.
pub data Reply : Type 0 where
  preflight unknown_path wrong_method : Reply
  refused : Error → Reply
  handled : Handler → Option Claims → Reply

unfoldable pub admit_role : (Role → Result Error (Unit {0})) → Handler → Claims → Reply
admit_role require h c = elim (require c.role) [ err e ↦ refused e | ok _ ↦ handled h (some c) ]

abbrev pub require_anyone : Role → Result Error (Unit {0})
require_anyone r = ok tt

-- Authenticate with a role test behind it.
unfoldable pub behind_authenticate :
    (Role → Result Error (Unit {0})) → Handler → Result Error Claims → Reply
unfolding admit_role
behind_authenticate require h (err e) = refused e
behind_authenticate require h (ok c) = admit_role require h c

-- The middleware around a handler; `caller` is what `identify` finds and `pass` what the throttle says.
unfoldable pub enter :
    Gate → Handler → Result Error Claims → Bool × Memory → Memory → Reply × Memory
unfolding behind_authenticate require_librarian require_member require_admin
enter open_to_all h caller pass ws = (handled h none, ws)
enter throttled h caller (b, ws') ws = (if b then handled h none else refused rate_limited, ws')
enter signed_in h caller pass ws = (behind_authenticate require_anyone h caller, ws)
enter member_only h caller pass ws = (behind_authenticate require_member h caller, ws)
enter staff h caller pass ws = (behind_authenticate require_librarian h caller, ws)
enter admin_only h caller pass ws = (behind_authenticate require_admin h caller, ws)

-- The multiplexer and the routes behind it.
unfoldable pub dispatch : Options → Option Bool → Request → ℕ → Memory → Db → Reply × Memory
unfolding identify throttle enter find_route serves_path
dispatch o limiter r now ws db =
    let p = segments r.path in
    elim (find_route r.method p (routes o.has_webhook)) [
      | none ↦ (if serves_path p (routes o.has_webhook) then wrong_method else unknown_path, ws)
      | some e ↦
          enter e.gate e.handler (identify o r db) (throttle limiter o.trust_proxy_headers r now ws)
            ws
    ]

-- CORS answers every preflight itself.
unfoldable pub serve : Options → Option Bool → Request → ℕ → Memory → Db → Reply × Memory
unfolding dispatch
serve o limiter r now ws db =
    if method_number r.method == method_number options
    then (preflight, ws)
    else dispatch o limiter r now ws db
