-- ===== src/Witnesses/HttpRuns.antt =====
-- Requests to the small library: routes, gates, preflights, and one network under its limit.
use Prim.Native.String.{String}
use holibrary_backend.Prelude.{
  ℕ, ◌+◌, ◌≡◌, refl, ◌⊎◌, Bool, true, false, none, some, Option, List, [], ◌∷◌, find_where, codes,
  trim_space, to_lower, text_eq, has_prefix, if◌then◌else◌,
}
use holibrary_backend.Domain.{
  member, librarian, can_manage_library, forbidden, unauthenticated, token_invalid,
  must_change_password,
}
use holibrary_backend.Accounts.RateLimitLaws.{at_most}
use holibrary_backend.Accounts.Sessions.{Claims, authenticate}
use holibrary_backend.Accounts.Tokens.{session_valid}
use holibrary_backend.Http.Paths.{Method, get, head, post, patch, options, method_fits, path_fits}
use holibrary_backend.Http.Network.{Request, client_ip, split_host, per_ip_auth}
use holibrary_backend.Http.NetworkLaws.{
  connection_key, let_through, made_by, made_before, network_limit,
}
use holibrary_backend.Http.Routes.{
  catalogue_get, members_import_csv, auth_logout, auth_change_password, routes,
}
use holibrary_backend.Http.Serve.{
  Options, Reply, preflight, unknown_path, wrong_method, refused, handled, serve,
  is_password_change_route,
}
use holibrary_backend.Http.Audience.{audience}
use holibrary_backend.Http.AccessLaws.{IsAdmitted, serve-audience}
use holibrary_backend.Http.PendingLaws.{serve-pending}
use holibrary_backend.Witnesses.Fixtures.{library}

-- The token "m" is a member's, "n" the same with a pending password, "s" a librarian's.
abbrev member_claims : Bool → Claims
member_claims p = record { user_id = 7; role = member; pending = p; issued_at = 5 }

abbrev librarian_claims : Claims
librarian_claims = record { user_id = 9; role = librarian; pending = false; issued_at = 5 }

unfoldable tokens : List ℕ → Option Claims
tokens t =
    if text_eq t (codes "m")
    then some (member_claims false)
    else if text_eq t (codes "n")
    then some (member_claims true)
    else if text_eq t (codes "s")
    then some librarian_claims
    else none

abbrev setting : Options
setting = record { parse_access_token = tokens; trust_proxy_headers = false; has_webhook = true }

abbrev ask : Method → String → String → Request
ask m p a = record {
  method = m;
  path = codes p;
  authorization = codes a;
  cf_connecting_ip = [];
  x_forwarded_for = codes "9.9.9.9";
  remote_addr = codes "[::1]:8080";
}

unfoldable reply_to : Request → Reply
unfolding serve
reply_to r = (serve setting none r 10 [] library).0

unfoldable import_reply : String → Reply
unfolding reply_to
import_reply a = reply_to (ask post "/api/v1/members/import" a)

staff_only :
    (import_reply "" ≡ refused unauthenticated)
    × (import_reply "Bearer x" ≡ refused token_invalid)
    × (import_reply "Bearer m" ≡ refused forbidden)
    × (import_reply "Bearer n" ≡ refused must_change_password)
unfolding import_reply tokens authenticate session_valid find_where routes method_fits path_fits
    has_prefix text_eq can_manage_library is_password_change_route to_lower
staff_only = (refl, refl, refl, refl)

-- The way out of a pending password is open with a trailing slash or capitals, but there is no route.
pending_routes :
    (reply_to (ask post "/api/v1/auth/logout" "Bearer n")
      ≡ handled auth_logout (some (member_claims true)))
    × (reply_to (ask post "/api/v1/auth/LOGOUT/" "Bearer n") ≡ unknown_path)
unfolding reply_to tokens authenticate session_valid find_where routes method_fits path_fits
    has_prefix text_eq is_password_change_route to_lower
pending_routes = (refl, refl)

unauthenticated_replies :
    (reply_to (ask head "/api/v1/books/17" "") ≡ handled catalogue_get none)
    × (reply_to (ask get "/api/v1/books/" "") ≡ unknown_path)
    × (reply_to (ask patch "/api/v1/books" "") ≡ wrong_method)
    × (reply_to (ask options "/api/v1/loans" "") ≡ preflight)
unfolding reply_to routes method_fits path_fits has_prefix text_eq
unauthenticated_replies = (refl, refl, refl, refl)

hosts :
    (split_host (codes "10.0.0.7:443") ≡ some (codes "10.0.0.7"))
    × (split_host (codes "::1") ≡ none)
    × (client_ip true (ask get "/" "") ≡ codes "9.9.9.9")
    × (client_ip false (ask get "/" "") ≡ codes "::1")
unfolding split_host client_ip trim_space
hosts = (refl, refl, refl, refl)

abbrev import_request : Request
import_request = ask post "/api/v1/members/import" "Bearer s"

librarian_reply :
    (serve setting none import_request 10 [] library).0
    ≡ handled members_import_csv (some librarian_claims)
unfolding serve tokens authenticate session_valid find_where routes method_fits path_fits has_prefix
    text_eq can_manage_library
librarian_reply = refl

serve-audience_example : IsAdmitted (audience members_import_csv) (some librarian_claims) library
serve-audience_example =
    serve-audience setting none import_request 10 [] library members_import_csv
      (some librarian_claims) librarian_reply

abbrev logout_request : Request
logout_request = ask post "/api/v1/auth/logout" "Bearer n"

logout_reply :
    (serve setting none logout_request 10 [] library).0
    ≡ handled auth_logout (some (member_claims true))
unfolding serve tokens authenticate session_valid find_where routes method_fits path_fits has_prefix
    text_eq is_password_change_route to_lower
logout_reply = refl

serve-pending_example : (auth_logout ≡ auth_logout) ⊎ (auth_logout ≡ auth_change_password)
serve-pending_example =
    serve-pending setting none logout_request 10 [] library auth_logout (member_claims true)
      logout_reply refl

-- The same connection with and without a forged header, and another one.
abbrev visitor : List ℕ → Request
visitor forged = record (ask post "/api/v1/auth/login" "") { cf_connecting_ip = forged }

abbrev other_visitor : Request
other_visitor = record (visitor []) { remote_addr = codes "10.0.0.7:443" }

abbrev later_requests : List (Request × ℕ)
later_requests = (visitor (codes "1.2.3.4"), 20) ∷ (other_visitor, 30) ∷ []

later_requests_early : made_before (10 + per_ip_auth.window) later_requests ≡ true
unfolding made_before
later_requests_early = refl

network_limit_example :
    let_through (connection_key (visitor [])) ((visitor [], 10) ∷ later_requests) []
    ≡ at_most per_ip_auth.limit
        (made_by (connection_key (visitor [])) ((visitor [], 10) ∷ later_requests))
network_limit_example =
    network_limit (visitor []) 10 later_requests [] (unfold find_where in refl) later_requests_early
