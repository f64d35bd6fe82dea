-- ===== src/Http/PendingLaws.antt =====
-- What an access token of an account with a pending password opens: isPasswordChangeRoute of
-- internal/transport/http/middleware/middleware.go against the table of
-- internal/transport/http/router.go.
use mathlib.Core.List.{reverse, reverse-cons, reverse-reverse}
use mathlib.Core.Path.{subst}
use holibrary_backend.Prelude.{
  ℕ, ◌==◌, ◌≡◌, refl, sym, ap, ◌∙◌, ◌⊎◌, inl, inr, Bool, true, false, ◌&&◌, ◌||◌, not, Option, none,
  some, List, [], ◌∷◌, ◌++◌, map, Result, ok, Option-cases, Bool-cases, codes, text_eq,
  eq-of-text_eq, has_prefix, to_lower, arith,
}
use holibrary_backend.Domain.{Error}
use holibrary_backend.Db.{Db}
use holibrary_backend.Accounts.RateLimit.{Memory}
use holibrary_backend.Accounts.Sessions.{Claims}
use holibrary_backend.Accounts.LoginLaws.{authenticate_rules}
use holibrary_backend.Accounts.Roles.{require_librarian, require_member, require_admin}
use holibrary_backend.Http.Paths.{Method, segments, path_fits}
use holibrary_backend.Http.Network.{Request, throttle}
use holibrary_backend.Http.Routes.{
  Handler, Gate, Route, open_to_all, throttled, signed_in, member_only, staff, admin_only, routes,
  find_route, auth_logout, auth_change_password,
}
use holibrary_backend.Http.Audience.{kept_to, rank}
use holibrary_backend.Http.Serve.{
  Options, drop_slashes, is_password_change_route, bearer, check_claims, read_token, identify,
  handled, enter, require_anyone, dispatch, serve,
}
use holibrary_backend.Http.AccessLaws.{behind_authenticate-handled}
use holibrary_backend.Http.TextLaws.{
  path-lower, segments-lower, ends_open, slash_fits, segments_slash,
}

drop_slashes-cases : (r : List ℕ) → (drop_slashes r ≡ r) ⊎ ((t : List ℕ) × (r ≡ b'/' ∷ t))
unfolding drop_slashes
drop_slashes-cases [] = inl refl
drop_slashes-cases (c ∷ t) = elim (Bool-cases (c == b'/')) [
  | inl e ↦ inr (t, ap (λ x. x ∷ t) (ground arith))
  | inr f ↦ inl (rw f refl)
]

-- A path that Go trims has a slash at its end.
trim_cases :
    (path : List ℕ)
    → (reverse (drop_slashes (reverse path)) ≡ path) ⊎ ((s : List ℕ) × (path ≡ s ++ (b'/' ∷ [])))
trim_cases path = elim (drop_slashes-cases (reverse path)) [
  | inl e ↦ inl (ap reverse e ∙ reverse-reverse path)
  | inr (t, e) ↦ inr (reverse t, sym (reverse-reverse path) ∙ ap reverse e ∙ reverse-cons b'/' t)
]

abbrev logout_parts : List (List ℕ)
unfolding segments
logout_parts = segments (codes "/api/v1/auth/logout")

abbrev change_parts : List (List ℕ)
unfolding segments
change_parts = segments (codes "/api/v1/auth/change-password")

abbrev is_way_out : Handler → Bool
is_way_out auth_logout = true
is_way_out auth_change_password = true
is_way_out _ = false

-- A route behind Authenticate has no open end, and one that fits a way out in lower case is one.
unfoldable is_strict : Route → Bool
unfolding ends_open
is_strict e =
    rank (kept_to e.gate) == 0
    || (not (ends_open e.pattern)
        && (is_way_out e.handler
            || not (
                path_fits (map to_lower e.pattern) change_parts
                || path_fits (map to_lower e.pattern) logout_parts)))

unfoldable all_strict : List Route → Bool
all_strict [] = true
all_strict (e ∷ es) = is_strict e && all_strict es

routes_strict : (w : Bool) → all_strict (routes w) ≡ true
unfolding all_strict is_strict routes segments path_fits text_eq to_lower has_prefix
routes_strict true = refl
routes_strict false = refl

find_route_strict :
    (m : Method) (p : List (List ℕ)) (es : List Route) (e : Route)
    → all_strict es ≡ true
    → find_route m p es ≡ some e
    → (is_strict e ≡ true) × (path_fits e.pattern p ≡ true)
unfolding all_strict find_route
find_route_strict m p [] e a h = cc
find_route_strict m p (x ∷ es) e a h = elim (Option-cases (find_route m p es)) [
  | inl n ↦ (ground arith, ground arith)
  | inr (f, s) ↦
      let (t, u) = find_route_strict m p es f (ground arith) s in (ground arith, ground arith)
]

-- The pattern of a path that is, in lower case, one of the two, is in lower case one of theirs.
fits_lower :
    (p : List (List ℕ)) (path t : List ℕ)
    → path_fits p (segments path) ≡ true
    → text_eq (to_lower path) t ≡ true
    → path_fits (map to_lower p) (segments t) ≡ true
fits_lower p path t h e =
    subst (λ ws. path_fits (map to_lower p) ws ≡ true)
      (sym (segments-lower path) ∙ ap segments (eq-of-text_eq (to_lower path) t e))
      (path-lower p (segments path) h)

-- A route for a path that isPasswordChangeRoute lets through is for anyone or one of the ways out.
exempt_route :
    (e : Route) (path : List ℕ)
    → is_strict e ≡ true
    → path_fits e.pattern (segments path) ≡ true
    → is_password_change_route path ≡ true
    → (rank (kept_to e.gate) == 0 || is_way_out e.handler) ≡ true
unfolding is_strict is_password_change_route change_parts logout_parts segments
exempt_route e path s f x = elim (trim_cases path) [
  | inl same ↦
      let y : (text_eq (to_lower path) (codes "/api/v1/auth/change-password")
            || text_eq (to_lower path) (codes "/api/v1/auth/logout"))
          ≡ true =
        subst
          (λ p.
            (text_eq (to_lower p) (codes "/api/v1/auth/change-password")
              || text_eq (to_lower p) (codes "/api/v1/auth/logout"))
            ≡ true)
          same x in
      elim (Bool-cases (text_eq (to_lower path) (codes "/api/v1/auth/change-password"))) [
        | inl t ↦
            let z : path_fits (map to_lower e.pattern) change_parts ≡ true =
              fits_lower e.pattern path (codes "/api/v1/auth/change-password") f t in
            ground arith
        | inr n ↦
            let z : path_fits (map to_lower e.pattern) logout_parts ≡ true =
              fits_lower e.pattern path (codes "/api/v1/auth/logout") f (ground arith) in
            ground arith
      ]
  | inr (t, slash) ↦
      let open_end : ends_open e.pattern ≡ true =
        slash_fits e.pattern (segments t)
          (subst (λ ws. path_fits e.pattern ws ≡ true) (ap segments slash ∙ segments_slash t) f) in
      ground arith
]

-- Where a handler is called with claims, Authenticate has found them.
enter-ok :
    (g : Gate) (h i : Handler) (caller : Result Error Claims) (pass : Bool × Memory) (ws : Memory)
    (k : Claims)
    → (enter g h caller pass ws).0 ≡ handled i (some k)
    → (caller ≡ ok k) × (h ≡ i) × (rank (kept_to g) == 0 ≡ false)
unfolding enter
enter-ok open_to_all h i caller pass ws k e = cc
enter-ok throttled h i caller (b, ws') ws k e = absurd (ground arith)
enter-ok signed_in h i caller pass ws k e =
    let (d, a, s, q, same) = behind_authenticate-handled require_anyone h i caller (some k) e in
    (ground arith, same, refl)
enter-ok member_only h i caller pass ws k e =
    let (d, a, s, q, same) = behind_authenticate-handled require_member h i caller (some k) e in
    (ground arith, same, refl)
enter-ok staff h i caller pass ws k e =
    let (d, a, s, q, same) = behind_authenticate-handled require_librarian h i caller (some k) e in
    (ground arith, same, refl)
enter-ok admin_only h i caller pass ws k e =
    let (d, a, s, q, same) = behind_authenticate-handled require_admin h i caller (some k) e in
    (ground arith, same, refl)

check_claims_exempt :
    (path : List ℕ) (db : Db) (c : Option Claims) (k : Claims)
    → check_claims path db c ≡ ok k
    → k.pending ≡ true
    → is_password_change_route path ≡ true
unfolding check_claims
check_claims_exempt path db none k h p = cc
check_claims_exempt path db (some c) k h p =
    let (same, x, _) = authenticate_rules c k (is_password_change_route path) db h in
    x (ap (λ (d : Claims). d.pending) (sym same) ∙ p)

read_token_exempt :
    (o : Options) (path : List ℕ) (db : Db) (t : Option (List ℕ)) (k : Claims)
    → read_token o path db t ≡ ok k
    → k.pending ≡ true
    → is_password_change_route path ≡ true
unfolding read_token
read_token_exempt o path db none k h p = cc
read_token_exempt o path db (some []) k h p = cc
read_token_exempt o path db (some (c ∷ s)) k h p =
    check_claims_exempt path db (o.parse_access_token (c ∷ s)) k h p

way_out-cases : (h : Handler) → is_way_out h ≡ true → (h ≡ auth_logout) ⊎ (h ≡ auth_change_password)
way_out-cases auth_logout e = inl refl
way_out-cases auth_change_password e = inr refl
way_out-cases h e = cc

-- The claims of a token that was issued while its account had a password to change reach two handlers
-- at most, those that sign out and that change the password: whatever path, method and headers the
-- request has, a path in other letters or with slashes at its end included.
pub serve-pending :
    (o : Options) (limiter : Option Bool) (r : Request) (now : ℕ) (ws : Memory) (db : Db)
    (h : Handler) (k : Claims)
    → (serve o limiter r now ws db).0 ≡ handled h (some k)
    → k.pending ≡ true
    → (h ≡ auth_logout) ⊎ (h ≡ auth_change_password)
unfolding serve dispatch identify
serve-pending o limiter r now ws db h k e p =
    elim (Option-cases (find_route r.method (segments r.path) (routes o.has_webhook))) [
      | inl n ↦ absurd (ground arith)
      | inr (x, f) ↦
          let (a, same, gate) =
            enter-ok x.gate x.handler h (identify o r db)
              (throttle limiter o.trust_proxy_headers r now ws) ws k (ground arith) in
          let (s, fits) =
            find_route_strict r.method (segments r.path) (routes o.has_webhook) x
              (routes_strict o.has_webhook) f in
          let exempt = read_token_exempt o r.path db (bearer r.authorization) k a p in
          let one = exempt_route x r.path s fits exempt in
          way_out-cases h (ap is_way_out (sym same) ∙ ground arith)
    ]
