-- ===== src/Http/AccessLaws.antt =====
-- Who can reach which handler: NewRouter of internal/transport/http/router.go with the middleware of
-- internal/transport/http/middleware/middleware.go.
use holibrary_backend.Prelude.{
  ℕ, ◌≤◌, ◌≡◌, refl, sym, ap, ◌∙◌, Bool, true, Option, none, some, List, [], ◌∷◌, Result, ok, err,
  find_where, Bool-cases, Option-cases, Result-cases, inl, inr, arith,
}
use mathlib.Core.Path.{subst}
use holibrary_backend.Domain.{Error, User, Role, member, admin, can_manage_library}
use holibrary_backend.Db.{Db}
use holibrary_backend.Circulation.Desk.{has_user_id}
use holibrary_backend.Accounts.RateLimit.{Memory}
use holibrary_backend.Accounts.Sessions.{Claims}
use holibrary_backend.Accounts.Roles.{require_member, require_librarian, require_admin}
use holibrary_backend.Accounts.LoginLaws.{authenticate_rules}
use holibrary_backend.Http.Paths.{segments}
use holibrary_backend.Http.Network.{Request, throttle}
use holibrary_backend.Http.Routes.{
  Handler, Gate, open_to_all, throttled, signed_in, member_only, staff, admin_only, routes,
  find_route,
}
use holibrary_backend.Http.Audience.{
  anyone, account_holder, members_only, librarians, administrators, Audience, audience, kept_to,
  eq-of-same_audience, routes_guarded, find_route_guarded,
}
use holibrary_backend.Http.Serve.{
  Options, handled, is_password_change_route, admit_role, behind_authenticate, enter, dispatch,
  serve, check_claims, read_token, identify, bearer, require_anyone,
}

-- The claims are those of an account as it stands: with its role, and issued since its sessions were
-- last ended.
pub IsCurrent : Claims → Db → Type 0
IsCurrent c db =
    (u : User) × (find_where (has_user_id c.user_id) db.users ≡ some u)
    × (u.role ≡ c.role)
    × (u.tokens_invalid_before ≤ c.issued_at)

pub IsAdmitted : Audience → Option Claims → Db → Type 0
unfolding IsCurrent
IsAdmitted anyone c db = c ≡ none
IsAdmitted account_holder c db = (k : Claims) × (c ≡ some k) × IsCurrent k db
IsAdmitted members_only c db = (k : Claims) × (c ≡ some k) × (k.role ≡ member) × IsCurrent k db
IsAdmitted librarians c db =
    (k : Claims) × (c ≡ some k) × (can_manage_library k.role ≡ true) × IsCurrent k db
IsAdmitted administrators c db = (k : Claims) × (c ≡ some k) × (k.role ≡ admin) × IsCurrent k db

check_claims-IsCurrent :
    (path : List ℕ) (db : Db) (c : Option Claims) (k : Claims)
    → check_claims path db c ≡ ok k
    → IsCurrent k db
unfolding check_claims IsCurrent
check_claims-IsCurrent path db none k h = cc
check_claims-IsCurrent path db (some c) k h =
    let (same, _, (u, f, e, t)) = authenticate_rules c k (is_password_change_route path) db h in
    subst (λ x. IsCurrent x db) (sym same) (u, f, e, t)

read_token-IsCurrent :
    (o : Options) (path : List ℕ) (db : Db) (t : Option (List ℕ)) (k : Claims)
    → read_token o path db t ≡ ok k
    → IsCurrent k db
unfolding read_token
read_token-IsCurrent o path db none k h = cc
read_token-IsCurrent o path db (some []) k h = cc
read_token-IsCurrent o path db (some (c ∷ s)) k h =
    check_claims-IsCurrent path db (o.parse_access_token (c ∷ s)) k h

-- A handler behind Authenticate is called with the claims that Authenticate found, of a role that passes.
pub behind_authenticate-handled :
    (require : Role → Result Error (Unit {0})) (h i : Handler) (caller : Result Error Claims)
    (c : Option Claims)
    → behind_authenticate require h caller ≡ handled i c
    → (k : Claims) × (caller ≡ ok k) × (c ≡ some k) × (require k.role ≡ ok tt) × (h ≡ i)
unfolding behind_authenticate admit_role
behind_authenticate-handled require h i (err e) c g = cc
behind_authenticate-handled require h i (ok k) c g = elim (Result-cases (require k.role)) [
  | inl (e, n) ↦ absurd (ground arith)
  | inr (u, e) ↦ (k, refl, ground arith, e, ground arith)
]

member_passes : (r : Role) → require_member r ≡ ok tt → r ≡ member
unfolding require_member
member_passes r h = ground arith

librarian_passes : (r : Role) → require_librarian r ≡ ok tt → can_manage_library r ≡ true
unfolding require_librarian
librarian_passes r h = ground arith

admin_passes : (r : Role) → require_admin r ≡ ok tt → r ≡ admin
unfolding require_admin
admin_passes r h = ground arith

enter-IsAdmitted :
    (o : Options) (r : Request) (db : Db) (g : Gate) (h i : Handler) (pass : Bool × Memory)
    (ws : Memory) (c : Option Claims)
    → (enter g h (identify o r db) pass ws).0 ≡ handled i c
    → (h ≡ i) × IsAdmitted (kept_to g) c db
unfolding enter IsAdmitted identify
enter-IsAdmitted o r db open_to_all h i pass ws c e = (ground arith, ground arith)
enter-IsAdmitted o r db throttled h i (b, ws') ws c e = elim (Bool-cases b) [
  | inl t ↦ (ground arith, ground arith)
  | inr f ↦ absurd (ground arith)
]
enter-IsAdmitted o r db signed_in h i pass ws c e =
    let (k, a, s, q, same) = behind_authenticate-handled require_anyone h i (identify o r db) c e in
    (same, (k, s, read_token-IsCurrent o r.path db (bearer r.authorization) k a))
enter-IsAdmitted o r db member_only h i pass ws c e =
    let (k, a, s, q, same) = behind_authenticate-handled require_member h i (identify o r db) c e in
    (
      same,
      (k, s, member_passes k.role q, read_token-IsCurrent o r.path db (bearer r.authorization) k a),
    )
enter-IsAdmitted o r db staff h i pass ws c e =
    let (k, a, s, q, same) =
      behind_authenticate-handled require_librarian h i (identify o r db) c e in
    (
      same,
      (
        k,
        s,
        librarian_passes k.role q,
        read_token-IsCurrent o r.path db (bearer r.authorization) k a,
      ),
    )
enter-IsAdmitted o r db admin_only h i pass ws c e =
    let (k, a, s, q, same) = behind_authenticate-handled require_admin h i (identify o r db) c e in
    (
      same,
      (k, s, admin_passes k.role q, read_token-IsCurrent o r.path db (bearer r.authorization) k a),
    )

-- A request reaches a handler only as one whom the operation is for: an operation for anyone is called
-- without claims, and every other with the claims of an account that is as they say (it has their role,
-- and its sessions have not been ended since they were issued), with the role of a member for the
-- operations of members, of a librarian or administrator for those of librarians, and of an
-- administrator for theirs. This holds whatever path, method and headers the request has.
pub serve-audience :
    (o : Options) (limiter : Option Bool) (r : Request) (now : ℕ) (ws : Memory) (db : Db)
    (h : Handler) (c : Option Claims)
    → (serve o limiter r now ws db).0 ≡ handled h c
    → IsAdmitted (audience h) c db
unfolding serve dispatch
serve-audience o limiter r now ws db h c e =
    elim (Option-cases (find_route r.method (segments r.path) (routes o.has_webhook))) [
      | inl n ↦ absurd (ground arith)
      | inr (x, f) ↦
          let (same, admitted) =
            enter-IsAdmitted o r db x.gate x.handler h
              (throttle limiter o.trust_proxy_headers r now ws) ws c (ground arith) in
          let guarded =
            find_route_guarded r.method (segments r.path) (routes o.has_webhook) x
              (routes_guarded o.has_webhook) f in
          let gate_fits : kept_to x.gate ≡ audience h =
            eq-of-same_audience (kept_to x.gate) (audience x.handler) guarded ∙ ap audience same in
          subst (λ a. IsAdmitted a c db) gate_fits admitted
    ]
