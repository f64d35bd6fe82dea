-- ===== src/Http/Audience.antt =====
-- Whom each route of NewRouter in internal/transport/http/router.go is for, set against the table.
use holibrary_backend.Prelude.{
  ℕ, ◌==◌, ◌≡◌, refl, Bool, true, false, ◌&&◌, some, List, [], ◌∷◌, Option-cases, inl, inr, arith,
}
use holibrary_backend.Http.Paths.{Method}
use holibrary_backend.Http.Routes.{
  Handler, Gate, Route, open_to_all, throttled, signed_in, member_only, staff, admin_only, routes,
  find_route, health, root_redirect, docs_ui, docs_spec, catalogue_search, catalogue_get,
  catalogue_new_arrivals, catalogue_related, catalogue_facets, auth_login, auth_refresh,
  auth_forgot_password, auth_reset_password, resend_webhook_serve, circulation_self_checkout,
  saved_searches_list, saved_searches_create, saved_searches_delete, lookup_lookup,
  catalogue_create, catalogue_update_book, catalogue_archive, catalogue_add_copy,
  catalogue_update_copy, catalogue_copy_at_desk, circulation_borrow, circulation_return,
  circulation_list, members_list, members_create, members_import_csv, members_get,
  members_set_status, admin_dashboard, members_set_role, admin_audit, admin_invitation_deliveries,
  admin_resend_invitation,
}

-- Whom an operation is for.
pub data Audience : Type 0 where
  anyone account_holder members_only librarians administrators : Audience

-- The operations that the service offers to each, by what they do: the public catalogue, the documents
-- and signing in; what a member does in their own name; the desk and the collection; what only an
-- administrator may do. Every other operation is for any account holder.
unfoldable pub audience : Handler → Audience
audience health = anyone
audience root_redirect = anyone
audience docs_ui = anyone
audience docs_spec = anyone
audience catalogue_search = anyone
audience catalogue_get = anyone
audience catalogue_new_arrivals = anyone
audience catalogue_related = anyone
audience catalogue_facets = anyone
audience auth_login = anyone
audience auth_refresh = anyone
audience auth_forgot_password = anyone
audience auth_reset_password = anyone
audience resend_webhook_serve = anyone
audience circulation_self_checkout = members_only
audience saved_searches_list = members_only
audience saved_searches_create = members_only
audience saved_searches_delete = members_only
audience lookup_lookup = librarians
audience catalogue_create = librarians
audience catalogue_update_book = librarians
audience catalogue_archive = librarians
audience catalogue_add_copy = librarians
audience catalogue_update_copy = librarians
audience catalogue_copy_at_desk = librarians
audience circulation_borrow = librarians
audience circulation_return = librarians
audience circulation_list = librarians
audience members_list = librarians
audience members_create = librarians
audience members_import_csv = librarians
audience members_get = librarians
audience members_set_status = librarians
audience admin_dashboard = librarians
audience members_set_role = administrators
audience admin_audit = administrators
audience admin_invitation_deliveries = administrators
audience admin_resend_invitation = administrators
audience _ = account_holder

abbrev pub rank : Audience → ℕ
rank anyone = 0
rank account_holder = 1
rank members_only = 2
rank librarians = 3
rank administrators = 4

abbrev pub same_audience : Audience → Audience → Bool
same_audience a b = rank a == rank b

pub eq-of-same_audience : (a b : Audience) → same_audience a b ≡ true → a ≡ b
eq-of-same_audience anyone anyone h = refl
eq-of-same_audience account_holder account_holder h = refl
eq-of-same_audience members_only members_only h = refl
eq-of-same_audience librarians librarians h = refl
eq-of-same_audience administrators administrators h = refl
eq-of-same_audience a b h = cc

-- The audience that a gate keeps to.
abbrev pub kept_to : Gate → Audience
kept_to open_to_all = anyone
kept_to throttled = anyone
kept_to signed_in = account_holder
kept_to member_only = members_only
kept_to staff = librarians
kept_to admin_only = administrators

-- Every entry of the table has the gate that its operation calls for.
abbrev pub is_guarded : Route → Bool
is_guarded e = same_audience (kept_to e.gate) (audience e.handler)

unfoldable pub all_guarded : List Route → Bool
all_guarded [] = true
all_guarded (e ∷ es) = is_guarded e && all_guarded es

pub routes_guarded : (w : Bool) → all_guarded (routes w) ≡ true
unfolding all_guarded routes audience
routes_guarded true = refl
routes_guarded false = refl

pub find_route_guarded :
    (m : Method) (p : List (List ℕ)) (es : List Route) (e : Route)
    → all_guarded es ≡ true
    → find_route m p es ≡ some e
    → is_guarded e ≡ true
unfolding all_guarded find_route
find_route_guarded m p [] e a h = cc
find_route_guarded m p (x ∷ es) e a h = elim (Option-cases (find_route m p es)) [
  | inl n ↦ ground arith
  | inr (f, s) ↦
      let rest : is_guarded f ≡ true = find_route_guarded m p es f (ground arith) s in ground arith
]
