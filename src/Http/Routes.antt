-- ===== src/Http/Routes.antt =====
-- The table of NewRouter in internal/transport/http/router.go: each pattern with the middleware around
-- its handler. A handler is named by the field of Handlers and the method. The headers that the outer
-- middleware adds, its log lines and its recovery from a panic are left out.
use Prim.Native.String.{String}
use holibrary_backend.Prelude.{
  ℕ, Bool, true, false, ◌&&◌, Option, none, some, List, [], ◌∷◌, ◌++◌, if◌then◌else◌, codes,
}
use holibrary_backend.Http.Paths.{
  Method, get, post, patch, delete, method_fits, segments, path_fits, is_more_specific,
}

pub data Handler : Type 0 where
  health root_redirect docs_ui docs_spec : Handler
  catalogue_search catalogue_get catalogue_new_arrivals catalogue_related : Handler
  catalogue_facets auth_login auth_refresh auth_forgot_password : Handler
  auth_reset_password resend_webhook_serve auth_logout auth_change_password : Handler
  circulation_my_loans circulation_self_checkout circulation_my_history reservations_list : Handler
  reservations_create reservations_cancel bookmarks_list bookmarks_create : Handler
  bookmarks_delete saved_searches_list saved_searches_create saved_searches_delete : Handler
  devices_register devices_unregister lookup_lookup catalogue_create : Handler
  catalogue_update_book catalogue_archive catalogue_add_copy catalogue_update_copy : Handler
  catalogue_copy_at_desk circulation_borrow circulation_return circulation_list : Handler
  members_list members_create members_import_csv members_get : Handler
  members_set_status members_set_role admin_dashboard admin_audit : Handler
  admin_invitation_deliveries admin_resend_invitation : Handler

-- What stands around a handler: nothing, the throttle, Authenticate, or Authenticate with one of
-- RequireMember, RequireLibrarian (`staff`) and RequireAdmin.
pub data Gate : Type 0 where
  open_to_all throttled signed_in member_only staff admin_only : Gate

pub record Route : Type 0 where
  pub method : Method
  pub pattern : List (List ℕ)
  pub gate : Gate
  pub handler : Handler

abbrev route : Method → String → Gate → Handler → Route
unfolding segments
route m p g h = record { method = m; pattern = segments (codes p); gate = g; handler = h }

unfoldable public_routes : List Route
unfolding segments
public_routes =
    route get "/healthz" open_to_all health
    ∷ route get "/{$}" open_to_all root_redirect
    ∷ route get "/docs" open_to_all docs_ui
    ∷ route get "/openapi.yaml" open_to_all docs_spec
    ∷ route get "/api/v1/books" open_to_all catalogue_search
    ∷ route get "/api/v1/books/{id}" open_to_all catalogue_get
    ∷ route get "/api/v1/books/new-arrivals" open_to_all catalogue_new_arrivals
    ∷ route get "/api/v1/books/{id}/related" open_to_all catalogue_related
    ∷ route get "/api/v1/catalogue/facets" open_to_all catalogue_facets
    ∷ route post "/api/v1/auth/login" throttled auth_login
    ∷ route post "/api/v1/auth/refresh" throttled auth_refresh
    ∷ route post "/api/v1/auth/forgot-password" throttled auth_forgot_password
    ∷ route post "/api/v1/auth/reset-password" throttled auth_reset_password
    ∷ []

unfoldable webhook_routes : List Route
unfolding segments
webhook_routes = route post "/api/v1/webhooks/resend" open_to_all resend_webhook_serve ∷ []

unfoldable account_routes : List Route
unfolding segments
account_routes =
    route post "/api/v1/auth/logout" signed_in auth_logout
    ∷ route post "/api/v1/auth/change-password" signed_in auth_change_password
    ∷ route get "/api/v1/me/loans" signed_in circulation_my_loans
    ∷ route post "/api/v1/me/loans" member_only circulation_self_checkout
    ∷ route get "/api/v1/me/history" signed_in circulation_my_history
    ∷ route get "/api/v1/me/reservations" signed_in reservations_list
    ∷ route post "/api/v1/reservations" signed_in reservations_create
    ∷ route delete "/api/v1/reservations/{id}" signed_in reservations_cancel
    ∷ route get "/api/v1/me/bookmarks" signed_in bookmarks_list
    ∷ route post "/api/v1/bookmarks" signed_in bookmarks_create
    ∷ route delete "/api/v1/bookmarks/{bookID}" signed_in bookmarks_delete
    ∷ route get "/api/v1/me/saved-searches" member_only saved_searches_list
    ∷ route post "/api/v1/me/saved-searches" member_only saved_searches_create
    ∷ route delete "/api/v1/me/saved-searches/{id}" member_only saved_searches_delete
    ∷ route post "/api/v1/me/devices" signed_in devices_register
    ∷ route delete "/api/v1/me/devices" signed_in devices_unregister
    ∷ []

unfoldable desk_routes : List Route
unfolding segments
desk_routes =
    route get "/api/v1/books/lookup" staff lookup_lookup
    ∷ route post "/api/v1/books" staff catalogue_create
    ∷ route patch "/api/v1/books/{id}" staff catalogue_update_book
    ∷ route post "/api/v1/books/{id}/archive" staff catalogue_archive
    ∷ route post "/api/v1/books/{id}/copies" staff catalogue_add_copy
    ∷ route patch "/api/v1/copies/{id}" staff catalogue_update_copy
    ∷ route get "/api/v1/copies/lookup" staff catalogue_copy_at_desk
    ∷ route post "/api/v1/loans" staff circulation_borrow
    ∷ route post "/api/v1/loans/{id}/return" staff circulation_return
    ∷ route get "/api/v1/loans" staff circulation_list
    ∷ []

unfoldable admin_routes : List Route
unfolding segments
admin_routes =
    route get "/api/v1/members" staff members_list
    ∷ route post "/api/v1/members" staff members_create
    ∷ route post "/api/v1/members/import" staff members_import_csv
    ∷ route get "/api/v1/members/{id}" staff members_get
    ∷ route patch "/api/v1/members/{id}/status" staff members_set_status
    ∷ route patch "/api/v1/members/{id}/role" admin_only members_set_role
    ∷ route get "/api/v1/admin/dashboard" staff admin_dashboard
    ∷ route get "/api/v1/admin/audit" admin_only admin_audit
    ∷ route get "/api/v1/admin/invitations" admin_only admin_invitation_deliveries
    ∷ route post "/api/v1/admin/members/{id}/invitation" admin_only admin_resend_invitation
    ∷ []

-- The webhook's route is registered only with a handler for it.
unfoldable pub routes : Bool → List Route
unfolding public_routes webhook_routes account_routes desk_routes admin_routes
routes webhook =
    public_routes
    ++ (if webhook then webhook_routes else [])
    ++ account_routes
    ++ desk_routes
    ++ admin_routes

abbrev pub is_match : Method → List (List ℕ) → Route → Bool
is_match m p e = method_fits e.method m && path_fits e.pattern p

abbrev prefer : Route → Option Route → Option Route
prefer e none = some e
prefer e (some f) = if is_more_specific e.pattern f.pattern then some e else some f

unfoldable pub find_route : Method → List (List ℕ) → List Route → Option Route
find_route m p [] = none
find_route m p (e ∷ es) =
    let rest = find_route m p es in if is_match m p e then prefer e rest else rest

-- Whether another method would do: the multiplexer then answers 405 and not 404.
unfoldable pub serves_path : List (List ℕ) → List Route → Bool
serves_path p [] = false
serves_path p (e ∷ es) = if path_fits e.pattern p then true else serves_path p es
