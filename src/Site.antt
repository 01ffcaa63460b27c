-- ===== src/Site.antt =====
-- The muxes of server/server.go and server/router.go: which handler answers a request, and which stand
-- behind the admin gate. Paths are clean, as `ServeMux` makes them. The handlers of the app routes, of
-- the health check and of the exported metrics are arguments, over the admin stores and a state `S`;
-- the request log is left out.
pub mod Guarded
use mobile_db.Prelude.{
  if◌then◌else◌, ◌==◌, nat_eq, pair_eq, ℤ_eq, Str, codes, str_eq_inst, Bool, Option, List, [], ◌∷◌,
  ◌++◌, ℕ,
}
use mobile_db.Server.AdminGate.{
  Buckets, Attempt, Verdict, admitted, forbidden, too_many, unauthorized, require_admin_auth,
}
use mobile_db.Server.Requests.{Request, Response, Handler, refuse}
use mobile_db.Admin.Web.{PageRequest}
use mobile_db.Admin.Router.{Stores, Pages, Moment, has_prefix, serve_admin}

-- A request as the gate, the admin pages and the app's handlers read it.
pub record Incoming : Type 0 where
  pub attempt : Attempt
  pub page : PageRequest
  pub request : Request

pub record World (S : Type 0) : Type 0 where
  pub buckets : Buckets
  pub stores : Stores
  pub rest : S

-- The patterns of `NewRouter`. A GET pattern matches HEAD too, and "DELETE /devices/" all paths below.
pub data AppRoute : Type 0 where
  register_route token_route rotate_route revoke_key_route sync_app_route events_route : AppRoute
  to_devices_slash not_allowed not_found : AppRoute

unfoldable pub by_method : Str → Str → AppRoute → AppRoute → AppRoute
by_method wanted method route other = if method == wanted then route else other

unfoldable pub app_route : Str → Str → AppRoute
unfolding has_prefix by_method
app_route method path =
    let below = by_method (codes "DELETE") method revoke_key_route not_allowed in
    if path == codes "/devices/register"
    then by_method (codes "POST") method register_route below
    else if path == codes "/devices/rotate-key"
    then by_method (codes "POST") method rotate_route below
    else if has_prefix (codes "/devices/") path
    then below
    else if path == codes "/devices"
    then by_method (codes "DELETE") method to_devices_slash not_allowed
    else if path == codes "/auth/token"
    then by_method (codes "POST") method token_route not_allowed
    else if path == codes "/sync"
    then by_method (codes "POST") method sync_app_route not_allowed
    else if path == codes "/events"
    then by_method (codes "GET") method events_route
        (by_method (codes "HEAD") method events_route not_allowed)
    else not_found

-- The handlers of `NewRouter`, behind their middleware, and the two of `Run`.
pub record AppHandlers (S : Type 0) : Type 0 where
  pub register : Handler S
  pub token : Handler S
  pub rotate : Handler S
  pub revoke : Str → Handler S
  pub sync : Handler S
  pub events : Handler S
  pub health : Handler S
  pub metrics : Handler S

unfoldable pub answer_app : {S : Type 0} → AppHandlers S → AppRoute → Str → Handler S
answer_app h register_route path = h.register
answer_app h token_route path = h.token
answer_app h rotate_route path = h.rotate
answer_app h revoke_key_route path = h.revoke path
answer_app h sync_app_route path = h.sync
answer_app h events_route path = h.events
answer_app h to_devices_slash path = λ r s. refuse 301 s
answer_app h not_allowed path = λ r s. refuse 405 s
answer_app h not_found path = λ r s. refuse 404 s

-- The pattern of the main mux; a path that lacks the slash of "/admin/" is redirected there.
pub data MainRoute : Type 0 where
  to_admin_slash admin_pages health_check exported_metrics app_pages : MainRoute

unfoldable pub main_route : Str → MainRoute
unfolding has_prefix
main_route path =
    if path == codes "/admin"
    then to_admin_slash
    else if has_prefix (codes "/admin/") path
    then admin_pages
    else if path == codes "/health"
    then health_check
    else if path == codes "/metrics"
    then exported_metrics
    else app_pages

-- `http.Error`, which ends the text with a line break
abbrev pub http_error : {S : Type 0} → Str → ℕ → S → Response × S
http_error text status s = (record { status = status; body = text ++ (10 ∷ []) }, s)

-- What the gate does with its verdict.
unfoldable pub gated : {S : Type 0} → Verdict → (S → Response × S) → S → Response × S
gated admitted next s = next s
gated forbidden next s = http_error (codes "forbidden") 403 s
gated too_many next s = http_error (codes "too many attempts") 429 s
gated unauthorized next s = http_error (codes "unauthorized") 401 s

module _ {S : Type 0} where
  -- A handler of the state without the buckets, in the whole.
  unfoldable pub inside : World S → Buckets → Response × (Stores × S) → Response × World S
  inside w buckets (out, (stores, rest)) =
      (out, record { buckets = buckets; stores = stores; rest = rest })

module _ {S : Type 0} (split_host : Str → Option Str) (trim_space : Str → Str)
    (matches : Str → Str → Bool) (password_hash : Str) (allowed_ips : List Str) where
  -- `RequireAdminAuth` before a handler
  unfoldable pub behind_gate :
      (Stores × S → Response × (Stores × S)) → Attempt → World S → Response × World S
  unfolding gated inside
  behind_gate next attempt w =
      let g =
        require_admin_auth split_host trim_space matches password_hash allowed_ips attempt
          w.buckets in
      inside w g.1 (gated g.0 next (w.stores, w.rest))

module _ {F S : Type 0} (pages : Pages F) (now : Moment F) where
  unfoldable pub admin_handler : PageRequest → Stores × S → Response × (Stores × S)
  admin_handler r (stores, rest) =
      let out = serve_admin pages now r stores in (out.0, (out.1, rest))

module _ {F S : Type 0} (split_host : Str → Option Str) (trim_space : Str → Str)
    (matches : Str → Str → Bool) (password_hash : Str) (allowed_ips : List Str) (pages : Pages F)
    (now : Moment F) (h : AppHandlers (Stores × S)) where
  unfoldable pub serve_route : MainRoute → Incoming → World S → Response × World S
  unfolding behind_gate admin_handler inside answer_app app_route
  serve_route to_admin_slash r w = refuse 301 w
  serve_route admin_pages r w =
      behind_gate split_host trim_space matches password_hash allowed_ips
        (admin_handler pages now r.page) r.attempt w
  serve_route health_check r w = inside w w.buckets (h.health r.request (w.stores, w.rest))
  serve_route exported_metrics r w =
      behind_gate split_host trim_space matches password_hash allowed_ips (h.metrics r.request)
        r.attempt w
  serve_route app_pages r w =
      inside w w.buckets (
        answer_app h (app_route r.page.method r.page.path) r.page.path r.request (w.stores, w.rest))

  -- The main mux
  unfoldable pub serve_main : Incoming → World S → Response × World S
  unfolding main_route serve_route
  serve_main r w = serve_route (main_route r.page.path) r w
