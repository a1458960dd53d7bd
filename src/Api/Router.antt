-- ===== src/Api/Router.antt =====
-- internal/api/router.go: the routes and the CORS headers.
use web_hook_project.Prelude.{
  Bool, ◌&&◌, ◌||◌, List, [], ◌∷◌, Text, codes, ◌==◌, text_eq, if◌then◌else◌,
}
use web_hook_project.Domain.{is_empty}

pub data Route : Type 0 where
  ingest_event create_endpoint list_endpoints list_dlq replay_dlq event_stream healthz metrics :
      Route

-- Where a request goes: to a handler, to an answer of the mux, or back from corsMiddleware with 204.
pub data Routed : Type 0 where
  handler : Route → Routed
  not_found not_allowed preflight : Routed

-- A pattern of the mux for GET takes HEAD, too.
abbrev pub allows : Text → Text → Bool
allows pattern method = method == pattern || (pattern == codes "GET" && method == codes "HEAD")

abbrev pub only : Text → Text → Route → Routed
only pattern method route = if allows pattern method then handler route else not_allowed

-- NewRouter
unfoldable pub route : Text → Text → Routed
route method path =
    if path == codes "/api/v1/events"
    then only (codes "POST") method ingest_event
    else if path == codes "/api/v1/endpoints"
    then (if method == codes "POST"
        then handler create_endpoint
        else only (codes "GET") method list_endpoints)
    else if path == codes "/api/v1/dlq"
    then only (codes "GET") method list_dlq
    else if path == codes "/api/v1/dlq/replay"
    then only (codes "POST") method replay_dlq
    else if path == codes "/api/v1/events/stream"
    then only (codes "GET") method event_stream
    else if path == codes "/healthz"
    then only (codes "GET") method healthz
    else if path == codes "/metrics"
    then only (codes "GET") method metrics
    else not_found

-- The headers that corsMiddleware adds to each response.
abbrev pub cors_headers : Text → List (Text × Text)
cors_headers origin =
    (codes "Access-Control-Allow-Origin", (if is_empty origin then codes "*" else origin))
    ∷ (codes "Access-Control-Allow-Methods", codes "GET, POST, PUT, PATCH, DELETE, OPTIONS")
    ∷ (
      codes "Access-Control-Allow-Headers",
      codes "Accept, Authorization, Content-Type, X-Tenant-ID, X-Idempotency-Key, Cache-Control",
    )
    ∷ (codes "Access-Control-Expose-Headers", codes "Content-Length, X-Idempotency-Replay")
    ∷ []

-- corsMiddleware around the mux
unfoldable pub cors_route : Text → Text → Routed
cors_route method path = if method == codes "OPTIONS" then preflight else route method path
