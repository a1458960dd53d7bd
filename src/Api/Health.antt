-- ===== src/Api/Health.antt =====
-- internal/api/handler.go: the health check and the gate of the event stream.
use web_hook_project.Prelude.{not, ◌&&◌, Text, codes, ◌==◌, text_eq, if◌then◌else◌, ℕ, Bool}
use web_hook_project.Domain.{Time}
use Prim.Native.String.{String}

-- An error in JSON, the health status with its time, and the event stream.
pub data Answered : Type 0 where
  error_json : ℕ → String → Answered
  healthy : ℕ → Time → Answered
  streams : Answered

unfoldable pub handle_healthz : Time → Text → Answered
handle_healthz now method =
    if not (method == codes "GET") then error_json 405 "method not allowed" else healthy 200 now

-- HandleEventStream; `has_broker` is whether the handler has a broker.
unfoldable pub handle_event_stream : Bool → Text → Answered
handle_event_stream has_broker method =
    if not (method == codes "GET") && not (method == codes "OPTIONS")
    then error_json 405 "method not allowed"
    else if has_broker
    then streams
    else error_json 503 "SSE stream broker not configured"
