-- ===== src/Api.antt =====
-- internal/api/handler.go: ingestion, endpoints and the dead letter queue over HTTP. A handler works
-- on the repository and the guard, with the pieces of the request that it reads.
pub mod Ingestion
pub mod Stored
pub mod Broker
pub mod Stream
pub mod Router
pub mod Health
use Prim.Native.String.{String}
use web_hook_project.Prelude.{
  ℕ, suc, ◌*◌, Bool, true, false, not, ◌&&◌, ◌||◌, List, [], ◌∷◌, ◌++◌, Option, none, some, Text,
  codes, ◌==◌, text_eq, nat_eq, if◌then◌else◌, ltb, length,
}
use web_hook_project.Prelude.Errors.{Error, is_duplicate_key, Result, ok, err, Context, message}
use web_hook_project.Prelude.Int.{ℤ, pos, is_positive}
use web_hook_project.Prelude.Sorting.{Ranging}
use web_hook_project.Domain.{
  Time, Endpoint, Event, EventStatus, OutboxEvent, OutboxStatus, is_empty, validate_endpoint,
}
use web_hook_project.Storage.{
  MemoryRepository, create_event_with_outbox, create_endpoint, get_endpoints_by_tenant,
  get_dlq_events, replay_dlq_events,
}
use web_hook_project.Idempotency.{
  MemoryGuard, Acquired, CachedResponse, acquire_lock, set_response, release_lock,
}

pub record State : Type 0 where
  pub repo : MemoryRepository
  pub guard : MemoryGuard

-- What a handler reads of a request.
pub record HttpRequest : Type 0 where
  pub method : Text
  pub tenant : Text
  pub idempotency_key : Text
  pub body : Text

-- A JSON error, the cached response with the replay header, and a result with its JSON value.
pub data Response : Type 0 where
  failed : ℕ → String → Response
  replayed : ℕ → List ℕ → Response
  accepted : ℕ → List ℕ → Response
  created : ℕ → Endpoint → Response
  endpoints : ℕ → List Endpoint → Response
  events : ℕ → List Event → Response
  counted : ℕ → ℕ → Response

-- The error that Endpoint.Validate gave is the message of the response.
abbrev pub error_text : Error → String
error_text (message s) = s
error_text _ = ""

-- IngestEventRequest
pub record IngestEventRequest : Type 0 where
  pub event_type : Text
  pub payload : Text

-- IngestEventResponse
pub record IngestEventResponse : Type 0 where
  pub id : Text
  pub status : EventStatus
  pub created_at : Time

-- What the calls of one ingestion find: contexts, times and the fresh UUID.
pub record IngestTurn : Type 0 where
  pub at_lock : Context
  pub lock_time : Time
  pub now : Time
  pub uuid : Text
  pub at_create : Context
  pub create_time : Time
  pub at_release : Context
  pub at_store : Context
  pub store_time : Time

-- DefaultIdempTTL
abbrev pub idemp_ttl : ℤ
idemp_ttl = pos (86_400 * 1_000_000_000)

abbrev pub new_event : IngestTurn → HttpRequest → IngestEventRequest → Event
new_event t r req = record {
  id = codes "evt_" ++ t.uuid;
  tenant_id = r.tenant;
  event_type = req.event_type;
  idempotency_key = r.idempotency_key;
  payload = req.payload;
  status = EventStatus.pending;
  created_at = t.now;
}

abbrev pub new_outbox : IngestTurn → OutboxEvent
new_outbox t = record {
  id = 0;
  event_id = codes "evt_" ++ t.uuid;
  status = OutboxStatus.pending;
  retry_count = 0;
  created_at = t.now;
  processed_at = none;
}

-- `if lockAcquired { _ = h.guard.ReleaseLock(…) }`
unfoldable pub release_if : Bool → IngestTurn → HttpRequest → State → State
release_if false t r a = a
release_if true t r a = record a {
  guard = (release_lock t.at_release r.tenant r.idempotency_key a.guard).1;
}

-- encoding/json: the decoder of the body, the test of a payload, and the encoder of the response.
module _ (decode : Text → Option IngestEventRequest) (is_json : Text → Bool)
    (marshal : IngestEventResponse → Result (List ℕ)) where
  abbrev pub response_of : Event → Result (List ℕ)
  response_of e = marshal (record { id = e.id; status = e.status; created_at = e.created_at })

  -- `if lockAcquired { _ = h.guard.SetResponse(…) }`
  abbrev pub store_if : Bool → IngestTurn → HttpRequest → List ℕ → State → State
  store_if false t r body a = a
  store_if true t r body a = record a {
    guard =
        (set_response t.at_store t.store_time r.tenant r.idempotency_key 202 body idemp_ttl
          a.guard).1;
  }

  -- The response behind a stored event. Where it cannot be written, the lock stays.
  unfoldable pub conclude : Bool → IngestTurn → HttpRequest → Event → State → Response × State
  conclude lock t r e a = elim (response_of e) [
    | err bad ↦ (failed 500 "failed to marshal response", a)
    | ok body ↦ (accepted 202 body, store_if lock t r body a)
  ]

  unfoldable pub persist :
      Bool → IngestTurn → HttpRequest → IngestEventRequest → State → Response × State
  persist lock t r req a =
      let (stored, repo) =
        create_event_with_outbox t.at_create t.create_time (new_event t r req) (new_outbox t)
          a.repo in
      let a' : State = record a { repo = repo } in
      elim stored [
        | err e ↦
            if is_duplicate_key e
            then (failed 409 "duplicate event or idempotency key violation", release_if lock t r a')
            else (failed 500 "failed to persist event and outbox record", release_if lock t r a')
        | ok (e, ob) ↦ conclude lock t r e a'
      ]

  -- From the body on; `lock` is lockAcquired.
  unfoldable pub ingest_body : Bool → IngestTurn → HttpRequest → State → Response × State
  ingest_body lock t r a = elim (decode r.body) [
    | none ↦ (failed 400 "invalid JSON payload", release_if lock t r a)
    | some req ↦
        if is_empty req.event_type
        then (failed 400 "event_type is required", release_if lock t r a)
        else if is_empty req.payload || req.payload == codes "null"
        then (failed 400 "payload cannot be empty", release_if lock t r a)
        else if not (is_json req.payload)
        then (failed 400 "payload must be valid JSON", release_if lock t r a)
        else persist lock t r req a
  ]

  -- What follows AcquireLock.
  unfoldable pub ingest_locked :
      Result Acquired → IngestTurn → HttpRequest → State → Response × State
  ingest_locked (err e) t r a = (failed 500 "idempotency check failed", a)
  ingest_locked (ok acq) t r a = elim acq.cached [
    | some c ↦ (replayed c.status_code c.body, a)
    | none ↦
        if not acq.acquired
        then (failed 409 "concurrent request in flight with same idempotency key", a)
        else ingest_body true t r a
  ]

  -- HandleIngestEvent of a handler with a guard
  unfoldable pub handle_ingest_event : IngestTurn → HttpRequest → State → Response × State
  handle_ingest_event t r a =
      if not (r.method == codes "POST")
      then (failed 405 "method not allowed", a)
      else if is_empty r.tenant
      then (failed 400 "X-Tenant-ID header is required", a)
      else if is_empty r.idempotency_key
      then ingest_body false t r a
      else (let (answer, guard) =
            acquire_lock t.at_lock t.lock_time r.tenant r.idempotency_key idemp_ttl a.guard in
          ingest_locked answer t r (record a { guard = guard }))

-- CreateEndpointRequest
pub record CreateEndpointRequest : Type 0 where
  pub url : Text
  pub secret : Text
  pub rate_limit : ℤ

-- `method` and the tenant header of the other handlers
abbrev pub admitted : Text → HttpRequest → (State → Response × State) → State → Response × State
admitted method r go a =
    if not (r.method == method)
    then (failed 405 "method not allowed", a)
    else if is_empty r.tenant
    then (failed 400 "X-Tenant-ID header is required", a)
    else go a

abbrev pub new_endpoint : Time → Text → HttpRequest → CreateEndpointRequest → Endpoint
new_endpoint now uuid r req = record {
  id = codes "ep_" ++ uuid;
  tenant_id = r.tenant;
  url = req.url;
  secret = req.secret;
  rate_limit = if is_positive req.rate_limit then req.rate_limit else pos 100;
  is_active = true;
  created_at = now;
  updated_at = now;
}

unfoldable pub handle_create_endpoint :
    (Text → Option Text)
    → (Text → Option CreateEndpointRequest)
    → Context
    → Time
    → Text
    → HttpRequest
    → State
    → Response × State
handle_create_endpoint scheme_of decode ctx now uuid r a =
    admitted (codes "POST") r
      (λ a. elim (decode r.body) [
        | none ↦ (failed 400 "invalid request body", a)
        | some req ↦ elim (validate_endpoint scheme_of (new_endpoint now uuid r req)) [
          | some e ↦ (failed 400 (error_text e), a)
          | none ↦
              let (stored, repo) = create_endpoint ctx now (new_endpoint now uuid r req) a.repo in
              let a' : State = record a { repo = repo } in
              elim stored [
                | err e ↦
                    if is_duplicate_key e
                    then (failed 409 "endpoint already exists", a')
                    else (failed 500 "failed to create endpoint", a')
                | ok u ↦ (created 201 (new_endpoint now uuid r req), a')
              ]
        ]
      ])
      a

unfoldable pub handle_list_endpoints :
    Ranging Endpoint → Context → HttpRequest → State → Response × State
handle_list_endpoints visits ctx r a =
    admitted (codes "GET") r
      (λ a.
        let (found, repo) = get_endpoints_by_tenant visits ctx r.tenant a.repo in
        elim found [
          | err e ↦ (failed 500 "failed to retrieve endpoints", record a { repo = repo })
          | ok eps ↦ (endpoints 200 eps, record a { repo = repo })
        ])
      a

unfoldable pub handle_list_dlq : Ranging Event → Context → HttpRequest → State → Response × State
handle_list_dlq visits ctx r a =
    admitted (codes "GET") r
      (λ a.
        let (found, repo) = get_dlq_events visits ctx r.tenant (pos 50) (pos 0) a.repo in
        elim found [
          | err e ↦ (failed 500 "failed to retrieve DLQ events", record a { repo = repo })
          | ok es ↦ (events 200 es, record a { repo = repo })
        ])
      a

-- The text of the error in the last message is left out.
unfoldable pub handle_replay_dlq :
    (Text → Option (List Text)) → Context → Time → HttpRequest → State → Response × State
handle_replay_dlq decode ctx now r a =
    admitted (codes "POST") r
      (λ a. elim (decode r.body) [
        | none ↦ (failed 400 "invalid request JSON", a)
        | some ids ↦
            if length ids == 0
            then (failed 400 "event_ids array cannot be empty", a)
            else if ltb 100 (length ids)
            then (failed 400 "event_ids batch size cannot exceed 100", a)
            else (let (done, repo) = replay_dlq_events ctx now r.tenant ids a.repo in
                elim done [
                  | err e ↦ (failed 500 "failed to replay events", record a { repo = repo })
                  | ok n ↦ (counted 200 n, record a { repo = repo })
                ])
      ])
      a
