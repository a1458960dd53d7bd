-- ===== src/Examples/Requests.antt =====
-- The idempotency guard and the ingestion at concrete inputs.
use web_hook_project.Prelude.{
  ℕ, Bool, true, false, List, [], ◌∷◌, Option, none, some, ◌≡◌, ◌⊎◌, refl, arith, codes, Text,
  text_eq, nat_eq, text_beq, get, put, del,
}
use web_hook_project.Prelude.Errors.{Result, ok}
use web_hook_project.Prelude.Int.{pos}
use web_hook_project.Idempotency.{
  MemoryGuard, new_memory_guard, acquire_lock, set_response, release_lock, answer,
}
use web_hook_project.Idempotency.Lock.{response_crosses_tenants, granted}
use web_hook_project.Storage.{
  new_memory_repository, create_event_with_outbox, reserve_key, insert_event,
}
use web_hook_project.Api.{
  response_of, State, HttpRequest, IngestEventRequest, IngestEventResponse, IngestTurn, replayed,
  handle_ingest_event, ingest_locked, ingest_body, persist, conclude, release_if, idemp_ttl,
}
use web_hook_project.Domain.{Event}
use web_hook_project.Api.Stored.{Stores, ingest-Stores}
use web_hook_project.Storage.Invariant.{new-IsValid}
use web_hook_project.Api.Ingestion.{IsUnwritten, ingest_twice, ingest_failed_frees}

abbrev held_guard : MemoryGuard
held_guard = (acquire_lock none 5 (codes "t1") (codes "k1") (pos 100) new_memory_guard).1

abbrev answered_guard : MemoryGuard
answered_guard =
    (set_response none 5 (codes "a") (codes "b:c") 202 (codes "r") (pos 100) new_memory_guard).1

response_crosses_tenants_example :
    acquire_lock none 20 (codes "a:b") (codes "c") (pos 100) answered_guard ≡ (
      ok (record {
        acquired = false;
        cached = some (record { status_code = 202; body = codes "r"; completed_at = 5 });
      }),
      answered_guard,
    )
unfolding set_response put text_beq
response_crosses_tenants_example =
    response_crosses_tenants (codes "a") (codes "b") (codes "c") 5 20 202 (codes "r") (pos 100)
      (pos 100) new_memory_guard answered_guard (λ e. cc) refl (omega arith)

-- An empty body is not decoded; any other is the payload of an order.
abbrev pub decode : Text → Option IngestEventRequest
decode [] = none
decode (c ∷ s) = some (record { event_type = codes "order"; payload = c ∷ s })

abbrev pub is_json : Text → Bool
is_json t = true

abbrev marshal : IngestEventResponse → Result (List ℕ)
marshal r = ok r.id

abbrev request : Text → HttpRequest
request body = record {
  method = codes "POST";
  tenant = codes "t1";
  idempotency_key = codes "k1";
  body = body;
}

abbrev pub turn : IngestTurn
turn = record {
  at_lock = none;
  lock_time = 5;
  now = 6;
  uuid = codes "u";
  at_create = none;
  create_time = 7;
  at_release = none;
  at_store = none;
  store_time = 8;
}

abbrev pub empty_state : State
empty_state = record { repo = new_memory_repository; guard = new_memory_guard }

abbrev accepting : State
accepting = (handle_ingest_event decode is_json marshal turn (request (codes "1")) empty_state).1

ingest_twice_example :
    handle_ingest_event decode is_json marshal turn (request (codes "2")) accepting
    ≡ (replayed 202 (codes "evt_u"), accepting)
unfolding handle_ingest_event ingest_locked ingest_body persist conclude acquire_lock answer
    set_response create_event_with_outbox reserve_key insert_event get put text_beq
ingest_twice_example =
    ingest_twice decode is_json marshal turn turn (request (codes "1")) (request (codes "2"))
      empty_state accepting 202 (codes "evt_u") refl refl refl refl refl refl refl (omega arith)

ingest_failed_frees_example :
    ((acquire_lock none 9
        (codes "t1")
        (codes "k1")
        (pos 7)
        (handle_ingest_event decode is_json marshal turn (request []) empty_state).1.guard).0
      ≡ ok granted)
    ⊎ (((handle_ingest_event decode is_json marshal turn (request []) empty_state).1.guard
          ≡ (acquire_lock none 5 (codes "t1") (codes "k1") idemp_ttl new_memory_guard).1)
        × IsUnwritten decode is_json marshal turn (request []) new_memory_repository)
unfolding handle_ingest_event ingest_locked ingest_body release_if release_lock acquire_lock answer
    get put del text_beq
ingest_failed_frees_example =
    ingest_failed_frees decode is_json marshal turn (request []) empty_state
      (handle_ingest_event decode is_json marshal turn (request []) empty_state).1
      (acquire_lock none 5 (codes "t1") (codes "k1") idemp_ttl new_memory_guard).1 400
      "invalid JSON payload" 9 (pos 7) refl refl refl refl refl refl

ingest-Stores_example :
    (e : Event) × (response_of decode is_json marshal e ≡ ok (codes "evt_u"))
    × Stores (request (codes "1")) e new_memory_repository accepting.repo
unfolding handle_ingest_event ingest_locked ingest_body persist conclude acquire_lock answer
    set_response create_event_with_outbox reserve_key insert_event get put text_beq
ingest-Stores_example =
    ingest-Stores decode is_json marshal turn (request (codes "1")) empty_state accepting 202
      (codes "evt_u") new-IsValid (omega arith) refl
