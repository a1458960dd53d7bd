-- ===== src/Dispatcher.antt =====
-- internal/dispatcher/client.go: one delivery of an event to an endpoint.
pub mod Delivery
pub mod Restricted
pub mod Ranges
pub mod Dial
pub mod Build
use Prim.Native.String.{String}
use web_hook_project.Prelude.{
  ℕ, Bool, true, false, not, ◌&&◌, List, [], ◌∷◌, ◌++◌, Option, none, some, Text, codes, ◌==◌,
  nat_eq, text_eq, if◌then◌else◌, leb, ltb,
}
use web_hook_project.Prelude.Errors.{Error, message, wrap, Result, ok, err, Context}
use web_hook_project.Prelude.Int.{ℤ, pos, is_positive, ltb_ℤ}
use web_hook_project.Prelude.Decimal.{decimal, decimal_ℤ}
use web_hook_project.Domain.{Time, Endpoint, Event, EventStatus, DeliveryAttempt, DeliveryStatus}
use web_hook_project.Storage.{MemoryRepository, record_delivery_attempt, update_event_status}
use web_hook_project.Signature.{sign_payload}
use web_hook_project.Retry.{is_retryable}

-- The request that is sent: a POST with these headers.
pub record Request : Type 0 where
  pub url : Text
  pub body : List ℕ
  pub webhook_id : Text
  pub webhook_timestamp : Text
  pub webhook_signature : Text

-- What `client.Do` gives: a response, an error, or both; the body is what the reader of at most 4096
-- bytes returned.
pub record Reply : Type 0 where
  pub response : Option (ℕ × Text)
  pub http_err : Option Text

-- What one delivery finds: the times, the fresh UUID, the contexts of its two writes, whether the
-- request can be made, and the receiver.
pub record Exchange : Type 0 where
  pub unix_now : ℤ
  pub create_err : Option Error
  pub receiver : Request → Reply
  pub start : Time
  pub duration_ms : ℕ
  pub uuid : Text
  pub at_record : Context
  pub at_update : Context
  pub record_time : Time

-- The attempt and the error that Dispatch returns, and the attempts that its callback was given.
pub record Dispatched : Type 0 where
  pub attempt : Option DeliveryAttempt
  pub error : Option Error
  pub notified : List DeliveryAttempt

abbrev pub failed_with : Error → Dispatched
failed_with e = record { attempt = none; error = some e; notified = [] }

abbrev pub status_of : Reply → ℕ
status_of r = elim r.response [ none ↦ 0 | some (status, body) ↦ status ]

abbrev pub body_of : Reply → Text
body_of r = elim r.response [ none ↦ [] | some (status, body) ↦ body ]

abbrev pub has_failed : Reply → Bool
has_failed r = elim r.http_err [ none ↦ false | some e ↦ true ]

abbrev pub is_2xx : ℕ → Bool
is_2xx status = leb 200 status && ltb status 300

-- The status of an attempt.
unfoldable pub classify : ℤ → ℤ → Reply → DeliveryStatus
classify max_retries attempt r =
    if not (has_failed r) && is_2xx (status_of r)
    then DeliveryStatus.success
    else if is_retryable (status_of r) (has_failed r) && ltb_ℤ attempt max_retries
    then DeliveryStatus.retrying
    else DeliveryStatus.failed

-- The update of the event behind an attempt; its error is dropped.
unfoldable pub settle : Context → Text → DeliveryStatus → MemoryRepository → MemoryRepository
settle ctx id DeliveryStatus.success m = (update_event_status ctx id EventStatus.delivered m).1
settle ctx id DeliveryStatus.failed m = (update_event_status ctx id EventStatus.dlq m).1
settle ctx id DeliveryStatus.retrying m = m

-- `if attemptNum <= 0 { attemptNum = 1 }`
abbrev pub at_least_one : ℤ → ℤ
at_least_one n = if is_positive n then n else pos 1

-- A dispatcher that has a repository and a callback. `hmac_hex` is the MAC of the signatures,
-- `status_text` is http.StatusText, and `max_retries` is the policy's, after NewDispatcher.
module _ (hmac_hex : Text → Text → Text) (status_text : ℕ → Text) (max_retries : ℤ) where
  abbrev pub request_of : ℤ → Endpoint → Event → Request
  request_of ts ep e = record {
    url = ep.url;
    body = e.payload;
    webhook_id = e.id;
    webhook_timestamp = decimal_ℤ ts;
    webhook_signature = sign_payload hmac_hex ep.secret ts e.payload;
  }

  abbrev pub error_message : Reply → Text
  error_message r = elim r.http_err [
    | some e ↦ e
    | none ↦
        if is_2xx (status_of r)
        then []
        else codes "HTTP " ++ (decimal (status_of r) ++ (codes ": " ++ status_text (status_of r)))
  ]

  abbrev pub attempt_of : Exchange → Endpoint → Event → ℤ → Reply → DeliveryAttempt
  attempt_of x ep e n r = record {
    id = codes "att_" ++ x.uuid;
    event_id = e.id;
    endpoint_id = ep.id;
    attempt_number = n;
    response_status = status_of r;
    response_body = body_of r;
    duration_ms = x.duration_ms;
    status = classify max_retries n r;
    error_message = error_message r;
    executed_at = x.start;
  }

  -- The writes of a delivery whose request was sent, and its callback.
  unfoldable pub conclude :
      Exchange → DeliveryAttempt → MemoryRepository → Dispatched × MemoryRepository
  conclude x a m =
      let (recorded, m') = record_delivery_attempt x.at_record x.record_time a m in
      elim recorded [
        | err e ↦ (
          record {
            attempt = some a;
            error = some (wrap "failed to record delivery attempt" e);
            notified = [];
          },
          m',
        )
        | ok u ↦ (
          record { attempt = some a; error = none; notified = a ∷ [] },
          settle x.at_update a.event_id a.status m',
        )
      ]

  unfoldable pub dispatch :
      Exchange
      → Option Endpoint
      → Option Event
      → ℤ
      → MemoryRepository
      → Dispatched × MemoryRepository
  dispatch x none e n m = (failed_with (message "endpoint cannot be nil"), m)
  dispatch x (some ep) none n m = (failed_with (message "event cannot be nil"), m)
  dispatch x (some ep) (some e) n m = elim x.create_err [
    | some bad ↦ (failed_with (wrap "failed to create http request" bad), m)
    | none ↦
        let reply = x.receiver (request_of x.unix_now ep e) in
        conclude x (attempt_of x ep e (at_least_one n) reply) m
  ]
