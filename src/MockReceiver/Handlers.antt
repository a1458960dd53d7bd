-- ===== src/MockReceiver/Handlers.antt =====
-- cmd/mockreceiver/main.go: the server's handlers and routes.
use web_hook_project.Prelude.{
  ℕ, ◌*◌, ◌%◌, ◌^◌, Bool, true, List, [], ◌∷◌, ◌++◌, Option, none, some, Text, codes, ◌==◌, text_eq,
  nat_eq, if◌then◌else◌, Map, get,
}
use web_hook_project.Prelude.Errors.{Result, ok, err}
use web_hook_project.Prelude.Int.{ℤ, pos}
use web_hook_project.Prelude.Decimal.{parse_int}
use web_hook_project.Domain.{Time, is_empty}
use web_hook_project.Signature.{bits, of_bits}
use web_hook_project.MockReceiver.{
  CapturedRequest, RingBuffer, new_ring_buffer, add, get_all, clear, FlakyState, new_flaky_state,
  next_attempt, reset,
}

-- MockServer; the router is `serve` below.
pub record MockServer : Type 0 where
  pub buffer : RingBuffer
  pub flaky_state : FlakyState

-- NewMockServerWithCapacity and NewMockServer
abbrev pub new_mock_server_with_capacity : ℤ → MockServer
new_mock_server_with_capacity capacity = record {
  buffer = new_ring_buffer capacity;
  flaky_state = new_flaky_state;
}

abbrev pub new_mock_server : MockServer
new_mock_server = new_mock_server_with_capacity (pos 50)

-- Reset
abbrev pub reset_server : MockServer → MockServer
reset_server s = record { buffer = clear s.buffer; flaky_state = reset s.flaky_state }

-- A request: its headers under their canonical names, and what reading its body gives, where it has one.
pub record Request : Type 0 where
  pub method : Text
  pub url : Text
  pub path : Text
  pub delay : Text
  pub headers : Map Text (List Text)
  pub body : Option (Result Text)

pub data Json : Type 0 where
  string : Text → Json
  number : ℕ → Json
  boolean : Bool → Json

pub data Body : Type 0 where
  no_body : Body
  plain : Text → Body
  object : List (Text × Json) → Body
  requests : List CapturedRequest → Body

pub record Response : Type 0 where
  pub status : ℕ
  pub body : Body

-- What one call of a handler finds: the request's UUID, the time, and how the handler's time is written.
pub record Call : Type 0 where
  pub uuid : Text
  pub now : Time
  pub written_now : Text

-- A handler; no response where the client has gone.
abbrev pub Handler : Type 0
Handler = Call → Request → MockServer → Option Response × MockServer

abbrev pub first_value : Option (List Text) → Text
first_value none = []
first_value (some []) = []
first_value (some (v ∷ vs)) = v

-- r.Header.Get
abbrev pub header : Text → Request → Text
header name r = first_value (get name r.headers)

-- The first header, or else the second.
abbrev pub header_or : Text → Text → Request → Text
header_or name other r = if is_empty (header name r) then header other r else header name r

abbrev pub webhook_id_of : Request → Text
webhook_id_of r = header_or (codes "X-Webhook-Id") (codes "Svix-Id") r

abbrev pub captured_request : Call → Request → Text → CapturedRequest
captured_request c r body = record {
  id = c.uuid;
  url = r.url;
  method = r.method;
  headers = r.headers;
  signature = header_or (codes "X-Webhook-Signature") (codes "Svix-Signature") r;
  webhook_id = webhook_id_of r;
  body = body;
  received_at = c.now;
}

abbrev pub read_all : Option (Result Text) → Result Text
read_all none = ok []
read_all (some read) = read

unfoldable pub capture_request : Call → Request → MockServer → Result Text × MockServer
capture_request c r s = elim (read_all r.body) [
  | err e ↦ (err e, s)
  | ok body ↦ (ok body, record s { buffer = add (captured_request c r body) s.buffer })
]

abbrev pub respond : ℕ → Body → Option Response
respond status body = some (record { status = status; body = body })

abbrev pub failed_to_read : Option Response
failed_to_read = respond 500 (plain (codes "{\"error\":\"failed to read body\"}"))

-- A handler behind the request's capture.
abbrev pub captured_then : (Call → Request → MockServer → Option Response × MockServer) → Handler
captured_then next c r s =
    let (captured, s) = capture_request c r s in
    elim captured [ err e ↦ (failed_to_read, s) | ok body ↦ next c r s ]

abbrev pub success_body : Call → List (Text × Json)
success_body c =
    (codes "status", string (codes "success"))
    ∷ (codes "received", boolean true)
    ∷ (codes "received_at", string c.written_now)
    ∷ []

unfoldable pub handle_webhook_success : Handler
handle_webhook_success c r s =
    captured_then (λ c r s. (respond 200 (object (success_body c)), s)) c r s

abbrev pub flaky_response : Call → ℕ → Option Response
flaky_response c attempt =
    if attempt % 3 == 0
    then respond 200 (object (success_body c ++ ((codes "attempt", number attempt) ∷ [])))
    else respond 500 (
        object (
          (codes "status", string (codes "error"))
          ∷ (codes "error", string (codes "intermittent_failure"))
          ∷ (codes "attempt", number attempt)
          ∷ []))

unfoldable pub handle_webhook_flaky : Handler
handle_webhook_flaky c r s =
    captured_then
      (λ c r s.
        let (attempt, flaky) = next_attempt (webhook_id_of r) s.flaky_state in
        (flaky_response c attempt, record s { flaky_state = flaky }))
      c r s

unfoldable pub handle_webhook_poison : Handler
handle_webhook_poison c r s =
    captured_then
      (λ c r s. (
        respond 400 (
            object (
              (codes "error", string (codes "poison_pill_rejected"))
              ∷ (codes "status", string (codes "rejected"))
              ∷ [])),
        s,
      ))
      c r s

-- time.Duration(ms) * time.Millisecond on int64
abbrev pub ms64 : ℤ → ℤ
ms64 ms = of_bits (bits ms * 10 ^ 6 % 2 ^ 64)

-- `parse_duration` is time.ParseDuration.
module _ (parse_duration : Text → Result ℤ) where
  unfoldable pub slow_delay : Request → ℤ
  slow_delay r = if is_empty r.delay then pos (4 * 10 ^ 9) else (elim (parse_duration r.delay) [
    | ok d ↦ d
    | err e ↦ elim (parse_int r.delay) [ none ↦ pos (4 * 10 ^ 9) | some ms ↦ ms64 ms ]
  ])

  -- `gone` tells whether the client leaves before a delay has passed.
  unfoldable pub handle_webhook_slow : (ℤ → Bool) → Handler
  handle_webhook_slow gone c r s =
      captured_then
        (λ c r s. if gone (slow_delay r) then (none, s) else (
          respond 200 (
              object (
                (codes "status", string (codes "success"))
                ∷ (codes "slow", boolean true)
                ∷ (codes "received_at", string c.written_now)
                ∷ [])),
          s,
        ))
        c r s

  unfoldable pub handle_inspect_logs : Handler
  handle_inspect_logs c r s = (respond 200 (requests (get_all s.buffer)), s)

  unfoldable pub handle_inspect_clear : Handler
  handle_inspect_clear c r s = (
    respond 200 (object ((codes "status", string (codes "cleared")) ∷ [])),
    record s { buffer = clear s.buffer },
  )

  unfoldable pub handle_health : Handler
  handle_health c r s = (respond 200 (object ((codes "status", string (codes "ok")) ∷ [])), s)

  -- The patterns of the mux, which are whole paths.
  unfoldable pub routed : (ℤ → Bool) → Handler
  routed gone c r s =
      if r.path == codes "/webhook/success"
      then handle_webhook_success c r s
      else if r.path == codes "/webhook/flaky"
      then handle_webhook_flaky c r s
      else if r.path == codes "/webhook/poison"
      then handle_webhook_poison c r s
      else if r.path == codes "/webhook/slow"
      then handle_webhook_slow gone c r s
      else if r.path == codes "/inspect/logs"
      then handle_inspect_logs c r s
      else if r.path == codes "/requests"
      then handle_inspect_logs c r s
      else if r.path == codes "/inspect/clear"
      then handle_inspect_clear c r s
      else if r.path == codes "/healthz"
      then handle_health c r s
      else if r.path == codes "/health"
      then handle_health c r s
      else (respond 404 (plain (codes "404 page not found")), s)

  -- The routes behind corsMiddleware, whose headers are not part of a response here.
  unfoldable pub serve : (ℤ → Bool) → Handler
  serve gone c r s =
      if r.method == codes "OPTIONS" then (respond 204 no_body, s) else routed gone c r s
