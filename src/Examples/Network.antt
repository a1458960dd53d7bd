-- ===== src/Examples/Network.antt =====
-- Addresses, signatures, streams and the clients at concrete inputs.
use Prim.Native.String.{String}
use web_hook_project.Prelude.{
  ℕ, ◌+◌, ◌%◌, Bool, true, false, List, [], ◌∷◌, ◌++◌, map, Option, none, some, ◌≡◌, refl, ap,
  arith, codes, Text, text_eq, text_beq, nat_eq, ◌==◌, if◌then◌else◌, All, get, put, subst,
}
use web_hook_project.Prelude.Errors.{Error, message, Result, ok, err}
use web_hook_project.Prelude.Int.{ℤ, pos}
use web_hook_project.Domain.{Time, Event, EventStatus, DeliveryAttempt}
use web_hook_project.Signature.{verify_signature}
use web_hook_project.WebhookClient.Signature.{
  verify_signature_trimmed, verify_signature_trimmed_lem, trim_space, trim_from, trim_right,
  space_size,
}
use web_hook_project.Dispatcher.Restricted.{is_restricted_ip, mapped_prefix}
use web_hook_project.Dispatcher.Ranges.{
  v4, value4, in_ranges, restricted_ranges, is_restricted_ip_lem,
}
use web_hook_project.Dispatcher.Dial.{Net, IsPublic, dial_context, dial_context-IsPublic}
use web_hook_project.MockReceiver.Handlers.{Request, Call, serve, new_mock_server_with_capacity}
use web_hook_project.MockReceiver.Flaky.{serve_all, count_attempts, status_of, every_third_succeeds}
use web_hook_project.Queue.Redis.{StreamsClient, new_redis_stream_queue, read_events}
use web_hook_project.Queue.Wire.{Published, kept_message, entry_of, read_published}
use web_hook_project.Api.Broker.{new_broker, connect}
use web_hook_project.Api.Stream.{
  Happening, broadcasts, pings, takes, others_come, broadcasts_of, all_happen, texts,
  stream_sends_all,
}
use web_hook_project.Storage.{create_event_with_outbox, reserve_key, insert_event}
use web_hook_project.Storage.Invariant.{new-IsValid}
use web_hook_project.Api.{
  State, IngestEventResponse, response_of, handle_ingest_event, ingest_body, persist, conclude,
}
use web_hook_project.WebhookClient.Requests.{
  Client, new_client, Answer, PublishResult, publish, call, trim_slashes, Payload, raw_message,
  bytes, value, byte_slice,
}
use web_hook_project.WebhookClient.Published.{Stored, published, publish_stores}
use web_hook_project.Examples.Requests.{decode, is_json, turn, empty_state}
use web_hook_project.Examples.Data.{order_event}
use web_hook_project.Examples.Deliveries.{one_digit, first_attempt}

-- The no-break space U+00A0 in front, an em space U+2003 and a line feed behind.
trims_spaces : trim_space (194 ∷ 160 ∷ 116 ∷ 226 ∷ 128 ∷ 131 ∷ 10 ∷ []) ≡ codes "t"
unfolding trim_from trim_right space_size
trims_spaces = refl

verify_signature_trimmed_lem_example :
    verify_signature_trimmed one_digit
      (pos 100)
      (codes "s")
      (codes "t=90,v1=a")
      (codes "x")
      (pos 60)
    ≡ verify_signature one_digit (pos 100) (codes "s") (codes "t=90,v1=a") (codes "x") (pos 60)
unfolding text_beq
verify_signature_trimmed_lem_example =
    verify_signature_trimmed_lem one_digit (pos 100) (codes "s") (codes "t=90,v1=a") (codes "x")
      (pos 60) (λ key msg. (refl, tt)) refl
      (refl, (refl, (refl, (refl, (refl, (refl, (refl, (refl, (refl, tt)))))))))

-- The metadata address of clouds.
is_restricted_ip_lem_example :
    (is_restricted_ip (some (v4 169 254 169 254))
      ≡ in_ranges restricted_ranges (value4 169 254 169 254))
    × (is_restricted_ip (some (mapped_prefix ++ v4 169 254 169 254))
        ≡ in_ranges restricted_ranges (value4 169 254 169 254))
is_restricted_ip_lem_example =
    is_restricted_ip_lem 169 254 169 254 (omega arith) (omega arith) (omega arith) (omega arith)

-- A name that means a public address at the first lookup and the local host at the dialer's.
abbrev rebinding : Net
rebinding = record {
  split_host_port = λ addr. ok (addr, codes "80");
  join_host_port = λ host port. host;
  parse_ip = λ host.
      if host == codes "1.1.1.1"
      then some (v4 1 1 1 1)
      else if host == codes "127.0.0.1"
      then some (v4 127 0 0 1)
      else none;
  lookup_ip = λ host. ok (v4 1 1 1 1 ∷ []);
  resolve = λ addr. ok (codes "127.0.0.1" ∷ codes "1.1.1.1" ∷ []);
  connect = λ addr. none;
}

dial_context-IsPublic_example :
    All (IsPublic rebinding) (dial_context rebinding false (codes "evil.test")).contacted
dial_context-IsPublic_example = dial_context-IsPublic rebinding (codes "evil.test")

abbrev flaky_request : Request
flaky_request = record {
  method = codes "POST";
  url = codes "/webhook/flaky";
  path = codes "/webhook/flaky";
  delay = [];
  headers = (codes "X-Webhook-Id", codes "e1" ∷ []) ∷ [];
  body = some (ok (codes "1"));
}

abbrev flaky_call : Call
flaky_call = record { uuid = codes "u"; now = 3; written_now = codes "now" }

abbrev no_duration : Text → Result ℤ
no_duration s = err (message "time: invalid duration")

every_third_succeeds_example :
    status_of
      (serve no_duration
        (λ d. false)
        flaky_call
        flaky_request
        (serve_all no_duration
          (λ d. false)
          ((flaky_call, flaky_request) ∷ (flaky_call, flaky_request) ∷ [])
          (new_mock_server_with_capacity (pos 5)))).0
    ≡ some (
        if (count_attempts
                (codes "e1")
                ((flaky_call, flaky_request) ∷ (flaky_call, flaky_request) ∷ [])
              + 1)
            % 3
          == 0
        then 200
        else 500)
unfolding text_beq get
every_third_succeeds_example =
    every_third_succeeds no_duration (λ d. false) (pos 5)
      ((flaky_call, flaky_request) ∷ (flaky_call, flaky_request) ∷ []) flaky_call flaky_request refl
      refl

encoded : DeliveryAttempt → Text
encoded a = a.id

-- Two attempts with a ping, a read and another client between them.
abbrev busy_stream : List Happening
busy_stream =
    broadcasts first_attempt ∷ pings ∷ takes ∷ others_come 8 ∷ broadcasts first_attempt ∷ []

stream_sends_all_example :
    let p = all_happen (λ a. ok (encoded a)) busy_stream (connect 7 new_broker) in
    (buffer : List DeliveryAttempt) × (get 7 p.1.clients ≡ some buffer)
    × (texts p.0.written ++ map encoded buffer ≡ map encoded (broadcasts_of busy_stream))
stream_sends_all_example =
    stream_sends_all (λ a. ok (encoded a)) encoded (λ a. refl) 7 new_broker busy_stream
      (omega arith, ((λ e. absurd (omega arith)), (omega arith, tt)))

-- A time as one byte, and a server with one entry.
abbrev one_byte : Time → Text
one_byte t = t ∷ []

abbrev read_byte : Text → Option Time
read_byte [] = none
read_byte (t ∷ s) = some t

abbrev one_published : List Published
one_published = record { now = 6; id = codes "1-1"; event = order_event } ∷ []

abbrev quiet : Error → Bool
quiet e = false

abbrev one_entry : StreamsClient
one_entry = record {
  Server = Bool;
  x_add = λ args s. (ok (codes "1-1"), s);
  x_group_create_mk_stream = λ stream group start s. (ok tt, s);
  x_read_group = λ args s. (
    ok (
        (codes "s", map (entry_of one_byte read_byte read_byte quiet (λ t. refl)) one_published)
        ∷ []),
    true,
  );
  x_ack = λ stream group ids s. (ok 1, s);
  x_auto_claim = λ args s. (ok ([], codes "0-0"), s);
}

read_published_example :
    read_events one_byte read_byte read_byte quiet one_entry new_redis_stream_queue
      (codes "s")
      (codes "g")
      (codes "w")
      (pos 1)
      (pos 1)
      false
    ≡ (ok (map kept_message one_published), true)
unfolding text_beq
read_published_example =
    read_published one_byte read_byte read_byte quiet (λ t. refl) one_entry new_redis_stream_queue
      (codes "s") (codes "g") (codes "w") (pos 1) (pos 1) one_published false true refl refl refl

-- JSON by plain bytes.
abbrev status_text : EventStatus → Text
status_text EventStatus.pending = codes "PENDING"
status_text EventStatus.delivered = codes "DELIVERED"
status_text EventStatus.failed = codes "FAILED"
status_text EventStatus.dlq = codes "DLQ"

abbrev status_byte : EventStatus → ℕ
status_byte EventStatus.pending = 0
status_byte EventStatus.delivered = 1
status_byte EventStatus.failed = 2
status_byte EventStatus.dlq = 3

abbrev byte_text : ℕ → Text
byte_text n =
    if n == 0
    then codes "PENDING"
    else if n == 1
    then codes "DELIVERED"
    else if n == 2
    then codes "FAILED"
    else codes "DLQ"

abbrev plain_bytes : IngestEventResponse → Result (List ℕ)
plain_bytes r = ok (r.created_at ∷ status_byte r.status ∷ r.id)

abbrev read_result : Text → Result PublishResult
read_result (t ∷ st ∷ id) = ok (record { id = id; status = byte_text st; created_at = t })
read_result other = err (message "unexpected end of JSON input")

byte_text_lem : (st : EventStatus) → byte_text (status_byte st) ≡ status_text st
byte_text_lem EventStatus.pending = refl
byte_text_lem EventStatus.delivered = refl
byte_text_lem EventStatus.failed = refl
byte_text_lem EventStatus.dlq = refl

reads_back :
    (e : Event) (body : Text)
    → response_of decode is_json plain_bytes e ≡ ok body
    → read_result body
      ≡ ok (record { id = e.id; status = status_text e.status; created_at = e.created_at })
reads_back e body h =
    let same : e.created_at ∷ status_byte e.status ∷ e.id ≡ body = cc h in
    subst
      (λ b.
        read_result b
        ≡ ok (record { id = e.id; status = status_text e.status; created_at = e.created_at }))
      same
      (ap (λ s. ok (record { id = e.id; status = s; created_at = e.created_at }))
        (byte_text_lem e.status))

abbrev no_error : String → Text
no_error s = []

abbrev as_given : Text → Payload → Result Text
as_given event_type (raw_message b) = ok b
as_given event_type (bytes b) = ok b
as_given event_type (value v) = ok v

abbrev field_error : Text → Option Text
field_error body = none

abbrev shop_client : Client
shop_client = new_client (codes "https://hooks.test/") (codes "t1") []

abbrev publication : Answer PublishResult × State
publication =
    published decode is_json plain_bytes no_error as_given read_result field_error status_text
      reads_back turn shop_client (codes "order") (byte_slice (codes "1")) empty_state

publish_stores_example :
    Stored decode is_json plain_bytes no_error as_given read_result field_error status_text
      reads_back shop_client
      (record { id = codes "evt_u"; status = codes "PENDING"; created_at = 6 })
      empty_state
      publication.1
unfolding publish call new_client trim_slashes handle_ingest_event ingest_body persist conclude
    create_event_with_outbox reserve_key insert_event get put text_beq
publish_stores_example =
    publish_stores decode is_json plain_bytes no_error as_given read_result field_error status_text
      reads_back turn shop_client (codes "order") (byte_slice (codes "1")) empty_state publication.1
      (record { id = codes "evt_u"; status = codes "PENDING"; created_at = 6 }) new-IsValid
      (omega arith) refl
