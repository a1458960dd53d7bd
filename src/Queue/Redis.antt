-- ===== src/Queue/Redis.antt =====
-- internal/queue/stream.go: RedisStreamQueue. The client's commands are parameters.
use Prim.Native.String.{String}
use web_hook_project.Prelude.{
  ℕ, Bool, true, false, List, [], ◌∷◌, ◌++◌, map, Option, none, some, Text, codes, text_eq, nat_eq,
  if◌then◌else◌, Map, get,
}
use web_hook_project.Prelude.Errors.{
  Error, nil_event, empty_stream, empty_group, wrap, is_redis_nil, Result, ok, err, Exec,
}
use web_hook_project.Prelude.Int.{ℤ, pos, is_positive}
use web_hook_project.Domain.{Time, or_now, Event, is_empty}
use web_hook_project.Queue.{QueueMessage}

-- The types that a field's value may have in the client.
pub data Value : Type 0 where
  text bytes : Text → Value
  other : Value

-- redis.XMessage
pub record XMessage : Type 0 where
  pub id : Text
  pub values : Map Text Value

pub record XAddArgs : Type 0 where
  pub stream : Text
  pub values : Map Text Value
  pub max_len : ℤ
  pub approx : Bool

pub record XReadGroupArgs : Type 0 where
  pub group : Text
  pub consumer : Text
  pub streams : List Text
  pub count : ℤ
  pub block : ℤ

pub record XAutoClaimArgs : Type 0 where
  pub stream : Text
  pub group : Text
  pub consumer : Text
  pub min_idle : ℤ
  pub start : Text
  pub count : ℤ

-- The commands of the client on its server.
pub record StreamsClient : Type 1 where
  pub Server : Type 0
  pub x_add : XAddArgs → Exec Server Text
  pub x_group_create_mk_stream : Text → Text → Text → Exec Server (Unit {0})
  pub x_read_group : XReadGroupArgs → Exec Server (List (Text × List XMessage))
  pub x_ack : Text → Text → List Text → Exec Server ℕ
  pub x_auto_claim : XAutoClaimArgs → Exec Server (List XMessage × Text)

-- RedisStreamQueue beside its client; NewRedisStreamQueue
pub record RedisStreamQueue : Type 0 where
  pub max_len_approx : ℤ

abbrev pub new_redis_stream_queue : RedisStreamQueue
new_redis_stream_queue = record { max_len_approx = pos 500000 }

abbrev pub with_max_len_approx : ℤ → RedisStreamQueue → RedisStreamQueue
with_max_len_approx max_len q = record { max_len_approx = max_len }

-- The error of a command under a text.
abbrev pub under : {A B : Type 0} {S : Type 0} → String → (A → B) → Result A × S → Result B × S
under s f (ok a, st) = (ok (f a), st)
under s f (err e, st) = (err (wrap s e), st)

abbrev pub text_at : Text → Map Text Value → Text
text_at k m = elim (get k m) [ some (text v) ↦ v | _ ↦ [] ]

abbrev pub payload_at : Map Text Value → Text
payload_at m = elim (get (codes "payload") m) [ some (text v) ↦ v | some (bytes v) ↦ v | _ ↦ [] ]

abbrev pub or_ten : ℤ → ℤ
or_ten count = if is_positive count then count else pos 10

-- `format` is Format(time.RFC3339Nano) of a UTC time, `parse_nano` and `parse_seconds` are time.Parse
-- with RFC3339Nano and RFC3339, and `says_busy_group` is strings.Contains(err.Error(), "BUSYGROUP").
module _ (format : Time → Text) (parse_nano parse_seconds : Text → Option Time)
    (says_busy_group : Error → Bool) where
  abbrev pub time_at : Option Value → Time
  time_at (some (text v)) = elim (parse_nano v) [
    | some t ↦ t
    | none ↦ elim (parse_seconds v) [ some t ↦ t | none ↦ 0 ]
  ]
  time_at _ = 0

  unfoldable pub parse_redis_message : XMessage → QueueMessage
  parse_redis_message msg = record {
    id = msg.id;
    event_id = text_at (codes "event_id") msg.values;
    tenant_id = text_at (codes "tenant_id") msg.values;
    event_type = text_at (codes "event_type") msg.values;
    payload = payload_at msg.values;
    created_at = time_at (get (codes "created_at") msg.values);
  }

  unfoldable pub values_of : Time → Event → Map Text Value
  values_of now e =
      (codes "event_id", text e.id)
      ∷ (codes "tenant_id", text e.tenant_id)
      ∷ (codes "event_type", text e.event_type)
      ∷ (codes "payload", text e.payload)
      ∷ (codes "created_at", text (format (or_now now e.created_at)))
      ∷ []

  abbrev pub add_args : RedisStreamQueue → Time → Text → Event → XAddArgs
  add_args q now stream e =
      if is_positive q.max_len_approx
      then record {
        stream = stream;
        values = values_of now e;
        max_len = q.max_len_approx;
        approx = true;
      }
      else record { stream = stream; values = values_of now e; max_len = pos 0; approx = false }

  module _ (client : StreamsClient) (q : RedisStreamQueue) where
    unfoldable pub publish_event : Time → Text → Option Event → Exec client.Server Text
    publish_event now stream none s = (err nil_event, s)
    publish_event now stream (some e) s =
        if is_empty stream
        then (err empty_stream, s)
        else under "redis xadd error" (λ id. id) (client.x_add (add_args q now stream e) s)

    abbrev pub created : {S : Type 0} → Result (Unit {0}) × S → Result (Unit {0}) × S
    created (ok _, s) = (ok tt, s)
    created (err e, s) =
        if says_busy_group e then (ok tt, s) else (err (wrap "redis xgroup create error" e), s)

    unfoldable pub create_consumer_group : Text → Text → Text → Exec client.Server (Unit {0})
    create_consumer_group stream group start s =
        if is_empty stream
        then (err empty_stream, s)
        else if is_empty group
        then (err empty_group, s)
        else created (
            client.x_group_create_mk_stream stream group
              (if is_empty start then codes "$" else start) s)

    abbrev pub parse_all : List XMessage → List QueueMessage
    parse_all = map parse_redis_message

    -- The two loops over the streams and their messages.
    unfoldable pub parse_streams : List (Text × List XMessage) → List QueueMessage
    parse_streams [] = []
    parse_streams ((_, msgs) ∷ rest) = parse_all msgs ++ parse_streams rest

    abbrev pub read :
        {S : Type 0} → Result (List (Text × List XMessage)) × S → Result (List QueueMessage) × S
    read (ok res, s) = (ok (parse_streams res), s)
    read (err e, s) =
        if is_redis_nil e then (ok [], s) else (err (wrap "redis xreadgroup error" e), s)

    unfoldable pub read_events : Text → Text → Text → ℤ → ℤ → Exec client.Server (List QueueMessage)
    read_events stream group consumer count block s =
        if is_empty stream
        then (err empty_stream, s)
        else if is_empty group
        then (err empty_group, s)
        else read (
            client.x_read_group
              (record {
                group = group;
                consumer = consumer;
                streams = stream ∷ codes ">" ∷ [];
                count = or_ten count;
                block = block;
              })
              s)

    unfoldable pub ack_event : Text → Text → List Text → Exec client.Server (Unit {0})
    ack_event stream group [] s = (ok tt, s)
    ack_event stream group (id ∷ ids) s =
        if is_empty stream
        then (err empty_stream, s)
        else if is_empty group
        then (err empty_group, s)
        else under "redis xack error" (λ n. tt) (client.x_ack stream group (id ∷ ids) s)

    abbrev pub claimed :
        {S : Type 0} → Result (List XMessage × Text) × S → Result (List QueueMessage × Text) × S
    claimed (ok (res, next), s) = (ok (parse_all res, next), s)
    claimed (err e, s) =
        if is_redis_nil e
        then (ok ([], codes "0-0"), s)
        else (err (wrap "redis xautoclaim error" e), s)

    unfoldable pub auto_claim :
        Text → Text → Text → ℤ → Text → ℤ → Exec client.Server (List QueueMessage × Text)
    auto_claim stream group consumer min_idle start count s =
        if is_empty stream
        then (err empty_stream, s)
        else if is_empty group
        then (err empty_group, s)
        else claimed (
            client.x_auto_claim
              (record {
                stream = stream;
                group = group;
                consumer = consumer;
                min_idle = min_idle;
                start = if is_empty start then codes "0-0" else start;
                count = or_ten count;
              })
              s)
