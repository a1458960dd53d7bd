-- ===== src/Examples/Deliveries.antt =====
-- Signatures, backoffs, deliveries and workers at concrete inputs.
use web_hook_project.Prelude.{
  ℕ, zero, suc, ◌+◌, ◌-◌, ◌*◌, ◌^◌, ◌<◌, ◌≤◌, ◌⊎◌, ◌↔◌, inl, inr, Bool, true, false, not, ◌&&◌,
  List, [], ◌∷◌, ◌++◌, Option, none, some, ◌≡◌, refl, arith, codes, Text, Map, text_eq, nat_eq,
  text_beq, get, put, values, length, ltb, ◌==◌,
}
use web_hook_project.Prelude.Int.{pos, ltb_ℤ, leb_ℤ, pos_part}
use web_hook_project.Prelude.Sorting.{in_order}
use web_hook_project.Domain.{DeliveryStatus, DeliveryAttempt, or_now}
use web_hook_project.Storage.{MemoryRepository}
use web_hook_project.Storage.Invariant.{IsValid}
use web_hook_project.Signature.{
  sign_payload, verify_signature, verify_signature_with_secrets, is_stale, to_sign,
}
use web_hook_project.Signature.Verify.{verify_signed, verify_rotated, is_stale_lem}
use web_hook_project.Retry.{Float64, BackoffPolicy, or_default, seconds, calculate_backoff}
use web_hook_project.Retry.Bounds.{calculate_backoff-bounds}
use web_hook_project.Dispatcher.{Exchange, Reply, classify, dispatch, attempt_of}
use web_hook_project.Dispatcher.Delivery.{dispatch_lem, classify_retrying, settled, IsWorthRetry}
use web_hook_project.Queue.{
  QueueMessage, Group, Stream, MemoryStreamQueue, set_stream, set_group, drop_all,
}
use web_hook_project.Relay.{System}
use web_hook_project.Worker.{
  Config, MessageTurn, AttemptTurn, Flow, endpoint_loop, handle_message, handle_claimed,
}
use web_hook_project.Worker.Delivery.{count_to, count_named, endpoint_loop_ends}
use web_hook_project.Worker.Recovery.{handle_message-unattended}
use web_hook_project.Worker.Claims.{
  Claim, counts_after, times_claimed, dead_lettered, handle_claimed_lem,
}
use web_hook_project.Examples.Data.{order_event, shop, stored_repo, stored-IsValid}

-- A stand-in for the MAC: one digit.
abbrev pub one_digit : Text → Text → Text
one_digit secret message = codes "a"

verify_signed_example :
    verify_signature one_digit
      (pos 100)
      (codes "s")
      (sign_payload one_digit (codes "s") (pos 90) (codes "x"))
      (codes "y")
      (pos 60)
    ≡ (not (is_stale (pos 60) (pos 100) (pos 90))
        && (one_digit (codes "s") (to_sign (pos 90) (codes "y"))
            == one_digit (codes "s") (to_sign (pos 90) (codes "x"))))
verify_signed_example =
    verify_signed one_digit (pos 100) (pos 90) (codes "s") (codes "s") (codes "x") (codes "y")
      (pos 60) (λ s m. (λ e. cc, ((omega arith, omega arith), tt))) (90, refl, omega arith)

verify_rotated_example :
    (verify_signature one_digit
        (pos 100)
        (codes "s")
        (sign_payload one_digit (codes "s") (pos 90) (codes "x"))
        (codes "x")
        (pos 60)
      ≡ true)
    × (verify_signature_with_secrets one_digit
          (pos 100)
          (codes "old" ∷ codes "s" ∷ [])
          (sign_payload one_digit (codes "s") (pos 90) (codes "x"))
          (codes "x")
          (pos 60)
        ≡ true)
unfolding is_stale
verify_rotated_example =
    verify_rotated one_digit (λ s m. (λ e. cc, ((omega arith, omega arith), tt))) (pos 100) (pos 90)
      (codes "old" ∷ []) [] (codes "s") (codes "x") (pos 60) (λ e. cc) (90, refl, omega arith) refl

is_stale_lem_example :
    (is_stale (pos 60) (pos 100) (pos 90) ≡ true) ↔ ((100 + 60 < 90) ⊎ (90 + 60 < 100))
is_stale_lem_example = is_stale_lem 59 100 90 (omega arith) (omega arith) (omega arith)

-- Whole numbers in place of float64; the power is left out.
abbrev whole_numbers : Float64
whole_numbers = record {
  F = ℕ;
  of_int = pos_part;
  two = 2;
  times = λ a b. a;
  pow = λ a b. a;
  gt = λ a b. ltb b a;
  at_most_one = λ a. ltb a 2;
  to_int = pos;
  to_int-of_int = λ n h. refl;
  to_int_le = λ i n k e h g. ground arith;
}

abbrev short_policy : BackoffPolicy whole_numbers
short_policy = record {
  initial_interval = pos 8;
  max_interval = pos 5;
  multiplier = 2;
  max_retries = pos 3;
  rand_func = none;
}

calculate_backoff-bounds_example :
    (leb_ℤ (pos 0) (calculate_backoff whole_numbers (λ n. n - 1) (pos 2) short_policy) ≡ true)
    × (leb_ℤ
          (calculate_backoff whole_numbers (λ n. n - 1) (pos 2) short_policy)
          (pos (or_default short_policy.max_interval (seconds 3600)))
        ≡ true)
unfolding or_default
calculate_backoff-bounds_example =
    calculate_backoff-bounds whole_numbers (λ n. n - 1) (pos 2) short_policy (λ n h. omega arith)
      refl (omega arith)

abbrev pub busy : Reply
busy = record { response = some (503, []); http_err = none }

abbrev pub fine : Reply
fine = record { response = some (200, []); http_err = none }

abbrev pub exchange : Reply → Exchange
exchange reply = record {
  unix_now = pos 90;
  create_err = none;
  receiver = λ r. reply;
  start = 10;
  duration_ms = 3;
  uuid = codes "u1";
  at_record = none;
  at_update = none;
  record_time = 11;
}

abbrev pub no_text : ℕ → Text
no_text n = []

abbrev pub first_attempt : DeliveryAttempt
first_attempt = attempt_of one_digit no_text (pos 3) (exchange fine) shop order_event (pos 1) fine

dispatch_lem_example :
    dispatch one_digit no_text
      (pos 3)
      (exchange fine)
      (some shop)
      (some order_event)
      (pos 1)
      stored_repo
    ≡ (
      record { attempt = some first_attempt; error = none; notified = first_attempt ∷ [] },
      record stored_repo {
        attempts =
            put first_attempt.id
              (record first_attempt { executed_at = or_now 11 first_attempt.executed_at })
              stored_repo.attempts;
        events = settled first_attempt.status (codes "e1") order_event stored_repo.events;
      },
    )
unfolding get text_beq
dispatch_lem_example =
    dispatch_lem one_digit no_text (pos 3) (exchange fine) shop order_event order_event (pos 1)
      stored_repo refl refl refl refl refl

classify_retrying_example :
    (classify (pos 3) (pos 1) busy ≡ DeliveryStatus.retrying)
    ↔ ((ltb_ℤ (pos 1) (pos 3) ≡ true) × IsWorthRetry busy)
classify_retrying_example = classify_retrying (pos 3) (pos 1) busy

abbrev attempt_turn : AttemptTurn
attempt_turn = record { at_loop = none; exchange = exchange busy; at_wait = none }

abbrev message_turn : MessageTurn
message_turn = record {
  at_guard = none;
  at_endpoints = none;
  at_event = none;
  visits = in_order;
  at_endpoint = λ ep. none;
  attempts = λ ep n. attempt_turn;
}

endpoint_loop_ends_example :
    (f : Flow) × (seen : List DeliveryAttempt) × (m' : MemoryRepository) × (endpoint_loop one_digit
        no_text
        (pos 3)
        message_turn
        order_event
        (shop ∷ [])
        stored_repo
      ≡ some (f, seen, m'))
    × IsValid m'
    × (length seen ≤ 1 * suc (3 - 1))
    × ((id : Text) → count_to id seen ≤ count_named id (shop ∷ []) * suc (3 - 1))
endpoint_loop_ends_example =
    endpoint_loop_ends one_digit no_text (pos 3) message_turn order_event (shop ∷ []) stored_repo
      stored-IsValid

abbrev pub order_message : QueueMessage
order_message = record {
  id = codes "1-1";
  event_id = codes "e1";
  tenant_id = codes "t1";
  event_type = codes "order";
  payload = codes "1";
  created_at = 5;
}

abbrev pub config : Config
config = record {
  num_workers = pos 1;
  stream_name = codes "s";
  group_name = codes "g";
  batch_size = pos 10;
  poll_interval = pos 1;
  min_idle_duration = pos 1;
  claim_interval = pos 1;
  max_claim_attempts = pos 2;
}

abbrev read_group : Group
read_group = record {
  next_idx = 1;
  pending =
      (codes "1-1", record { msg = order_message; delivery_time = 8; consumer = codes "w" }) ∷ [];
}

abbrev read_stream : Stream
read_stream = record {
  messages = order_message ∷ [];
  groups = (codes "g", read_group) ∷ [];
  notify_ch = 1;
}

abbrev read_queue : MemoryStreamQueue
read_queue = record { streams = (codes "s", read_stream) ∷ []; seq = 1 }

abbrev read_system : System
read_system = record { repo = stored_repo; queue = read_queue }

abbrev acked_queue : MemoryStreamQueue
acked_queue =
    set_stream (codes "s")
      (set_group (codes "g")
        (record read_group { pending = drop_all (codes "1-1" ∷ []) read_group.pending })
        read_stream)
      read_queue

handle_message-unattended_example :
    handle_message one_digit no_text (pos 3) config message_turn none order_message read_system
    ≡ some (record { system = record read_system { queue = acked_queue }; attempts = [] })
unfolding get text_beq web_hook_project.Prelude.keep
handle_message-unattended_example =
    handle_message-unattended one_digit no_text (pos 3) config message_turn order_message
      read_system read_stream read_group refl refl refl refl refl refl refl

-- The message was claimed twice, which is the limit.
abbrev claimed : Claim
claimed = record {
  message = order_message;
  turn = message_turn;
  at_update = none;
  at_ack = none;
  system = read_system;
}

handle_claimed_lem_example :
    handle_claimed one_digit no_text
      (pos 3)
      config
      message_turn
      none
      none
      order_message
      (counts_after one_digit no_text (pos 3) config (claimed ∷ claimed ∷ []) [])
      read_system
    ≡ (
      some (
          dead_lettered one_digit no_text
            (pos 3)
            config
            order_message
            read_system
            read_stream
            read_group
            order_event),
      put
          (codes "1-1")
          3
          (counts_after one_digit no_text (pos 3) config (claimed ∷ claimed ∷ []) []),
    )
unfolding get text_beq times_claimed
handle_claimed_lem_example =
    handle_claimed_lem one_digit no_text (pos 3) config 2 (claimed ∷ claimed ∷ []) message_turn
      order_message read_system read_stream read_group order_event refl refl refl refl refl refl
