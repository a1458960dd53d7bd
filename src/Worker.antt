-- ===== src/Worker.antt =====
-- internal/worker/pool.go: the workers that deliver queued events, and the recovery of idle messages.
pub mod Delivery
pub mod Settle
pub mod Pipeline
pub mod Loops
pub mod Lifecycle
pub mod Recovery
pub mod Redelivery
pub mod Claims
use web_hook_project.Prelude.{
  ℕ, zero, suc, ◌+◌, ◌*◌, Bool, true, false, not, ◌&&◌, ◌||◌, List, [], ◌∷◌, ◌++◌, Option, none,
  some, Text, codes, ◌==◌, nat_eq, text_eq, if◌then◌else◌, ltb, keep, Map, get, put,
}
use web_hook_project.Prelude.Errors.{Error, Result, ok, err, Context}
use web_hook_project.Prelude.Int.{ℤ, pos, is_positive, ltb_ℤ, pos_part}
use web_hook_project.Prelude.Sorting.{Ranging}
use web_hook_project.Domain.{
  Time, Endpoint, Event, EventStatus, DeliveryAttempt, DeliveryStatus, is_empty, is_dlq,
  is_delivered,
}
use web_hook_project.Storage.{
  MemoryRepository, get_event, get_endpoints_by_tenant, update_event_status,
}
use web_hook_project.Queue.{QueueMessage, MemoryStreamQueue, ack_event}
use web_hook_project.Relay.{System, on_repo, on_queue, milliseconds}
use web_hook_project.Dispatcher.{Exchange, Dispatched, dispatch}

pub record Config : Type 0 where
  pub num_workers : ℤ
  pub stream_name : Text
  pub group_name : Text
  pub batch_size : ℤ
  pub poll_interval : ℤ
  pub min_idle_duration : ℤ
  pub claim_interval : ℤ
  pub max_claim_attempts : ℤ

abbrev pub positive_or : ℤ → ℕ → ℤ
positive_or x d = if is_positive x then x else pos d

abbrev pub named_or : Text → Text → Text
named_or s d = if is_empty s then d else s

-- The configuration that NewWorkerPool works with.
unfoldable pub with_defaults : Config → Config
with_defaults c = record {
  num_workers = positive_or c.num_workers 10;
  stream_name = named_or c.stream_name (codes "stream:events:pending");
  group_name = named_or c.group_name (codes "worker-group");
  batch_size = positive_or c.batch_size 10;
  poll_interval = positive_or c.poll_interval (milliseconds 100);
  min_idle_duration = positive_or c.min_idle_duration (milliseconds 10_000);
  claim_interval = positive_or c.claim_interval (milliseconds 5_000);
  max_claim_attempts = positive_or c.max_claim_attempts 5;
}

-- What one attempt finds: the context before it, the exchange, and the context during the wait.
pub record AttemptTurn : Type 0 where
  pub at_loop : Context
  pub exchange : Exchange
  pub at_wait : Context

-- What one message finds.
pub record MessageTurn : Type 0 where
  pub at_guard : Context
  pub at_endpoints : Context
  pub at_event : Context
  pub visits : Ranging Endpoint
  pub at_endpoint : Endpoint → Context
  pub attempts : Endpoint → ℕ → AttemptTurn

-- `return` from processMessage, or on to what follows.
pub data Flow : Type 0 where
  returns continues : Flow

-- Where a run stands: how it left, the attempts that were made, and the repository; `none` is out of
-- fuel.
abbrev pub Run : Type 0
Run = Option (Flow × List DeliveryAttempt × MemoryRepository)

abbrev pub made : Dispatched → List DeliveryAttempt
made d = elim d.attempt [ none ↦ [] | some a ↦ a ∷ [] ]

abbrev pub is_retrying : Dispatched → Bool
is_retrying d = elim d.attempt [
  | none ↦ false
  | some a ↦ elim a.status [
    | DeliveryStatus.success ↦ false
    | DeliveryStatus.retrying ↦ true
    | DeliveryStatus.failed ↦ false
  ]
]

abbrev pub with_attempts : List DeliveryAttempt → Run → Run
with_attempts before none = none
with_attempts before (some (f, seen, m)) = some (f, before ++ seen, m)

-- The event was delivered or is in the dead letter queue.
abbrev pub is_settled : EventStatus → Bool
is_settled s = is_delivered s || is_dlq s

-- The event that a message describes, for one that is not stored.
abbrev pub event_of : QueueMessage → Event
event_of msg = record {
  id = msg.event_id;
  tenant_id = msg.tenant_id;
  event_type = msg.event_type;
  idempotency_key = [];
  payload = msg.payload;
  status = EventStatus.pending;
  created_at = msg.created_at;
}

abbrev pub event_or : QueueMessage → Result Event → Event
event_or msg (ok e) = e
event_or msg (err e) = event_of msg

abbrev pub is_fenced : Result Event → Bool
is_fenced (ok e) = is_settled e.status
is_fenced (err e) = false

module _ (hmac_hex : Text → Text → Text) (status_text : ℕ → Text) (max_retries : ℤ) where
  -- The attempts at one endpoint from number `n` on.
  unfoldable pub attempt_loop :
      ℕ → (ℕ → AttemptTurn) → Endpoint → Event → ℕ → MemoryRepository → Run
  attempt_loop zero turns ep e n m = none
  attempt_loop (suc fuel) turns ep e n m = elim (turns n).at_loop [
    | some ended ↦ some (returns, [], m)
    | none ↦
        let (d, m') =
          dispatch hmac_hex status_text max_retries (turns n).exchange (some ep) (some e) (pos n)
            m in
        let again = with_attempts (made d) (attempt_loop fuel turns ep e (suc n) m') in
        if not (is_retrying d)
        then some (continues, made d, m')
        else if ltb_ℤ max_retries (pos (suc n))
        then some (continues, made d, m')
        else (elim (turns n).at_wait [ some ended ↦ some (returns, made d, m') | none ↦ again ])
  ]

  -- The fuel of a loop over attempts.
  abbrev pub enough : ℕ
  enough = suc (pos_part max_retries)

  unfoldable pub endpoint_loop : MessageTurn → Event → List Endpoint → MemoryRepository → Run
  endpoint_loop t e [] m = some (continues, [], m)
  endpoint_loop t e (ep ∷ eps) m = elim (t.at_endpoint ep) [
    | some ended ↦ some (returns, [], m)
    | none ↦ elim (attempt_loop enough (t.attempts ep) ep e 1 m) [
      | none ↦ none
      | some (returns, seen, m') ↦ some (returns, seen, m')
      | some (continues, seen, m') ↦ with_attempts seen (endpoint_loop t e eps m')
    ]
  ]

  abbrev pub is_active : Endpoint → Bool
  is_active ep = ep.is_active

  -- What processMessage does behind its guard and its look at the endpoints.
  abbrev pub deliver_to : MessageTurn → QueueMessage → List Endpoint → MemoryRepository → Run
  deliver_to t msg [] m = some (returns, [], m)
  deliver_to t msg (ep ∷ eps) m =
      let (found, m') = get_event t.at_event msg.event_id m in
      endpoint_loop t (event_or msg found) (ep ∷ eps) m'

  unfoldable pub process_message : MessageTurn → QueueMessage → MemoryRepository → Run
  process_message t msg m =
      if is_empty msg.tenant_id
      then some (returns, [], m)
      else (let (latest, m) = get_event t.at_guard msg.event_id m in
          if is_fenced latest
          then some (returns, [], m)
          else (let (found, m) = get_endpoints_by_tenant t.visits t.at_endpoints msg.tenant_id m in
              elim found [
                | err e ↦ some (returns, [], m)
                | ok eps ↦ deliver_to t msg (keep is_active eps) m
              ]))

  -- The system, with the attempts that were made.
  pub record Handled : Type 0 where
    pub system : System
    pub attempts : List DeliveryAttempt

  -- processMessage, and the acknowledgement that follows however it left; the error of the
  -- acknowledgement is dropped.
  unfoldable pub handle_message :
      Config → MessageTurn → Context → QueueMessage → System → Option Handled
  handle_message c t at_ack msg s = elim (process_message t msg s.repo) [
    | none ↦ none
    | some (f, seen, repo) ↦ some (record {
      system = record {
        repo = repo;
        queue = (ack_event at_ack c.stream_name c.group_name (msg.id ∷ []) s.queue).1;
      };
      attempts = seen;
    })
  ]

  abbrev pub count_of : Text → Map Text ℕ → ℕ
  count_of id counts = elim (get id counts) [ none ↦ 0 | some n ↦ n ]

  -- One claimed message in pelRecoveryLoop; `counts` is claimAttempts.
  unfoldable pub handle_claimed :
      Config
      → MessageTurn
      → Context
      → Context
      → QueueMessage
      → Map Text ℕ
      → System
      → Option Handled × Map Text ℕ
  handle_claimed c t at_update at_ack msg counts s =
      let count = suc (count_of msg.id counts) in
      let counts' = put msg.id count counts in
      if ltb_ℤ c.max_claim_attempts (pos count)
      then (
        some (record {
          system = record {
            repo = (update_event_status at_update msg.event_id EventStatus.dlq s.repo).1;
            queue = (ack_event at_ack c.stream_name c.group_name (msg.id ∷ []) s.queue).1;
          };
          attempts = [];
        }),
        counts',
      )
      else (handle_message c t at_ack msg s, counts')
