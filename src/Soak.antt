-- ===== src/Soak.antt =====
-- cmd/soak/main.go: the destination and the load of the soak test, and its verdict.
use web_hook_project.Prelude.{
  ℕ, zero, suc, ◌+◌, ◌-◌, ◌/◌, ◌%◌, ◌≤◌, ◌<◌, ◌^◌, Bool, true, false, not, ◌&&◌, ◌||◌, List, [],
  ◌∷◌, ◌++◌, Option, none, some, Text, codes, ◌==◌, nat_eq, if◌then◌else◌, ltb, length, ◌↔◌, ◌≡◌,
  refl, arith,
}
use web_hook_project.Prelude.Errors.{Context}
use web_hook_project.Prelude.Int.{ℤ, pos, negsuc}
use web_hook_project.Prelude.Decimal.{decimal, decimal_ℤ}
use web_hook_project.Domain.{
  Time, Tenant, Endpoint, Event, EventStatus, OutboxEvent, OutboxStatus, DeliveryAttempt,
  DeliveryStatus,
}
use web_hook_project.Storage.{
  MemoryRepository, create_tenant, create_endpoint, create_event_with_outbox,
}
use web_hook_project.Storage.Invariant.{IsValid, create_event_with_outbox-IsValid}
use web_hook_project.Queue.{Wait, publish_event, read_events}
use web_hook_project.Relay.{System, on_repo, on_queue, milliseconds}
use web_hook_project.Retry.{Float64, BackoffPolicy}
use web_hook_project.Worker.{Config}
use web_hook_project.Api.{HttpRequest}
use web_hook_project.Api.Broker.{Broker, broadcast}

abbrev pub soak_stream_name : Text
soak_stream_name = codes "stream:soak:events"

abbrev pub soak_group_name : Text
soak_group_name = codes "soak-worker-group"

-- The status with which the destination answers its n-th request.
unfoldable pub destination_status : ℕ → ℕ
destination_status n = if n % 80 == 0 then 400 else if n % 40 == 0 then 500 else 200

abbrev pub soak_policy : (f : Float64) → BackoffPolicy f
soak_policy f = record {
  initial_interval = pos (milliseconds 10);
  max_interval = pos (milliseconds 100);
  multiplier = f.two;
  max_retries = pos 3;
  rand_func = none;
}

abbrev pub soak_config : Config
soak_config = record {
  num_workers = pos 8;
  stream_name = soak_stream_name;
  group_name = soak_group_name;
  batch_size = pos 25;
  poll_interval = pos (milliseconds 10);
  min_idle_duration = pos (milliseconds 50);
  claim_interval = pos (milliseconds 50);
  max_claim_attempts = pos 0;
}

-- The broker and the counters that the dispatcher's callback works on.
pub record Totals : Type 0 where
  pub broker : Broker
  pub delivered : ℕ
  pub dlq : ℕ
  pub retries : ℕ

abbrev pub counted : DeliveryStatus → Totals → Totals
counted DeliveryStatus.success t = record t { delivered = suc t.delivered }
counted DeliveryStatus.failed t = record t { dlq = suc t.dlq }
counted DeliveryStatus.retrying t = record t { retries = suc t.retries }

unfoldable pub on_attempt : DeliveryAttempt → Totals → Totals
on_attempt a t = counted a.status (record t { broker = broadcast (some a) t.broker })

unfoldable pub on_attempts : List DeliveryAttempt → Totals → Totals
on_attempts [] t = t
on_attempts (a ∷ rest) t = on_attempts rest (on_attempt a t)

-- The tenant of the n-th event.
abbrev pub tenant_name : ℕ → Text
tenant_name n =
    let r = n % 4 in
    if r == 0
    then codes "tenant_prod_alpha"
    else if r == 1
    then codes "tenant_prod_beta"
    else if r == 2
    then codes "tenant_prod_gamma"
    else codes "tenant_prod_delta"

-- The tenant and the endpoint with index `i`; `destination` is the URL of the destination.
abbrev pub soak_tenant : ℕ → Tenant
soak_tenant i = record {
  id = tenant_name i;
  name = codes "Production Tenant " ++ decimal (suc i);
  created_at = 0;
}

abbrev pub soak_endpoint : Text → ℕ → Endpoint
soak_endpoint destination i = record {
  id = codes "ep_soak_" ++ decimal (suc i);
  tenant_id = tenant_name i;
  url = destination;
  secret = codes "whsec_soak_key_" ++ decimal (suc i);
  rate_limit = pos 1000;
  is_active = true;
  created_at = 0;
  updated_at = 0;
}

-- The loop over the tenants from index `i` on, `n` of them; the errors of its calls are dropped.
unfoldable pub provision :
    Text → (ℕ → Context × Context) → (ℕ → Time × Time) → ℕ → ℕ → MemoryRepository → MemoryRepository
provision destination ctx now zero i m = m
provision destination ctx now (suc n) i m =
    let m1 = (create_tenant (ctx i).0 (now i).0 (soak_tenant i) m).1 in
    let m2 = (create_endpoint (ctx i).1 (now i).1 (soak_endpoint destination i) m1).1 in
    provision destination ctx now n (suc i) m2

-- What one tick of the injector finds: the times, the contexts of its calls, and the waits of its read.
pub record CrashTurn : Type 0 where
  pub unix_nano : ℤ
  pub now : Time
  pub at_create : Context
  pub create_time : Time
  pub at_publish : Context
  pub publish_time : Time
  pub at_read : Context
  pub read_time : Time
  pub waits : List Wait

abbrev pub crash_event : CrashTurn → ℕ → Event
crash_event t n = record {
  id = codes "evt_pel_chaos_" ++ (decimal_ℤ t.unix_nano ++ (codes "_" ++ decimal n));
  tenant_id = tenant_name n;
  event_type = codes "order.pel_stress";
  idempotency_key = [];
  payload =
      codes "{\"crash_id\":"
      ++ (decimal n ++ (codes ",\"tenant\":\"" ++ (tenant_name n ++ codes "\"}")));
  status = EventStatus.pending;
  created_at = t.now;
}

abbrev pub crash_outbox : CrashTurn → ℕ → OutboxEvent
crash_outbox t n = record {
  id = 0;
  event_id = (crash_event t n).id;
  status = OutboxStatus.pending;
  retry_count = 0;
  created_at = 0;
  processed_at = none;
}

-- The tick that makes the crash counter `n`: an event is stored and published, and a message is read
-- by a consumer that never acknowledges it. The errors of the calls are dropped.
unfoldable pub inject_crash : CrashTurn → ℕ → System → System
inject_crash t n s =
    let e = crash_event t n in
    let s1 =
      (on_repo (create_event_with_outbox t.at_create t.create_time e (crash_outbox t n)) s).1 in
    let s2 =
      (on_queue (publish_event t.at_publish t.publish_time soak_stream_name (some e)) s1).1 in
    let consumer = codes "crashed-worker-" ++ decimal n in
    (on_queue
      (read_events soak_stream_name soak_group_name consumer (pos 1) (pos 0) t.at_read t.read_time
        t.waits)
      s2).1

-- The producer's interval for a rate per second; the division by a rate of 0 panics.
unfoldable pub producer_interval : ℤ → Option ℕ
producer_interval (pos zero) = none
producer_interval (pos (suc n)) =
    let interval = 1_000_000_000 / suc n in
    some (if interval == 0 then milliseconds 1 else interval)
producer_interval (negsuc n) = some (milliseconds 1)

-- The producer's request with the sequence number `seq`.
abbrev pub produced : ℤ → ℕ → HttpRequest
produced unix_milli seq = record {
  method = codes "POST";
  tenant = tenant_name seq;
  idempotency_key = codes "idemp_soak_" ++ decimal seq;
  body =
      codes "{\"event_type\":\"payment.processed\",\"payload\":{\"seq\":"
      ++ (decimal seq
          ++ (codes ",\"amount\":"
              ++ (decimal (1000 + seq % 500)
                  ++ (codes ",\"timestamp\":" ++ (decimal_ℤ unix_milli ++ codes "}}")))));
}

-- `if dataLoss < 0 { dataLoss = 0 }` is the subtraction's stop at 0.
unfoldable pub data_loss : ℕ → ℕ → ℕ → ℕ
data_loss ingested delivered dlq = ingested - (delivered + dlq)

-- The two Booleans are the comparisons of float64: more than 10 MB in the end, and more than 4096 bytes
-- for each event.
unfoldable pub mem_leak : Bool → Bool → ℕ → Bool
mem_leak is_large grows peak_goroutines = (is_large && grows) || ltb 150 peak_goroutines

-- Whether the status is "PASSED (100% STABLE & ZERO LOSS VERIFIED)", and so the exit code 0.
unfoldable pub has_passed : ℕ → ℕ → Bool → Bool
has_passed ingested loss leak = not (ltb (ingested / 100) loss || leak)

-- Each attempt adds one to exactly one of the counters.
on_attempts_lem :
    (attempts : List DeliveryAttempt) (t : Totals)
    → let t' = on_attempts attempts t in
      t'.delivered + t'.dlq + t'.retries ≡ t.delivered + t.dlq + t.retries + length attempts
unfolding on_attempts on_attempt
on_attempts_lem [] t = omega arith
on_attempts_lem (a ∷ rest) t = ground (arith, on_attempts_lem rest (on_attempt a t))

-- Without a leak, a run passes just if the events that were neither delivered nor put in the dead
-- letter queue are at most one percent of those ingested.
has_passed_lem :
    (ingested delivered dlq : ℕ)
    → has_passed ingested (data_loss ingested delivered dlq) false ≡ true
      ↔ ingested ≤ delivered + dlq + ingested / 100
unfolding has_passed data_loss
has_passed_lem ingested delivered dlq = (λ h. ground arith, λ h. ground arith)

-- The injector keeps the repository valid.
inject_crash-IsValid :
    (t : CrashTurn) (n : ℕ) (s : System)
    → IsValid s.repo
    → suc s.repo.next_outbox_id < 2 ^ 63
    → IsValid (inject_crash t n s).repo
unfolding inject_crash
inject_crash-IsValid t n s v room =
    create_event_with_outbox-IsValid t.at_create t.create_time (crash_event t n) (crash_outbox t n)
      s.repo v room refl
