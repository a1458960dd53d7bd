-- ===== src/Storage/History.antt =====
-- internal/storage/memory.go: the repository under any sequence of the methods that write.
use web_hook_project.Prelude.{
  ℕ, suc, ◌+◌, ◌^◌, ◌≤◌, ◌<◌, List, [], ◌∷◌, none, some, ◌≡◌, ◌≢◌, inl, inr, refl, arith, Map, get,
  Text, text_eq, nat_eq, length, Option-cases,
}
use web_hook_project.Prelude.Errors.{Context}
use web_hook_project.Domain.{
  Time, Tenant, Endpoint, Event, EventStatus, OutboxEvent, DeliveryAttempt,
}
use web_hook_project.Storage.{
  MemoryRepository, new_memory_repository, create_tenant, create_endpoint, create_event_with_outbox,
  mark_outbox_published, record_delivery_attempt, update_event_status, replay_dlq_events,
  idempotency_key_of,
}
use web_hook_project.Storage.Invariant.{IsValid, new-IsValid, create_event_with_outbox-IsValid}
use web_hook_project.Storage.Updates.{
  mark_outbox_published-IsValid, update_event_status-IsValid, replay_dlq_events-IsValid,
}
use web_hook_project.Storage.Create.{create_cases, one_event_in}
use web_hook_project.Storage.Replay.{replay_all-counts}

-- A call of a method that writes. The outbox record of a new event names it.
pub data Write : Type 0 where
  creates_tenant : Context → Time → Tenant → Write
  creates_endpoint : Context → Time → Endpoint → Write
  creates_event : Context → Time → Event → OutboxEvent → Write
  marks_published : Context → Time → ℕ → Write
  records_attempt : Context → Time → DeliveryAttempt → Write
  updates_status : Context → Text → EventStatus → Write
  replays : Context → Time → Text → List Text → Write

-- What a call leaves, whether it succeeds or fails.
unfoldable pub written : Write → MemoryRepository → MemoryRepository
written (creates_tenant ctx now t) m = (create_tenant ctx now t m).1
written (creates_endpoint ctx now ep) m = (create_endpoint ctx now ep m).1
written (creates_event ctx now e ob) m =
    (create_event_with_outbox ctx now e (record ob { event_id = e.id }) m).1
written (marks_published ctx now id) m = (mark_outbox_published ctx now id m).1
written (records_attempt ctx now a) m = (record_delivery_attempt ctx now a m).1
written (updates_status ctx id status) m = (update_event_status ctx id status m).1
written (replays ctx now tenant ids) m = (replay_dlq_events ctx now tenant ids m).1

unfoldable pub all_written : List Write → MemoryRepository → MemoryRepository
all_written [] m = m
all_written (w ∷ ws) m = all_written ws (written w m)

-- The most outbox ids that calls take.
unfoldable pub ids_of : List Write → ℕ
ids_of [] = 0
ids_of (creates_event ctx now e ob ∷ ws) = 1 + ids_of ws
ids_of (replays ctx now tenant ids ∷ ws) = length ids + ids_of ws
ids_of (w ∷ ws) = ids_of ws

-- A valid repository whose counter has gone up by at most `n`.
abbrev Follows : ℕ → MemoryRepository → MemoryRepository → Type 0
Follows n m m' = IsValid m' × (m'.next_outbox_id ≤ m.next_outbox_id + n)

-- The other maps do not matter to the invariant.
beside-IsValid :
    (m : MemoryRepository) (ts : Map Text Tenant) (eps : Map Text Endpoint)
    (attempts : Map Text DeliveryAttempt)
    → IsValid m
    → IsValid (record m { tenants = ts; endpoints = eps; attempts = attempts })
beside-IsValid m ts eps attempts v = record {
  rising = v.rising;
  bounded = v.bounded;
  named = v.named;
  backed = v.backed;
  queued = v.queued;
  indexed = v.indexed;
}

create_tenant-Follows :
    (ctx : Context) (now : Time) (t : Tenant) (m : MemoryRepository)
    → IsValid m
    → Follows 0 m (create_tenant ctx now t m).1
unfolding create_tenant
create_tenant-Follows (some e) now t m v = (v, omega arith)
create_tenant-Follows none now t m v = elim (Option-cases (get t.id m.tenants)) [
  | inl fresh ↦ rw fresh (beside-IsValid m _ m.endpoints m.attempts v, omega arith)
  | inr (x, used) ↦ rw used (v, omega arith)
]

create_endpoint-Follows :
    (ctx : Context) (now : Time) (ep : Endpoint) (m : MemoryRepository)
    → IsValid m
    → Follows 0 m (create_endpoint ctx now ep m).1
unfolding create_endpoint
create_endpoint-Follows (some e) now ep m v = (v, omega arith)
create_endpoint-Follows none now ep m v = elim (Option-cases (get ep.id m.endpoints)) [
  | inl fresh ↦ rw fresh (beside-IsValid m m.tenants _ m.attempts v, omega arith)
  | inr (x, used) ↦ rw used (v, omega arith)
]

record_delivery_attempt-Follows :
    (ctx : Context) (now : Time) (a : DeliveryAttempt) (m : MemoryRepository)
    → IsValid m
    → Follows 0 m (record_delivery_attempt ctx now a m).1
unfolding record_delivery_attempt
record_delivery_attempt-Follows (some e) now a m v = (v, omega arith)
record_delivery_attempt-Follows none now a m v = elim (Option-cases (get a.id m.attempts)) [
  | inl fresh ↦ rw fresh (beside-IsValid m m.tenants m.endpoints _ v, omega arith)
  | inr (x, used) ↦ rw used (v, omega arith)
]

mark_outbox_published-counts :
    (ctx : Context) (now : Time) (id : ℕ) (m : MemoryRepository)
    → (mark_outbox_published ctx now id m).1.next_outbox_id ≡ m.next_outbox_id
unfolding mark_outbox_published
mark_outbox_published-counts (some e) now id m = refl
mark_outbox_published-counts none now id m = elim (Option-cases (get id m.outbox_events)) [
  | inl missing ↦ rw missing refl
  | inr (ob, stored) ↦ rw stored refl
]

update_event_status-counts :
    (ctx : Context) (id : Text) (status : EventStatus) (m : MemoryRepository)
    → (update_event_status ctx id status m).1.next_outbox_id ≡ m.next_outbox_id
unfolding update_event_status
update_event_status-counts (some e) id status m = refl
update_event_status-counts none id status m = elim (Option-cases (get id m.events)) [
  | inl missing ↦ rw missing refl
  | inr (e, stored) ↦ rw stored refl
]

create_event-counts :
    (ctx : Context) (now : Time) (e : Event) (ob : OutboxEvent) (m : MemoryRepository)
    → suc m.next_outbox_id < 2 ^ 63
    → (create_event_with_outbox ctx now e ob m).1.next_outbox_id ≤ m.next_outbox_id + 1
unfolding create_event_with_outbox
create_event-counts (some x) now e ob m room = omega arith
create_event-counts none now e ob m room = elim (create_cases now e ob m) [
  | inl (i, refused) ↦ rw (refused, create_event_with_outbox) (omega arith)
  | inr (i, reserved, fresh, done) ↦ rw (done, create_event_with_outbox) (omega arith)
]

replay_dlq_events-counts :
    (ctx : Context) (now : Time) (tenant : Text) (ids : List Text) (m : MemoryRepository)
    → length ids + m.next_outbox_id + 1 < 2 ^ 63
    → (replay_dlq_events ctx now tenant ids m).1.next_outbox_id ≤ m.next_outbox_id + length ids
unfolding replay_dlq_events
replay_dlq_events-counts (some e) now tenant ids m room = omega arith
replay_dlq_events-counts none now tenant ids m room =
    omega (arith, replay_all-counts tenant now ids m room)

written-Follows :
    (w : Write) (m : MemoryRepository)
    → IsValid m
    → ids_of (w ∷ []) + m.next_outbox_id + 1 < 2 ^ 63
    → Follows (ids_of (w ∷ [])) m (written w m)
unfolding written ids_of
written-Follows (creates_tenant ctx now t) m v room = create_tenant-Follows ctx now t m v
written-Follows (creates_endpoint ctx now ep) m v room = create_endpoint-Follows ctx now ep m v
written-Follows (creates_event ctx now e ob) m v room = (
  create_event_with_outbox-IsValid ctx now e (record ob { event_id = e.id }) m v (omega arith) refl,
  create_event-counts ctx now e (record ob { event_id = e.id }) m (omega arith),
)
written-Follows (marks_published ctx now id) m v room = (
  mark_outbox_published-IsValid ctx now id m v,
  omega (arith, mark_outbox_published-counts ctx now id m),
)
written-Follows (records_attempt ctx now a) m v room = record_delivery_attempt-Follows ctx now a m v
written-Follows (updates_status ctx id status) m v room = (
  update_event_status-IsValid ctx id status m v,
  omega (arith, update_event_status-counts ctx id status m),
)
written-Follows (replays ctx now tenant ids) m v room = (
  replay_dlq_events-IsValid ctx now tenant ids m v (omega arith),
  omega (arith, replay_dlq_events-counts ctx now tenant ids m (omega arith)),
)

ids_of-cons : (w : Write) (ws : List Write) → ids_of (w ∷ ws) ≡ ids_of (w ∷ []) + ids_of ws
unfolding ids_of
ids_of-cons (creates_tenant ctx now t) ws = omega arith
ids_of-cons (creates_endpoint ctx now ep) ws = omega arith
ids_of-cons (creates_event ctx now e ob) ws = omega arith
ids_of-cons (marks_published ctx now id) ws = omega arith
ids_of-cons (records_attempt ctx now a) ws = omega arith
ids_of-cons (updates_status ctx id status) ws = omega arith
ids_of-cons (replays ctx now tenant ids) ws = omega arith

all_written-IsValid :
    (ws : List Write) (m : MemoryRepository)
    → IsValid m
    → ids_of ws + m.next_outbox_id + 1 < 2 ^ 63
    → IsValid (all_written ws m)
unfolding all_written
all_written-IsValid [] m v room = v
all_written-IsValid (w ∷ ws) m v room =
    let split = ids_of-cons w ws in
    let (valid, grown) = written-Follows w m v (omega arith) in
    all_written-IsValid ws (written w m) valid (omega arith)

-- Whatever writing methods were called on a new repository, and whether they succeeded or failed: two
-- stored events with the same index key of tenant and idempotency key are one event, if neither
-- idempotency key is empty and the calls could take fewer than 2 ^ 63 - 1 outbox ids.
pub one_event_per_key :
    (ws : List Write) (j k : Text) (x y : Event)
    → ids_of ws + 1 < 2 ^ 63
    → get j (all_written ws new_memory_repository).events ≡ some x
    → get k (all_written ws new_memory_repository).events ≡ some y
    → x.idempotency_key ≢ []
    → y.idempotency_key ≢ []
    → idempotency_key_of x ≡ idempotency_key_of y
    → j ≡ k
one_event_per_key ws j k x y room hx hy nx ny same =
    one_event_in (all_written ws new_memory_repository) j k x y
      (all_written-IsValid ws new_memory_repository new-IsValid (omega arith)) hx hy nx ny same
