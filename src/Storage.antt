-- ===== src/Storage.antt =====
-- internal/storage/memory.go: the in-memory repository. Each method holds the mutex from its first
-- look at the maps to its return, so it is one step on the state. `now` is the value of `time.Now()`.
pub mod Rows
pub mod Invariant
pub mod Updates
pub mod Create
pub mod Outbox
pub mod Replay
pub mod History
use web_hook_project.Prelude.{
  ℕ, suc, ◌+◌, ◌%◌, ◌^◌, Bool, true, false, not, ◌&&◌, ◌||◌, List, [], ◌∷◌, ◌++◌, Option, none,
  some, Text, codes, ◌==◌, text_eq, nat_eq, if◌then◌else◌, ltb, leb, length, take, drop, keep, Map,
  values, get, put,
}
use web_hook_project.Prelude.Errors.{
  Error, not_found, duplicate_key, Result, ok, err, Context, Exec, pure, fail, check, ◌>>=◌, ◌>>◌,
}
use web_hook_project.Prelude.Int.{ℤ, pos_part, is_positive, ltb_ℤ, leb_ℤ, pos}
use web_hook_project.Prelude.Sorting.{Ranging, sort_slice}
use web_hook_project.Domain.{
  Time, or_now, Tenant, Endpoint, Event, EventStatus, OutboxEvent, OutboxStatus, DeliveryAttempt,
  is_empty, is_dlq, is_pending,
}

-- `next_outbox_id` is the bit pattern of an int64, and so are the keys of `outbox_events`.
pub record MemoryRepository : Type 0 where
  pub tenants : Map Text Tenant
  pub endpoints : Map Text Endpoint
  pub events : Map Text Event
  pub outbox_events : Map ℕ OutboxEvent
  pub attempts : Map Text DeliveryAttempt
  pub idempotency_index : Map Text Text
  pub next_outbox_id : ℕ

-- NewMemoryRepository
abbrev pub new_memory_repository : MemoryRepository
new_memory_repository = record {
  tenants = [];
  endpoints = [];
  events = [];
  outbox_events = [];
  attempts = [];
  idempotency_index = [];
  next_outbox_id = 0;
}

-- `x++` on an int64, and `x < y` between two.
abbrev pub inc64 : ℕ → ℕ
inc64 n = (n + 1) % 2 ^ 64

abbrev pub less64 : ℕ → ℕ → Bool
less64 a b = ltb ((a + 2 ^ 63) % 2 ^ 64) ((b + 2 ^ 63) % 2 ^ 64)

-- `v, exists := m[k]; if !exists { return nil, ErrNotFound }`
abbrev pub found {ℓ} : {S : Type 0} {A : Type ℓ} → Option A → Exec S A
found none = fail not_found
found (some a) = pure a

-- `if _, exists := m[k]; exists { return ErrDuplicateKey }`
abbrev pub absent {ℓ} : {S : Type 0} {A : Type ℓ} → Option A → Exec S (Unit {0})
absent none = pure tt
absent (some a) = fail duplicate_key

abbrev pub write : {S : Type 0} → (S → S) → Exec S (Unit {0})
write f s = (ok tt, f s)

pub create_tenant : Context → Time → Tenant → Exec MemoryRepository (Unit {0})
create_tenant ctx now t m =
    (do
      check ctx
      absent (get t.id m.tenants)
      write (λ r. record r {
        tenants = put t.id (record t { created_at = or_now now t.created_at }) r.tenants;
      }))
      m

pub get_tenant : Context → Text → Exec MemoryRepository Tenant
get_tenant ctx id m = (do check ctx; found (get id m.tenants)) m

pub create_endpoint : Context → Time → Endpoint → Exec MemoryRepository (Unit {0})
create_endpoint ctx now ep m =
    (do
      check ctx
      absent (get ep.id m.endpoints)
      write (λ r. record r {
        endpoints =
            put ep.id
              (record ep {
                created_at = or_now now ep.created_at;
                updated_at = or_now now ep.updated_at;
              })
              r.endpoints;
      }))
      m

pub get_endpoint : Context → Text → Exec MemoryRepository Endpoint
get_endpoint ctx id m = (do check ctx; found (get id m.endpoints)) m

abbrev pub of_tenant : Text → Endpoint → Bool
of_tenant tenant ep = ep.tenant_id == tenant

unfoldable pub get_endpoints_by_tenant :
    Ranging Endpoint → Context → Text → Exec MemoryRepository (List Endpoint)
get_endpoints_by_tenant r ctx tenant m =
    (do check ctx; pure (keep (of_tenant tenant) (r.visit (values m.endpoints)))) m

-- event.TenantID + ":" + event.IdempotencyKey
abbrev pub idempotency_key_of : Event → Text
idempotency_key_of e = e.tenant_id ++ (b':' ∷ e.idempotency_key)

-- The check of the idempotency constraint. The index is written before the event id is checked.
unfoldable pub reserve_key : Event → Exec MemoryRepository (Unit {0})
reserve_key e m =
    if is_empty e.idempotency_key
    then (ok tt, m)
    else (do
      absent (get (idempotency_key_of e) m.idempotency_index)
      write (λ r. record r {
        idempotency_index = put (idempotency_key_of e) e.id r.idempotency_index;
      }))
        m

-- The caller's event and outbox record are written to as well; both come back.
abbrev pub stamped_event : Time → Event → Event
stamped_event now e = record e { created_at = or_now now e.created_at }

abbrev pub stamped_outbox : Time → ℕ → OutboxEvent → OutboxEvent
stamped_outbox now id ob = record ob { id = id; created_at = or_now now ob.created_at }

unfoldable pub insert_event :
    Time → Event → OutboxEvent → Exec MemoryRepository (Event × OutboxEvent)
insert_event now e ob m =
    (do
      absent (get e.id m.events)
      write (λ r. record r {
        next_outbox_id = inc64 m.next_outbox_id;
        events = put e.id (stamped_event now e) r.events;
        outbox_events =
            put (inc64 m.next_outbox_id) (stamped_outbox now (inc64 m.next_outbox_id) ob)
              r.outbox_events;
      })
      pure (stamped_event now e, stamped_outbox now (inc64 m.next_outbox_id) ob))
      m

unfoldable pub create_event_with_outbox :
    Context → Time → Event → OutboxEvent → Exec MemoryRepository (Event × OutboxEvent)
create_event_with_outbox ctx now e ob = do check ctx; reserve_key e; insert_event now e ob

abbrev pub is_pending_row : OutboxEvent → Bool
is_pending_row ob = is_pending ob.status

abbrev pub by_id : OutboxEvent → OutboxEvent → Bool
by_id a b = less64 a.id b.id

-- `if limit > 0 && len(xs) > limit { xs = xs[:limit] }`
unfoldable pub limited {ℓ} : {A : Type ℓ} → ℤ → List A → List A
limited limit xs = if is_positive limit then take (pos_part limit) xs else xs

unfoldable pub fetch_and_lock_pending_outbox :
    Ranging OutboxEvent → Context → ℤ → Exec MemoryRepository (List OutboxEvent)
fetch_and_lock_pending_outbox r ctx limit m =
    (do
      check ctx
      pure (
          limited limit
            (sort_slice by_id (keep is_pending_row (r.visit (values m.outbox_events))))))
      m

unfoldable pub mark_outbox_published : Context → Time → ℕ → Exec MemoryRepository (Unit {0})
mark_outbox_published ctx now id m =
    (do
      check ctx
      ob ← found (get id m.outbox_events)
      write (λ r. record r {
        outbox_events =
            put id (record ob { status = OutboxStatus.published; processed_at = some now })
              r.outbox_events;
      }))
      m

unfoldable pub record_delivery_attempt :
    Context → Time → DeliveryAttempt → Exec MemoryRepository (Unit {0})
record_delivery_attempt ctx now a m =
    (do
      check ctx
      absent (get a.id m.attempts)
      write (λ r. record r {
        attempts = put a.id (record a { executed_at = or_now now a.executed_at }) r.attempts;
      }))
      m

unfoldable pub update_event_status : Context → Text → EventStatus → Exec MemoryRepository (Unit {0})
update_event_status ctx id status m =
    (do
      check ctx
      e ← found (get id m.events)
      write (λ r. record r { events = put id (record e { status = status }) r.events }))
      m

unfoldable pub get_event : Context → Text → Exec MemoryRepository Event
get_event ctx id m = (do check ctx; found (get id m.events)) m

abbrev pub is_dlq_of : Text → Event → Bool
is_dlq_of tenant e = e.tenant_id == tenant && is_dlq e.status

-- Newest first.
abbrev pub by_age : Event → Event → Bool
by_age a b = ltb b.created_at a.created_at

-- `if offset > 0 { if offset >= len(xs) { return []domain.Event{} }; xs = xs[offset:] }`, then the
-- limit
unfoldable pub page {ℓ} : {A : Type ℓ} → ℤ → ℤ → List A → List A
page limit offset xs =
    if is_positive offset
    then (if leb (length xs) (pos_part offset)
        then []
        else limited limit (drop (pos_part offset) xs))
    else limited limit xs

unfoldable pub get_dlq_events :
    Ranging Event → Context → Text → ℤ → ℤ → Exec MemoryRepository (List Event)
get_dlq_events r ctx tenant limit offset m =
    (do
      check ctx
      pure (
          page limit offset
            (sort_slice by_age (keep (is_dlq_of tenant) (r.visit (values m.events))))))
      m

-- The record that a replay adds for an event.
abbrev pub replay_row : Time → ℕ → Event → OutboxEvent
replay_row now id e = record {
  id = id;
  event_id = e.id;
  status = OutboxStatus.pending;
  retry_count = 0;
  created_at = now;
  processed_at = none;
}

-- One event of the replay.
abbrev pub replay_event : Time → Text → Event → MemoryRepository → MemoryRepository
replay_event now id e m = record m {
  events = put id (record e { status = EventStatus.pending }) m.events;
  next_outbox_id = inc64 m.next_outbox_id;
  outbox_events =
      put (inc64 m.next_outbox_id) (replay_row now (inc64 m.next_outbox_id) e) m.outbox_events;
}

-- The body of the loop over the ids; the count goes up by 0 or 1.
unfoldable pub replay_one : Text → Time → Text → MemoryRepository → ℕ × MemoryRepository
replay_one tenant now id m = elim (get id m.events) [
  | none ↦ (0, m)
  | some e ↦
      if not (e.tenant_id == tenant) || not (is_dlq e.status)
      then (0, m)
      else (1, replay_event now id e m)
]

unfoldable pub replay_all : Text → Time → List Text → MemoryRepository → ℕ × MemoryRepository
replay_all tenant now [] m = (0, m)
replay_all tenant now (id ∷ ids) m =
    let (n, m') = replay_one tenant now id m in
    let (k, m'') = replay_all tenant now ids m' in (n + k, m'')

unfoldable pub replay_dlq_events : Context → Time → Text → List Text → Exec MemoryRepository ℕ
replay_dlq_events ctx now tenant ids =
    check ctx >> (λ m. let (n, m') = replay_all tenant now ids m in (ok n, m'))
