-- ===== src/Examples/Data.antt =====
-- The test data: one tenant, one endpoint, one event, and the stores that hold them.
use web_hook_project.Prelude.{
  true, [], ◌∷◌, none, ◌≡◌, refl, arith, codes, text_eq, nat_eq, text_beq, get, put,
}
use web_hook_project.Prelude.Errors.{ok}
use web_hook_project.Prelude.Int.{pos}
use web_hook_project.Prelude.Sorting.{in_order}
use web_hook_project.Domain.{Endpoint, Event, EventStatus, OutboxEvent, OutboxStatus}
use web_hook_project.Storage.{
  MemoryRepository, new_memory_repository, create_event_with_outbox, reserve_key, insert_event,
}
use web_hook_project.Storage.Invariant.{IsValid, new-IsValid, create_event_with_outbox-IsValid}
use web_hook_project.Relay.{System, Turn, Moment}
use web_hook_project.Relay.Safety.{IsSafe}
use web_hook_project.Relay.Progress.{IsLive}
use web_hook_project.Queue.{new_memory_stream_queue}

abbrev pub order_event : Event
order_event = record {
  id = codes "e1";
  tenant_id = codes "t1";
  event_type = codes "order";
  idempotency_key = codes "k1";
  payload = codes "1";
  status = EventStatus.pending;
  created_at = 5;
}

abbrev pub order_outbox : OutboxEvent
order_outbox = record {
  id = 0;
  event_id = codes "e1";
  status = OutboxStatus.pending;
  retry_count = 0;
  created_at = 5;
  processed_at = none;
}

abbrev pub order_row : OutboxEvent
order_row = record order_outbox { id = 1 }

abbrev pub shop : Endpoint
shop = record {
  id = codes "p1";
  tenant_id = codes "t1";
  url = codes "https://a.b";
  secret = codes "s";
  rate_limit = pos 100;
  is_active = true;
  created_at = 4;
  updated_at = 4;
}

-- The repository after the event was stored.
abbrev pub stored_repo : MemoryRepository
stored_repo = record {
  tenants = [];
  endpoints = [];
  events = (codes "e1", order_event) ∷ [];
  outbox_events = (1, order_row) ∷ [];
  attempts = [];
  idempotency_index = (codes "t1:k1", codes "e1") ∷ [];
  next_outbox_id = 1;
}

pub creates_stored :
    create_event_with_outbox none 5 order_event order_outbox new_memory_repository
    ≡ (ok (order_event, order_row), stored_repo)
unfolding create_event_with_outbox reserve_key insert_event get put text_beq
creates_stored = refl

pub stored-IsValid : IsValid stored_repo
unfolding create_event_with_outbox reserve_key insert_event get put text_beq
stored-IsValid =
    create_event_with_outbox-IsValid none 5 order_event order_outbox new_memory_repository
      new-IsValid (omega arith) refl

abbrev pub stored_system : System
stored_system = record { repo = stored_repo; queue = new_memory_stream_queue }

pub stored-IsSafe : IsSafe (codes "s") stored_system
unfolding get
stored-IsSafe = record { valid = stored-IsValid; relayed = λ j ob g p. absurd (ground arith) }

abbrev pub live_turn : Turn
live_turn = record {
  at_loop = none;
  at_get = none;
  at_publish = none;
  at_mark = none;
  publish_time = 6;
  mark_time = 7;
}

abbrev pub live_moment : Moment
live_moment = record { at_start = none; at_fetch = none; visits = in_order; turn = λ ob. live_turn }

abbrev pub live_moment-IsLive : IsLive live_moment
live_moment-IsLive = record {
  starts = refl;
  fetches = refl;
  turns = λ ob. record { loops = refl; gets = refl; publishes = refl; marks = refl };
}
