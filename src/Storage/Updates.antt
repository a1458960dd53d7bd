-- ===== src/Storage/Updates.antt =====
-- The invariant under status changes, published marks and replays, and over a whole history.
use web_hook_project.Prelude.{
  ℕ, suc, ◌+◌, ◌^◌, ◌<◌, true, not, ◌||◌, List, [], ◌∷◌, none, some, ◌≡◌, ◌⊎◌, inl, inr, refl,
  arith, get, put, get-put, nat_beq_iff, text_beq_iff, get-put_self, get-put-some, get-put_cases,
  get-put_fresh, Bool-cases, Text, nat_eq, text_eq, Option-cases, ◌==◌, length,
}
use web_hook_project.Prelude.Errors.{Context}
use web_hook_project.Domain.{Time, Event, EventStatus, OutboxEvent, is_dlq}
use web_hook_project.Storage.{
  MemoryRepository, inc64, mark_outbox_published, update_event_status, replay_one, replay_all,
  replay_dlq_events, replay_event, replay_row,
}
use web_hook_project.Storage.Rows.{Rising-insert, Rising-put, get_above, get-id}
use web_hook_project.Storage.Invariant.{IsValid}

abbrev with_event : MemoryRepository → Text → Event → MemoryRepository
with_event m k e = record m { events = put k e m.events }

-- A new status for a stored event.
module _ (m : MemoryRepository) (v : IsValid m) (id : Text) (e : Event)
    (stored : get id m.events ≡ some e) (status : EventStatus) where
  abbrev changed : Event
  changed = record e { status = status }

  with_event-IsValid : IsValid (with_event m id changed)
  with_event-IsValid = record {
    rising = v.rising;
    bounded = v.bounded;
    named = λ k x h. elim (get-put_cases id k changed x m.events h) [
      | inl (at, is) ↦ cc (v.named id e stored)
      | inr (_, old) ↦ v.named k x old
    ];
    backed =
        λ j ob h. let (y, g) = v.backed j ob h in get-put-some id ob.event_id changed y m.events g;
    queued = λ k x h. elim (get-put_cases id k changed x m.events h) [
      | inl (at, _) ↦ rw at (v.queued id e stored)
      | inr (_, old) ↦ v.queued k x old
    ];
    indexed = λ k x h n. elim (get-put_cases id k changed x m.events h) [
      | inl (_, is) ↦ rw is (v.indexed id e stored (rw is at n))
      | inr (_, old) ↦ v.indexed k x old n
    ];
  }

-- UpdateEventStatus keeps the invariant.
pub update_event_status-IsValid :
    (ctx : Context) (id : Text) (status : EventStatus) (m : MemoryRepository)
    → IsValid m
    → IsValid (update_event_status ctx id status m).1
unfolding update_event_status
update_event_status-IsValid (some e) id status m v = v
update_event_status-IsValid none id status m v = elim (Option-cases (get id m.events)) [
  | inl missing ↦ rw missing v
  | inr (e, stored) ↦ rw stored (with_event-IsValid m v id e stored status)
]

-- A row that keeps its id and its event.
module _ (m : MemoryRepository) (v : IsValid m) (id : ℕ) (old new : OutboxEvent)
    (stored : get id m.outbox_events ≡ some old) (same_id : new.id ≡ id)
    (same_event : new.event_id ≡ old.event_id) where
  with_row-IsValid : IsValid (record m { outbox_events = put id new m.outbox_events })
  with_row-IsValid = record {
    rising = Rising-put 0 m.next_outbox_id id new old m.outbox_events v.rising stored same_id;
    bounded = v.bounded;
    named = v.named;
    backed = λ j x h. elim (get-put_cases id j new x m.outbox_events h) [
      | inl (_, is) ↦ rw (is, same_event) (v.backed id old stored)
      | inr (_, kept) ↦ v.backed j x kept
    ];
    queued = λ k x h.
        let (j, y, g, names) = v.queued k x h in
        elim (Bool-cases (j == id)) [
          | inl same ↦ (
            id,
            new,
            get-put_self id new m.outbox_events,
            cc ((nat_beq_iff j id).0 same, g, names),
          )
          | inr other ↦ (j, y, ground (arith, get-put id j new m.outbox_events, g), names)
        ];
    indexed = v.indexed;
  }

-- MarkOutboxPublished keeps the invariant.
pub mark_outbox_published-IsValid :
    (ctx : Context) (now : Time) (id : ℕ) (m : MemoryRepository)
    → IsValid m
    → IsValid (mark_outbox_published ctx now id m).1
unfolding mark_outbox_published
mark_outbox_published-IsValid (some e) now id m v = v
mark_outbox_published-IsValid none now id m v = elim (Option-cases (get id m.outbox_events)) [
  | inl missing ↦ rw missing v
  | inr (ob, stored) ↦ rw stored (
      with_row-IsValid m v id ob _ stored
        (get-id 0 m.next_outbox_id id ob m.outbox_events v.rising stored) refl)
]

-- A replayed event: its status changes, and a new row names it.
module _ (m : MemoryRepository) (v : IsValid m) (room : suc m.next_outbox_id < 2 ^ 63) (now : Time)
    (id : Text) (e : Event) (stored : get id m.events ≡ some e) where
  abbrev new_row : OutboxEvent
  new_row = replay_row now (inc64 m.next_outbox_id) e

  no_row : get (inc64 m.next_outbox_id) m.outbox_events ≡ none
  no_row =
      get_above 0 m.next_outbox_id (inc64 m.next_outbox_id) m.outbox_events v.rising (omega arith)

  pub replay_event-IsValid : IsValid (replay_event now id e m)
  replay_event-IsValid =
      let w = with_event-IsValid m v id e stored EventStatus.pending in
      record {
        rising =
            Rising-insert 0 m.next_outbox_id (inc64 m.next_outbox_id) new_row m.outbox_events
              v.rising (omega arith) refl;
        bounded = omega arith;
        named = w.named;
        backed = λ j x h.
            elim (get-put_cases (inc64 m.next_outbox_id) j new_row x m.outbox_events h) [
              | inl (_, is) ↦ (
                record e { status = EventStatus.pending },
                cc (
                  get-put_self id (record e { status = EventStatus.pending }) m.events,
                  v.named id e stored,
                ),
              )
              | inr (_, kept) ↦ w.backed j x kept
            ];
        queued = λ k x h.
            let (j, y, g, names) = w.queued k x h in
            (
              j,
              y,
              get-put_fresh (inc64 m.next_outbox_id) j new_row y m.outbox_events no_row g,
              names,
            );
        indexed = w.indexed;
      }

-- One id of a replay: it is passed over, or its event is replayed.
pub replay_one_cases :
    (tenant : Text) (now : Time) (id : Text) (m : MemoryRepository)
    → (replay_one tenant now id m ≡ (0, m))
      ⊎ ((e : Event) × (get id m.events ≡ some e)
          × (e.tenant_id ≡ tenant)
          × (is_dlq e.status ≡ true)
          × (replay_one tenant now id m ≡ (1, replay_event now id e m)))
unfolding replay_one
replay_one_cases tenant now id m = elim (Option-cases (get id m.events)) [
  | inl missing ↦ inl (ground arith)
  | inr (e, stored) ↦ elim (Bool-cases (not (e.tenant_id == tenant) || not (is_dlq e.status))) [
    | inl skipped ↦ inl (ground arith)
    | inr taken ↦
        inr (e, stored, ground (arith, text_beq_iff e.tenant_id tenant), ground arith, ground arith)
  ]
]

pub replay_all-IsValid :
    (tenant : Text) (now : Time) (ids : List Text) (m : MemoryRepository)
    → IsValid m
    → length ids + m.next_outbox_id + 1 < 2 ^ 63
    → IsValid (replay_all tenant now ids m).1
unfolding replay_all
replay_all-IsValid tenant now [] m v room = v
replay_all-IsValid tenant now (id ∷ ids) m v room = elim (replay_one_cases tenant now id m) [
  | inl passed ↦ rw (passed, replay_all) (replay_all-IsValid tenant now ids m v (omega arith))
  | inr (e, stored, _, _, done) ↦
      rw (done, replay_all)
        (replay_all-IsValid tenant now ids (replay_event now id e m)
          (replay_event-IsValid m v (omega arith) now id e stored) (omega arith))
]

-- ReplayDLQEvents keeps the invariant, while there are ids left for the rows it may add.
pub replay_dlq_events-IsValid :
    (ctx : Context) (now : Time) (tenant : Text) (ids : List Text) (m : MemoryRepository)
    → IsValid m
    → length ids + m.next_outbox_id + 1 < 2 ^ 63
    → IsValid (replay_dlq_events ctx now tenant ids m).1
unfolding replay_dlq_events
replay_dlq_events-IsValid (some e) now tenant ids m v room = v
replay_dlq_events-IsValid none now tenant ids m v room = replay_all-IsValid tenant now ids m v room
