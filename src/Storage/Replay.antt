-- ===== src/Storage/Replay.antt =====
-- Which events a replay touches.
use web_hook_project.Prelude.{
  ℕ, ◌+◌, ◌^◌, ◌≤◌, ◌<◌, Bool, true, false, ◌&&◌, ◌||◌, List, [], ◌∷◌, Option, none, some, ◌≡◌, inl,
  inr, refl, sym, ap, ◌∙◌, arith, get, get-put, get-put_self, get-put_fresh, subst, Bool-cases,
  Text, text_eq, nat_eq, text_beq_iff, if◌then◌else◌, Option-cases, length, ◌==◌,
}
use web_hook_project.Prelude.Errors.{ok}
use web_hook_project.Domain.{Time, Event, EventStatus, OutboxEvent}
use web_hook_project.Storage.{
  MemoryRepository, inc64, is_dlq_of, replay_one, replay_all, replay_dlq_events, replay_event,
  replay_row,
}
use web_hook_project.Storage.Rows.{get_above}
use web_hook_project.Storage.Invariant.{IsValid}
use web_hook_project.Storage.Updates.{replay_one_cases, replay_event-IsValid}

-- Whether an id is among those of the request.
unfoldable pub listed : Text → List Text → Bool
listed k [] = false
listed k (id ∷ ids) = k == id || listed k ids

-- The status that a replay of `ids` for `tenant` leaves an event with.
abbrev pub restored : Text → Bool → Event → Event
restored tenant chosen e =
    if chosen && is_dlq_of tenant e then record e { status = EventStatus.pending } else e

abbrev pub restored? : Text → Bool → Option Event → Option Event
restored? tenant chosen none = none
restored? tenant chosen (some e) = some (restored tenant chosen e)

restored_nothing : (tenant : Text) (o : Option Event) → restored? tenant false o ≡ o
restored_nothing tenant none = refl
restored_nothing tenant (some e) = refl

restored_twice :
    (tenant : Text) (b c : Bool) (o : Option Event)
    → restored? tenant c (restored? tenant b o) ≡ restored? tenant (b || c) o
restored_twice tenant b c none = refl
restored_twice tenant b c (some e) = ground arith

replay_one-events :
    (tenant : Text) (now : Time) (id k : Text) (m : MemoryRepository)
    → get k (replay_one tenant now id m).1.events ≡ restored? tenant (k == id) (get k m.events)
unfolding replay_one
replay_one-events tenant now id k m = elim (Option-cases (get id m.events)) [
  | inl missing ↦ ground (arith, text_beq_iff k id)
  | inr (e, stored) ↦
      ground (
        arith,
        text_beq_iff k id,
        get-put id k (record e { status = EventStatus.pending }) m.events,
      )
]

-- The events after the loop: exactly the listed events of the tenant that were in the dead-letter
-- queue became pending.
pub replay_all-events :
    (tenant : Text) (now : Time) (ids : List Text) (k : Text) (m : MemoryRepository)
    → get k (replay_all tenant now ids m).1.events
      ≡ restored? tenant (listed k ids) (get k m.events)
unfolding replay_all listed
replay_all-events tenant now [] k m = sym (restored_nothing tenant (get k m.events))
replay_all-events tenant now (id ∷ ids) k m =
    let m' = (replay_one tenant now id m).1 in
    replay_all-events tenant now ids k m'
    ∙ ap (restored? tenant (listed k ids)) (replay_one-events tenant now id k m)
    ∙ restored_twice tenant (k == id) (listed k ids) (get k m.events)

replay_one-counts :
    (tenant : Text) (now : Time) (id : Text) (m : MemoryRepository)
    → m.next_outbox_id + 1 < 2 ^ 63
    → let (n, m') = replay_one tenant now id m in
      (m'.next_outbox_id ≡ m.next_outbox_id + n) × (n ≤ 1)
replay_one-counts tenant now id m room = elim (replay_one_cases tenant now id m) [
  | inl passed ↦ rw passed (omega arith)
  | inr (e, _, _, _, done) ↦ rw done (omega arith)
]

-- The count of the loop is the number of outbox ids that it took.
pub replay_all-counts :
    (tenant : Text) (now : Time) (ids : List Text) (m : MemoryRepository)
    → length ids + m.next_outbox_id + 1 < 2 ^ 63
    → let (n, m') = replay_all tenant now ids m in
      (m'.next_outbox_id ≡ m.next_outbox_id + n) × (n ≤ length ids)
unfolding replay_all
replay_all-counts tenant now [] m room = omega arith
replay_all-counts tenant now (id ∷ ids) m room =
    let m' = (replay_one tenant now id m).1 in
    let one = replay_one-counts tenant now id m (omega arith) in
    omega (arith, one, replay_all-counts tenant now ids m' (omega (arith, one)))

replay_one_takes :
    (tenant : Text) (now : Time) (id : Text) (m : MemoryRepository) (e : Event)
    → get id m.events ≡ some e
    → is_dlq_of tenant e ≡ true
    → replay_one tenant now id m ≡ (1, replay_event now id e m)
unfolding replay_one
replay_one_takes tenant now id m e stored dead = ground arith

replay_one-IsValid :
    (tenant : Text) (now : Time) (id : Text) (m : MemoryRepository)
    → IsValid m
    → m.next_outbox_id + 2 < 2 ^ 63
    → IsValid (replay_one tenant now id m).1
replay_one-IsValid tenant now id m v room = elim (replay_one_cases tenant now id m) [
  | inl passed ↦ rw passed v
  | inr (e, stored, _, _, done) ↦ rw done (replay_event-IsValid m v (omega arith) now id e stored)
]

-- Rows that stand stay.
replay_all-keeps :
    (tenant : Text) (now : Time) (ids : List Text) (m : MemoryRepository) (j : ℕ) (ob : OutboxEvent)
    → IsValid m
    → length ids + m.next_outbox_id + 1 < 2 ^ 63
    → get j m.outbox_events ≡ some ob
    → get j (replay_all tenant now ids m).1.outbox_events ≡ some ob
unfolding replay_all
replay_all-keeps tenant now [] m j ob v room h = h
replay_all-keeps tenant now (id ∷ ids) m j ob v room h = elim (replay_one_cases tenant now id m) [
  | inl passed ↦ rw (passed, replay_all) (replay_all-keeps tenant now ids m j ob v (omega arith) h)
  | inr (e, stored, _, _, done) ↦
      let id' = inc64 m.next_outbox_id in
      rw (done, replay_all)
        (replay_all-keeps tenant now ids (replay_event now id e m) j ob
          (replay_event-IsValid m v (omega arith) now id e stored) (omega arith)
          (get-put_fresh id' j (replay_row now id' e) ob m.outbox_events
            (get_above 0 m.next_outbox_id id' m.outbox_events v.rising (omega arith)) h))
]

-- The listed events of the tenant in the dead-letter queue each get a new pending row.
pub replay_all-rows :
    (tenant : Text) (now : Time) (ids : List Text) (m : MemoryRepository) (k : Text) (e : Event)
    → IsValid m
    → length ids + m.next_outbox_id + 1 < 2 ^ 63
    → get k m.events ≡ some e
    → is_dlq_of tenant e ≡ true
    → listed k ids ≡ true
    → (j : ℕ) × (get j (replay_all tenant now ids m).1.outbox_events ≡ some (replay_row now j e))
      × (m.next_outbox_id < j)
unfolding replay_all listed
replay_all-rows tenant now [] m k e v room stored dead chosen = absurd (cc)
replay_all-rows tenant now (id ∷ ids) m k e v room stored dead chosen =
    elim (Bool-cases (k == id)) [
      | inl same ↦
          let at = (text_beq_iff k id).0 same in
          let id' = inc64 m.next_outbox_id in
          let held = subst (λ q. get q m.events ≡ some e) at stored in
          (
            id',
            rw (replay_one_takes tenant now id m e held dead, replay_all)
                (replay_all-keeps tenant now ids (replay_event now id e m) id'
                  (replay_row now id' e) (replay_event-IsValid m v (omega arith) now id e held)
                  (omega arith) (get-put_self id' (replay_row now id' e) m.outbox_events)),
            omega arith,
          )
      | inr other ↦
          let m' = (replay_one tenant now id m).1 in
          let one = replay_one-counts tenant now id m (omega arith) in
          let (j, row, above) =
            replay_all-rows tenant now ids m' k e
              (replay_one-IsValid tenant now id m v (omega arith)) (omega (arith, one))
              (replay_one-events tenant now id k m ∙ rw (other, stored)) dead
              (rw other at chosen) in
          (j, row, omega (arith, one, above))
    ]

-- ReplayDLQEvents makes pending exactly the listed events of the tenant that are in the dead-letter
-- queue, changes no other event, and gives each of them a new pending outbox record; the count that
-- it returns is the number of outbox ids it took, at most one for each listed id.
pub replay_dlq_events_lem :
    (now : Time) (tenant : Text) (ids : List Text) (m : MemoryRepository)
    → IsValid m
    → length ids + m.next_outbox_id + 1 < 2 ^ 63
    → (n : ℕ) × (m' : MemoryRepository) × (replay_dlq_events none now tenant ids m ≡ (ok n, m'))
      × (m'.next_outbox_id ≡ m.next_outbox_id + n)
      × (n ≤ length ids)
      × ((k : Text) → get k m'.events ≡ restored? tenant (listed k ids) (get k m.events))
      × ((k : Text) (e : Event)
          → get k m.events ≡ some e
          → is_dlq_of tenant e ≡ true
          → listed k ids ≡ true
          → (j : ℕ) × (get j m'.outbox_events ≡ some (replay_row now j e)) × (m.next_outbox_id < j))
unfolding replay_dlq_events
replay_dlq_events_lem now tenant ids m v room =
    let counts = replay_all-counts tenant now ids m room in
    (
      (replay_all tenant now ids m).0,
      (replay_all tenant now ids m).1,
      refl,
      counts.0,
      counts.1,
      λ k. replay_all-events tenant now ids k m,
      λ k e. replay_all-rows tenant now ids m k e v room,
    )
