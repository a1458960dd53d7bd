-- ===== src/Storage/Invariant.antt =====
-- The invariant of the repository, and its preservation by the methods that write.
use web_hook_project.Prelude.{
  ℕ, suc, ◌^◌, ◌<◌, [], none, some, ◌≡◌, ◌≢◌, ◌⊎◌, inl, inr, refl, arith, Map, get, put, get-put,
  get-put_self, get-put-some, get-put_cases, get-put_fresh, Bool-cases, Text, nat_eq, text_eq,
  text_beq_iff, Option-cases,
}
use web_hook_project.Prelude.Errors.{duplicate_key, ok, err, Context}
use web_hook_project.Domain.{Time, Event, OutboxEvent, is_empty}
use web_hook_project.Storage.{
  MemoryRepository, new_memory_repository, inc64, reserve_key, insert_event,
  create_event_with_outbox, idempotency_key_of, stamped_event, stamped_outbox,
}
use web_hook_project.Storage.Rows.{Rising, Rising-insert, get_above}

-- Outbox ids are fresh and fit in an int64, each event is stored under its own id and has an outbox
-- row, each row names a stored event, and the index finds the event of each idempotency key.
pub record IsValid (m : MemoryRepository) : Type 0 where
  pub rising : Rising 0 m.next_outbox_id m.outbox_events
  pub bounded : m.next_outbox_id < 2 ^ 63
  pub named : (k : Text) (e : Event) → get k m.events ≡ some e → e.id ≡ k
  pub backed :
      (j : ℕ) (ob : OutboxEvent)
      → get j m.outbox_events ≡ some ob
      → (e : Event) × (get ob.event_id m.events ≡ some e)
  pub queued :
      (k : Text) (e : Event)
      → get k m.events ≡ some e
      → (j : ℕ) × (ob : OutboxEvent) × (get j m.outbox_events ≡ some ob) × (ob.event_id ≡ k)
  pub indexed :
      (k : Text) (e : Event)
      → get k m.events ≡ some e
      → e.idempotency_key ≢ []
      → get (idempotency_key_of e) m.idempotency_index ≡ some e.id

pub new-IsValid : IsValid new_memory_repository
unfolding get
new-IsValid = record {
  rising = omega arith;
  bounded = omega arith;
  named = λ k e h. cc;
  backed = λ j ob h. absurd (cc);
  queued = λ k e h. absurd (cc);
  indexed = λ k e h n. cc;
}

-- All entries of one index are in the other.
abbrev pub Extends : Map Text Text → Map Text Text → Type 0
Extends i j = (k v : Text) → get k i ≡ some v → get k j ≡ some v

Extends-put : (k v : Text) (i : Map Text Text) → get k i ≡ none → Extends i (put k v i)
Extends-put k v i fresh j w h = ground (arith, get-put k j v i, text_beq_iff j k)

abbrev pub with_index : MemoryRepository → Map Text Text → MemoryRepository
with_index m i = record m { idempotency_index = i }

-- The index after a key was reserved.
pub record Reserved (m : MemoryRepository) (e : Event) (i : Map Text Text) : Type 0 where
  pub extends : Extends m.idempotency_index i
  pub holds : e.idempotency_key ≢ [] → get (idempotency_key_of e) i ≡ some e.id

-- The check of the idempotency key refuses a key in use, and else extends the index.
pub reserve_key_cases :
    (e : Event) (m : MemoryRepository)
    → (reserve_key e m ≡ (err duplicate_key, m))
      ⊎ ((i : Map Text Text) × (reserve_key e m ≡ (ok tt, with_index m i)) × Reserved m e i)
unfolding reserve_key
reserve_key_cases e m = elim (Bool-cases (is_empty e.idempotency_key)) [
  | inl no_key ↦ inr (
    m.idempotency_index,
    ground arith,
    record {
      extends = λ k v h. h;
      holds = λ n. absurd (n ((text_beq_iff e.idempotency_key []).0 no_key));
    },
  )
  | inr keyed ↦ elim (Option-cases (get (idempotency_key_of e) m.idempotency_index)) [
    | inl fresh ↦ inr (
      put (idempotency_key_of e) e.id m.idempotency_index,
      ground arith,
      record {
        extends = Extends-put (idempotency_key_of e) e.id m.idempotency_index fresh;
        holds = λ n. get-put_self (idempotency_key_of e) e.id m.idempotency_index;
      },
    )
    | inr (v, used) ↦ inl (ground arith)
  ]
]

-- The repository after an event and its outbox row were stored.
abbrev pub inserted : Time → Event → OutboxEvent → MemoryRepository → MemoryRepository
inserted now e ob m = record m {
  next_outbox_id = inc64 m.next_outbox_id;
  events = put e.id (stamped_event now e) m.events;
  outbox_events =
      put (inc64 m.next_outbox_id) (stamped_outbox now (inc64 m.next_outbox_id) ob) m.outbox_events;
}

module _ (m : MemoryRepository) (v : IsValid m) (room : suc m.next_outbox_id < 2 ^ 63) (now : Time)
    (e : Event) (ob : OutboxEvent) (same : ob.event_id ≡ e.id) (fresh : get e.id m.events ≡ none)
    (i : Map Text Text) (r : Reserved m e i) where
  inserted-named :
      (k : Text) (x : Event) → get k (put e.id (stamped_event now e) m.events) ≡ some x → x.id ≡ k
  inserted-named k x h = elim (get-put_cases e.id k (stamped_event now e) x m.events h) [
    | inl (at, is) ↦ cc
    | inr (_, old) ↦ v.named k x old
  ]

  abbrev row : OutboxEvent
  row = stamped_outbox now (inc64 m.next_outbox_id) ob

  no_row : get (inc64 m.next_outbox_id) m.outbox_events ≡ none
  no_row =
      get_above 0 m.next_outbox_id (inc64 m.next_outbox_id) m.outbox_events v.rising (omega arith)

  inserted-backed :
      (j : ℕ) (x : OutboxEvent)
      → get j (put (inc64 m.next_outbox_id) row m.outbox_events) ≡ some x
      → (y : Event) × (get x.event_id (put e.id (stamped_event now e) m.events) ≡ some y)
  inserted-backed j x h = elim (get-put_cases (inc64 m.next_outbox_id) j row x m.outbox_events h) [
    | inl (_, is) ↦ (stamped_event now e, cc (get-put_self e.id (stamped_event now e) m.events))
    | inr (_, old) ↦
        let (y, g) = v.backed j x old in
        get-put-some e.id x.event_id (stamped_event now e) y m.events g
  ]

  inserted-queued :
      (k : Text) (x : Event)
      → get k (put e.id (stamped_event now e) m.events) ≡ some x
      → (j : ℕ) × (y : OutboxEvent) × (get j (put (inc64 m.next_outbox_id) row m.outbox_events)
          ≡ some y)
        × (y.event_id ≡ k)
  inserted-queued k x h = elim (get-put_cases e.id k (stamped_event now e) x m.events h) [
    | inl (at, _) ↦
        (inc64 m.next_outbox_id, row, get-put_self (inc64 m.next_outbox_id) row m.outbox_events, cc)
    | inr (_, old) ↦
        let (j, y, g, named) = v.queued k x old in
        (j, y, get-put_fresh (inc64 m.next_outbox_id) j row y m.outbox_events no_row g, named)
  ]

  inserted-indexed :
      (k : Text) (x : Event)
      → get k (put e.id (stamped_event now e) m.events) ≡ some x
      → x.idempotency_key ≢ []
      → get (idempotency_key_of x) i ≡ some x.id
  inserted-indexed k x h n = elim (get-put_cases e.id k (stamped_event now e) x m.events h) [
    | inl (_, is) ↦ rw is (r.holds (rw is at n))
    | inr (_, old) ↦ r.extends (idempotency_key_of x) x.id (v.indexed k x old n)
  ]

  inserted-IsValid : IsValid (inserted now e ob (with_index m i))
  inserted-IsValid = record {
    rising =
        Rising-insert 0 m.next_outbox_id (inc64 m.next_outbox_id) row m.outbox_events v.rising
          (omega arith) refl;
    bounded = omega arith;
    named = inserted-named;
    backed = inserted-backed;
    queued = inserted-queued;
    indexed = inserted-indexed;
  }

-- A longer index keeps the invariant.
with_index-IsValid :
    (m : MemoryRepository) (i : Map Text Text)
    → IsValid m
    → Extends m.idempotency_index i
    → IsValid (with_index m i)
with_index-IsValid m i v x = record {
  rising = v.rising;
  bounded = v.bounded;
  named = v.named;
  backed = v.backed;
  queued = v.queued;
  indexed = λ k e h n. x (idempotency_key_of e) e.id (v.indexed k e h n);
}

-- Storing an event refuses a stored id, and else writes the event and its row.
pub insert_event_cases :
    (now : Time) (e : Event) (ob : OutboxEvent) (m : MemoryRepository)
    → ((x : Event) × (get e.id m.events ≡ some x)
        × (insert_event now e ob m ≡ (err duplicate_key, m)))
      ⊎ ((get e.id m.events ≡ none)
          × (insert_event now e ob m ≡ (
            ok (stamped_event now e, stamped_outbox now (inc64 m.next_outbox_id) ob),
            inserted now e ob m,
          )))
unfolding insert_event
insert_event_cases now e ob m = elim (Option-cases (get e.id m.events)) [
  | inl fresh ↦ inr (fresh, ground arith)
  | inr (x, used) ↦ inl (x, used, ground arith)
]

-- CreateEventWithOutbox keeps the invariant, whether it succeeds or fails, as long as the outbox
-- record names the event and the counter of ids is not at its end.
pub create_event_with_outbox-IsValid :
    (ctx : Context) (now : Time) (e : Event) (ob : OutboxEvent) (m : MemoryRepository)
    → IsValid m
    → suc m.next_outbox_id < 2 ^ 63
    → ob.event_id ≡ e.id
    → IsValid (create_event_with_outbox ctx now e ob m).1
unfolding create_event_with_outbox
create_event_with_outbox-IsValid (some e') now e ob m v room same = v
create_event_with_outbox-IsValid none now e ob m v room same = elim (reserve_key_cases e m) [
  | inl refused ↦ rw refused v
  | inr (i, reserved, r) ↦ elim (insert_event_cases now e ob (with_index m i)) [
    | inl (x, used, refused) ↦ rw (reserved, refused) (with_index-IsValid m i v r.extends)
    | inr (fresh, stored) ↦
        rw (reserved, stored) (inserted-IsValid m v room now e ob same fresh i r)
  ]
]
