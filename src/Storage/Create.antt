-- ===== src/Storage/Create.antt =====
-- What CreateEventWithOutbox stores, and when it refuses.
use web_hook_project.Prelude.{
  ℕ, suc, ◌^◌, ◌<◌, [], none, some, ◌≡◌, ◌≢◌, ◌⊎◌, inl, inr, sym, ◌∙◌, arith, Map, get,
  get-put_self, get-put_ne, Text, text_eq, nat_eq, text_beq_iff,
}
use web_hook_project.Prelude.Errors.{ok, err, duplicate_key}
use web_hook_project.Domain.{Time, Event, OutboxEvent}
use web_hook_project.Storage.{
  MemoryRepository, inc64, create_event_with_outbox, reserve_key, idempotency_key_of, stamped_event,
  stamped_outbox,
}
use web_hook_project.Storage.Rows.{get_above}
use web_hook_project.Storage.Invariant.{
  IsValid, Reserved, inserted, reserve_key_cases, insert_event_cases, with_index,
}

-- In a valid repository, two stored events with the same tenant and idempotency key are one event.
pub one_event_in :
    (m : MemoryRepository) (j k : Text) (x y : Event)
    → IsValid m
    → get j m.events ≡ some x
    → get k m.events ≡ some y
    → x.idempotency_key ≢ []
    → y.idempotency_key ≢ []
    → idempotency_key_of x ≡ idempotency_key_of y
    → j ≡ k
one_event_in m j k x y v hx hy nx ny same =
    let ix = v.indexed j x hx nx in
    let iy = v.indexed k y hy ny in cc (ix, iy, same, v.named j x hx, v.named k y hy)

-- A key that the index holds is refused, and nothing changes.
pub create_used_key :
    (now : Time) (e : Event) (ob : OutboxEvent) (m : MemoryRepository) (x : Text)
    → e.idempotency_key ≢ []
    → get (idempotency_key_of e) m.idempotency_index ≡ some x
    → create_event_with_outbox none now e ob m ≡ (err duplicate_key, m)
unfolding create_event_with_outbox reserve_key
create_used_key now e ob m x keyed used = ground (arith, text_beq_iff e.idempotency_key [])

-- A successful call, taken apart.
pub create_cases :
    (now : Time) (e : Event) (ob : OutboxEvent) (m : MemoryRepository)
    → ((i : Map Text Text) × (create_event_with_outbox none now e ob m
          ≡ (err duplicate_key, with_index m i)))
      ⊎ ((i : Map Text Text) × Reserved m e i
          × (get e.id m.events ≡ none)
          × (create_event_with_outbox none now e ob m ≡ (
            ok (stamped_event now e, stamped_outbox now (inc64 m.next_outbox_id) ob),
            inserted now e ob (with_index m i),
          )))
unfolding create_event_with_outbox
create_cases now e ob m = elim (reserve_key_cases e m) [
  | inl refused ↦ inl (m.idempotency_index, rw refused)
  | inr (i, reserved, r) ↦ elim (insert_event_cases now e ob (with_index m i)) [
    | inl (x, used, refused) ↦ inl (i, rw (reserved, refused))
    | inr (fresh, stored) ↦ inr (i, r, fresh, rw (reserved, stored))
  ]
]

-- In a valid repository whose counter of ids is not at its end, a call with a live context that succeeds
-- stores the event and one new record for it, under an id that no row had, and leaves every other event and
-- row as it was.
pub create_stores :
    (now : Time) (e e' : Event) (ob ob' : OutboxEvent) (m m' : MemoryRepository)
    → IsValid m
    → suc m.next_outbox_id < 2 ^ 63
    → create_event_with_outbox none now e ob m ≡ (ok (e', ob'), m')
    → (get e.id m.events ≡ none)
      × (get e.id m'.events ≡ some e')
      × (get ob'.id m.outbox_events ≡ none)
      × (get ob'.id m'.outbox_events ≡ some ob')
      × ((k : Text) → k ≢ e.id → get k m'.events ≡ get k m.events)
      × ((j : ℕ) → j ≢ ob'.id → get j m'.outbox_events ≡ get j m.outbox_events)
create_stores now e e' ob ob' m m' v room h = elim (create_cases now e ob m) [
  | inl (i, refused) ↦ absurd (cc)
  | inr (i, r, fresh, stored) ↦
      let id = inc64 m.next_outbox_id in
      let row = stamped_outbox now id ob in
      let no_row = get_above 0 m.next_outbox_id id m.outbox_events v.rising (omega arith) in
      (
        fresh,
        cc (get-put_self e.id (stamped_event now e) m.events),
        cc no_row,
        cc (get-put_self id row m.outbox_events),
        λ k ne. cc (get-put_ne e.id k (stamped_event now e) m.events ne),
        λ j ne. cc (get-put_ne id j row m.outbox_events (λ at. ne (cc))),
      )
]

-- After a call with an idempotency key and a live context has succeeded, the next such call with the same
-- tenant and key is refused and changes nothing.
pub create_twice :
    (now later : Time) (e f e' : Event) (ob oc ob' : OutboxEvent) (m m' : MemoryRepository)
    → create_event_with_outbox none now e ob m ≡ (ok (e', ob'), m')
    → e.idempotency_key ≢ []
    → f.tenant_id ≡ e.tenant_id
    → f.idempotency_key ≡ e.idempotency_key
    → create_event_with_outbox none later f oc m' ≡ (err duplicate_key, m')
create_twice now later e f e' ob oc ob' m m' h keyed same_tenant same_key =
    elim (create_cases now e ob m) [
      | inl (i, refused) ↦ absurd (cc)
      | inr (i, r, fresh, stored) ↦
          create_used_key later f oc m' e.id (λ none. keyed (sym same_key ∙ none))
            (cc (r.holds keyed))
    ]
