-- ===== src/Api/Stored.antt =====
-- What an accepted request leaves in the repository.
use web_hook_project.Prelude.{
  ℕ, suc, ◌^◌, ◌<◌, Bool, true, false, List, Option, none, some, ◌≡◌, inl, inr, refl, subst, ap,
  arith, get, Text, text_eq, nat_eq, Bool-cases, Option-cases,
}
use web_hook_project.Prelude.Errors.{
  Error, Result-cases, Result, ok, err, Context, is_duplicate_key,
}
use web_hook_project.Domain.{Event, EventStatus, OutboxEvent, OutboxStatus, is_empty}
use web_hook_project.Storage.{
  MemoryRepository, create_event_with_outbox, inc64, stamped_event, stamped_outbox,
}
use web_hook_project.Storage.Invariant.{IsValid}
use web_hook_project.Storage.Create.{create_cases, create_stores}
use web_hook_project.Idempotency.{acquire_lock}
use web_hook_project.Api.{
  State, HttpRequest, accepted, IngestEventRequest, IngestEventResponse, IngestTurn, idemp_ttl,
  response_of, store_if, new_event, new_outbox, conclude, persist, ingest_body, ingest_locked,
  handle_ingest_event,
}

-- The event of a request and its outbox row, stored together where neither was before.
pub record Stores (r : HttpRequest) (event : Event) (m m' : MemoryRepository) : Type 0 where
  pub row : OutboxEvent
  pub new_id : get event.id m.events ≡ none
  pub stored : get event.id m'.events ≡ some event
  pub of_tenant : event.tenant_id ≡ r.tenant
  pub keyed : event.idempotency_key ≡ r.idempotency_key
  pub waits : event.status ≡ EventStatus.pending
  pub new_row : get row.id m.outbox_events ≡ none
  pub queued : get row.id m'.outbox_events ≡ some row
  pub names : row.event_id ≡ event.id
  pub row_waits : row.status ≡ OutboxStatus.pending

create_ended :
    (e : Error) (t : IngestTurn) (r : HttpRequest) (req : IngestEventRequest) (m : MemoryRepository)
    → create_event_with_outbox (some e) t.create_time (new_event t r req) (new_outbox t) m
      ≡ (err e, m)
unfolding create_event_with_outbox
create_ended e t r req m = refl

created :
    (ctx : Context) (t : IngestTurn) (r : HttpRequest) (req : IngestEventRequest)
    (m m' : MemoryRepository) (p : Event × OutboxEvent)
    → IsValid m
    → suc m.next_outbox_id < 2 ^ 63
    → create_event_with_outbox ctx t.create_time (new_event t r req) (new_outbox t) m ≡ (ok p, m')
    → Stores r p.0 m m'
created (some e) t r req m m' p v room h = absurd (ground (arith, create_ended e t r req m))
created none t r req m m' (e, ob) v room h =
    elim (create_cases t.create_time (new_event t r req) (new_outbox t) m) [
      | inl (i, refused) ↦ absurd (cc)
      | inr (i, reserved, fresh, done) ↦
          let e' = stamped_event t.create_time (new_event t r req) in
          let ob' = stamped_outbox t.create_time (inc64 m.next_outbox_id) (new_outbox t) in
          let same : create_event_with_outbox none t.create_time (new_event t r req) (new_outbox t)
                m
              ≡ (ok (e', ob'), m') =
            cc (h, done) in
          let s =
            create_stores t.create_time (new_event t r req) e' (new_outbox t) ob' m m' v room
              same in
          subst (λ x. Stores r x m m') (cc (h, same))
            (record {
              row = ob';
              new_id = s.0;
              stored = s.1;
              of_tenant = refl;
              keyed = refl;
              waits = refl;
              new_row = s.2;
              queued = s.3;
              names = refl;
              row_waits = refl;
            })
    ]

module _ (decode : Text → Option IngestEventRequest) (is_json : Text → Bool)
    (marshal : IngestEventResponse → Result (List ℕ)) where
  store_if-repo :
      (lock : Bool) (t : IngestTurn) (r : HttpRequest) (body : List ℕ) (a : State)
      → (store_if decode is_json marshal lock t r body a).repo ≡ a.repo
  store_if-repo false t r body a = refl
  store_if-repo true t r body a = refl

  conclude-repo :
      (lock : Bool) (t : IngestTurn) (r : HttpRequest) (e : Event) (a : State)
      → (conclude decode is_json marshal lock t r e a).1.repo ≡ a.repo
  unfolding conclude
  conclude-repo lock t r e a = elim (Result-cases (response_of decode is_json marshal e)) [
    | inl (x, bad) ↦ ground arith
    | inr (body, good) ↦ ground (arith, store_if-repo lock t r body a)
  ]

  conclude-response :
      (lock : Bool) (t : IngestTurn) (r : HttpRequest) (e : Event) (a : State) (status : ℕ)
      (body : List ℕ)
      → (conclude decode is_json marshal lock t r e a).0 ≡ accepted status body
      → response_of decode is_json marshal e ≡ ok body
  unfolding conclude
  conclude-response lock t r e a status body h =
      elim (Result-cases (response_of decode is_json marshal e)) [
        | inl (x, bad) ↦ absurd (ground arith)
        | inr (told, good) ↦ cc (good, h)
      ]

  persist-Stores :
      (lock : Bool) (t : IngestTurn) (r : HttpRequest) (req : IngestEventRequest) (a a' : State)
      (status : ℕ) (body : List ℕ)
      → IsValid a.repo
      → suc a.repo.next_outbox_id < 2 ^ 63
      → persist decode is_json marshal lock t r req a ≡ (accepted status body, a')
      → (e : Event) × (response_of decode is_json marshal e ≡ ok body) × Stores r e a.repo a'.repo
  unfolding persist
  persist-Stores lock t r req a a' status body v room h =
      let p =
        create_event_with_outbox t.at_create t.create_time (new_event t r req) (new_outbox t)
          a.repo in
      elim (Result-cases p.0) [
        | inl (e, refused) ↦ elim (Bool-cases (is_duplicate_key e)) [
          | inl twice ↦ absurd (ground arith)
          | inr other ↦ absurd (ground arith)
        ]
        | inr (x, done) ↦
            let repo : a'.repo ≡ p.1 =
              ground (arith, conclude-repo lock t r x.0 (record a { repo = p.1 })) in
            let ends : conclude decode is_json marshal lock t r x.0 (record a { repo = p.1 })
                ≡ (accepted status body, a') =
              ground arith in
            let told =
              conclude-response lock t r x.0 (record a { repo = p.1 }) status body
                (ap (λ q. q.0) ends) in
            (x.0, told, created t.at_create t r req a.repo a'.repo x v room (cc (done, repo)))
      ]

  body-Stores :
      (lock : Bool) (t : IngestTurn) (r : HttpRequest) (a a' : State) (status : ℕ) (body : List ℕ)
      → IsValid a.repo
      → suc a.repo.next_outbox_id < 2 ^ 63
      → ingest_body decode is_json marshal lock t r a ≡ (accepted status body, a')
      → (e : Event) × (response_of decode is_json marshal e ≡ ok body) × Stores r e a.repo a'.repo
  unfolding ingest_body
  body-Stores lock t r a a' status body v room h = elim (Option-cases (decode r.body)) [
    | inl unread ↦ absurd (ground arith)
    | inr (req, read) ↦
        let same : persist decode is_json marshal lock t r req a ≡ (accepted status body, a') =
          ground arith in
        persist-Stores lock t r req a a' status body v room same
  ]

  -- What was accepted is stored: from a valid repository whose counter of ids is not at its end, an
  -- accepted request has stored one new event of its tenant, with its idempotency key, and one new
  -- outbox row that names it, both pending, and its body tells of that event.
  pub ingest-Stores :
      (t : IngestTurn) (r : HttpRequest) (a a' : State) (status : ℕ) (body : List ℕ)
      → IsValid a.repo
      → suc a.repo.next_outbox_id < 2 ^ 63
      → handle_ingest_event decode is_json marshal t r a ≡ (accepted status body, a')
      → (e : Event) × (response_of decode is_json marshal e ≡ ok body) × Stores r e a.repo a'.repo
  unfolding handle_ingest_event ingest_locked
  ingest-Stores t r a a' status body v room h = elim (Bool-cases (is_empty r.idempotency_key)) [
    | inl plain ↦
        let same : ingest_body decode is_json marshal false t r a ≡ (accepted status body, a') =
          ground arith in
        body-Stores false t r a a' status body v room same
    | inr keyed ↦
        let g =
          (acquire_lock t.at_lock t.lock_time r.tenant r.idempotency_key idemp_ttl a.guard).1 in
        let same : ingest_body decode is_json marshal true t r (record a { guard = g })
            ≡ (accepted status body, a') =
          ground arith in
        body-Stores true t r (record a { guard = g }) a' status body v room same
  ]
