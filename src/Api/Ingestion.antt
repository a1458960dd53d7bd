-- ===== src/Api/Ingestion.antt =====
-- Ingestion and the idempotency guard: what a request leaves behind for the next one.
use Prim.Native.String.{String}
use web_hook_project.Prelude.{
  ℕ, ◌<◌, Bool, true, false, ◌||◌, List, Option, none, some, ◌≡◌, ◌⊎◌, inl, inr, sym, subst, ap,
  ◌∙◌, arith, Text, codes, text_eq, nat_eq, text_beq_iff, Bool-cases, Option-cases, ◌==◌,
}
use web_hook_project.Prelude.Errors.{Error, Result, Result-cases, is_duplicate_key, ok, err}
use web_hook_project.Prelude.Int.{ℤ}
use web_hook_project.Domain.{Time, Event, OutboxEvent, is_empty}
use web_hook_project.Storage.{MemoryRepository, create_event_with_outbox}
use web_hook_project.Idempotency.{
  MemoryGuard, Acquired, acquire_lock, set_response, release_lock, add_duration,
}
use web_hook_project.Idempotency.Lock.{response_replayed, release_frees, granted, granted_lem}
use web_hook_project.Api.{
  State, HttpRequest, Response, failed, replayed, accepted, IngestEventRequest, IngestEventResponse,
  IngestTurn, idemp_ttl, new_event, new_outbox, release_if, response_of, conclude, persist,
  ingest_body, ingest_locked, handle_ingest_event,
}

module _ (decode : Text → Option IngestEventRequest) (is_json : Text → Bool)
    (marshal : IngestEventResponse → Result (List ℕ)) where
  -- The event of the request was stored, and its response cannot be written.
  pub record IsUnwritten (t : IngestTurn) (r : HttpRequest) (m : MemoryRepository) : Type 0 where
    pub request : IngestEventRequest
    pub event : Event
    pub row : OutboxEvent
    pub stored :
        (create_event_with_outbox t.at_create t.create_time
          (new_event t r request)
          (new_outbox t)
          m).0
        ≡ ok (event, row)
    pub error : Error
    pub unwritten : response_of decode is_json marshal event ≡ err error

  -- How a request fails that holds the lock: it gives the lock back, or it has stored its event and
  -- keeps the lock.
  abbrev Fails : IngestTurn → HttpRequest → State → MemoryGuard → Type 0
  Fails t r a g =
      (g ≡ (release_lock t.at_release r.tenant r.idempotency_key a.guard).1)
      ⊎ ((g ≡ a.guard) × IsUnwritten t r a.repo)

  -- How a request ends that holds the lock.
  abbrev Ended : IngestTurn → HttpRequest → State → Response × State → Type 0
  Ended t r a p =
      ((status : ℕ) × (text : String) × (p.0 ≡ failed status text) × Fails t r a p.1.guard)
      ⊎ ((body : List ℕ) × (p.0 ≡ accepted 202 body)
          × (p.1.guard
              ≡ (set_response t.at_store t.store_time r.tenant r.idempotency_key 202 body idemp_ttl
                  a.guard).1))

  persist-Ended :
      (t : IngestTurn) (r : HttpRequest) (req : IngestEventRequest) (a : State)
      → Ended t r a (persist decode is_json marshal true t r req a)
  unfolding persist release_if conclude
  persist-Ended t r req a =
      let p =
        create_event_with_outbox t.at_create t.create_time (new_event t r req) (new_outbox t)
          a.repo in
      elim (Result-cases p.0) [
        | inl (e, refused) ↦ elim (Bool-cases (is_duplicate_key e)) [
          | inl twice ↦ inl (
            409,
            "duplicate event or idempotency key violation",
            ground arith,
            inl (ground arith),
          )
          | inr other ↦
              inl
                (500, "failed to persist event and outbox record", ground arith, inl (ground arith))
        ]
        | inr (stored, done) ↦ elim (Result-cases (response_of decode is_json marshal stored.0)) [
          | inr (body, written) ↦ inr (body, ground arith, ground arith)
          | inl (x, unwritten) ↦ inl (
            500,
            "failed to marshal response",
            ground arith,
            inr (
              ground arith,
              record {
                request = req;
                event = stored.0;
                row = stored.1;
                stored = cc done;
                error = x;
                unwritten = unwritten;
              },
            ),
          )
        ]
      ]

  ingest_body-Ended :
      (t : IngestTurn) (r : HttpRequest) (a : State)
      → Ended t r a (ingest_body decode is_json marshal true t r a)
  unfolding ingest_body release_if
  ingest_body-Ended t r a = elim (Option-cases (decode r.body)) [
    | inl unread ↦ inl (400, "invalid JSON payload", ground arith, inl (ground arith))
    | inr (req, read) ↦ elim (Bool-cases (is_empty req.event_type)) [
      | inl untyped ↦ inl (400, "event_type is required", ground arith, inl (ground arith))
      | inr typed ↦ elim (Bool-cases (is_empty req.payload || req.payload == codes "null")) [
        | inl missing ↦ inl (400, "payload cannot be empty", ground arith, inl (ground arith))
        | inr given ↦ elim (Bool-cases (is_json req.payload)) [
          | inr bad ↦ inl (400, "payload must be valid JSON", ground arith, inl (ground arith))
          | inl good ↦
              let same : ingest_body decode is_json marshal true t r a
                  ≡ persist decode is_json marshal true t r req a =
                ground arith in
              subst (Ended t r a) (sym same) (persist-Ended t r req a)
        ]
      ]
    ]
  ]

  -- A POST with a tenant and a key is what follows AcquireLock.
  keyed_post :
      (t : IngestTurn) (r : HttpRequest) (a : State)
      → r.method ≡ codes "POST"
      → is_empty r.tenant ≡ false
      → is_empty r.idempotency_key ≡ false
      → let (answer, g) =
          acquire_lock t.at_lock t.lock_time r.tenant r.idempotency_key idemp_ttl a.guard in
        handle_ingest_event decode is_json marshal t r a
        ≡ ingest_locked decode is_json marshal answer t r (record a { guard = g })
  unfolding handle_ingest_event
  keyed_post t r a post named keyed = ground (arith, text_beq_iff r.method (codes "POST"))

  -- What was accepted with a key came by POST, named its tenant, and had the lock.
  accepted_lem :
      (t : IngestTurn) (r : HttpRequest) (a a' : State) (status : ℕ) (body : List ℕ)
      → is_empty r.idempotency_key ≡ false
      → handle_ingest_event decode is_json marshal t r a ≡ (accepted status body, a')
      → (is_empty r.tenant ≡ false)
        × ((g : MemoryGuard) × (ingest_body decode is_json marshal true t r (record a { guard = g })
              ≡ (accepted status body, a')))
  unfolding handle_ingest_event ingest_locked
  accepted_lem t r a a' status body keyed h = elim (Bool-cases (r.method == codes "POST")) [
    | inr other ↦ absurd (ground arith)
    | inl post ↦ elim (Bool-cases (is_empty r.tenant)) [
      | inl unnamed ↦ absurd (ground arith)
      | inr named ↦
          let (answer, g) =
            acquire_lock t.at_lock t.lock_time r.tenant r.idempotency_key idemp_ttl a.guard in
          elim (Result-cases answer) [
            | inl (e, bad) ↦ absurd (ground arith)
            | inr (acq, good) ↦ elim (Option-cases acq.cached) [
              | inr (c, hit) ↦ absurd (ground arith)
              | inl miss ↦ elim (Bool-cases acq.acquired) [
                | inr busy ↦ absurd (ground arith)
                | inl taken ↦ (named, (g, ground arith))
              ]
            ]
          ]
    ]
  ]

  -- What the guard holds after an accepted request.
  stores_response :
      (t : IngestTurn) (r : HttpRequest) (a a' : State) (status : ℕ) (body : List ℕ)
      → ingest_body decode is_json marshal true t r a ≡ (accepted status body, a')
      → (status ≡ 202)
        × (a'.guard
            ≡ (set_response t.at_store t.store_time r.tenant r.idempotency_key 202 body idemp_ttl
                a.guard).1)
  stores_response t r a a' status body h = elim (ingest_body-Ended t r a) [
    | inl (s, text, lost, _) ↦ absurd (ground arith)
    | inr (b, won, guard) ↦ (ground arith, ground arith)
  ]

  store_live :
      (now : Time) (tenant key : Text) (body : List ℕ) (g : MemoryGuard)
      → is_empty tenant ≡ false
      → is_empty key ≡ false
      → set_response none now tenant key 202 body idemp_ttl g
        ≡ (ok tt, (set_response none now tenant key 202 body idemp_ttl g).1)
  unfolding set_response
  store_live now tenant key body g named keyed = ground arith

  -- A request that was accepted is answered once: if its response could be stored, the next POST
  -- of the tenant with the same key that comes within the 24 hours gets the same status and body as
  -- a replay, and changes neither the repository nor the guard.
  pub ingest_twice :
      (t t' : IngestTurn) (r r' : HttpRequest) (a a' : State) (status : ℕ) (body : List ℕ)
      → is_empty r.idempotency_key ≡ false
      → handle_ingest_event decode is_json marshal t r a ≡ (accepted status body, a')
      → t.at_store ≡ none
      → r'.method ≡ codes "POST"
      → r'.tenant ≡ r.tenant
      → r'.idempotency_key ≡ r.idempotency_key
      → t'.at_lock ≡ none
      → t'.lock_time < add_duration t.store_time idemp_ttl
      → handle_ingest_event decode is_json marshal t' r' a' ≡ (replayed status body, a')
  unfolding ingest_locked
  ingest_twice t t' r r' a a' status body keyed h stores post tenant key live soon =
      let (named, (g, done)) = accepted_lem t r a a' status body keyed h in
      let (ok_status, guard) = stores_response t r (record a { guard = g }) a' status body done in
      let set : set_response none t.store_time r.tenant r.idempotency_key 202 body idemp_ttl g
          ≡ (ok tt, a'.guard) =
        cc (store_live t.store_time r.tenant r.idempotency_key body g named keyed, guard, stores) in
      let hit =
        response_replayed r.tenant r.idempotency_key t.store_time t'.lock_time 202 body idemp_ttl
          idemp_ttl g a'.guard set soon in
      let replay : Acquired = record {
        acquired = false;
        cached = some (record { status_code = 202; body = body; completed_at = t.store_time });
      } in
      let again : acquire_lock t'.at_lock t'.lock_time r'.tenant r'.idempotency_key idemp_ttl
            a'.guard
          ≡ (ok replay, a'.guard) =
        cc (hit, live, tenant, key) in
      keyed_post t' r' a' post (rw tenant named) (rw key keyed)
      ∙ ap (λ p. ingest_locked decode is_json marshal p.0 t' r' (record a' { guard = p.1 })) again
      ∙ ap (λ s. (replayed s body, a')) (sym ok_status)

  -- A request that took the lock of its key and failed gives it back: if the release reached the
  -- guard, the next caller of the key gets the lock at once. The one exception is a request whose event
  -- was stored and whose response cannot be written: it leaves the guard with its lock.
  pub ingest_failed_frees :
      (t : IngestTurn) (r : HttpRequest) (a a' : State) (g : MemoryGuard) (status : ℕ)
      (text : String) (later : Time) (ttl : ℤ)
      → r.method ≡ codes "POST"
      → is_empty r.idempotency_key ≡ false
      → acquire_lock none t.lock_time r.tenant r.idempotency_key idemp_ttl a.guard ≡ (ok granted, g)
      → t.at_lock ≡ none
      → t.at_release ≡ none
      → handle_ingest_event decode is_json marshal t r a ≡ (failed status text, a')
      → ((acquire_lock none later r.tenant r.idempotency_key ttl a'.guard).0 ≡ ok granted)
        ⊎ ((a'.guard ≡ g) × IsUnwritten t r a.repo)
  unfolding ingest_locked
  ingest_failed_frees t r a a' g status text later ttl post keyed taken live frees h =
      let (fine, _) =
        granted_lem r.tenant r.idempotency_key t.lock_time idemp_ttl a.guard g taken in
      let named : is_empty r.tenant ≡ false = ground arith in
      let taken' : acquire_lock t.at_lock t.lock_time r.tenant r.idempotency_key idemp_ttl a.guard
          ≡ (ok granted, g) =
        cc (taken, live) in
      let body : ingest_body decode is_json marshal true t r (record a { guard = g })
          ≡ (failed status text, a') =
        sym (
          keyed_post t r a post named keyed
          ∙ ap (λ p. ingest_locked decode is_json marshal p.0 t r (record a { guard = p.1 }))
              taken')
        ∙ h in
      elim (ingest_body-Ended t r (record a { guard = g })) [
        | inl (s, x, _, inr (kept, unwritten)) ↦ inr (cc (kept, body), unwritten)
        | inl (s, x, _, inl guard) ↦
            let freed : a'.guard ≡ (release_lock none r.tenant r.idempotency_key g).1 =
              cc (guard, body, frees) in
            inl (
              subst (λ g. (acquire_lock none later r.tenant r.idempotency_key ttl g).0 ≡ ok granted)
                (sym freed)
                (ap (λ p. p.0)
                  (release_frees r.tenant r.idempotency_key t.lock_time later idemp_ttl ttl a.guard
                    g taken)))
        | inr (b, won, _) ↦ absurd (ground arith)
      ]
