-- ===== src/WebhookClient/Published.antt =====
-- The client of the SDK against the server's handler: what a publication leaves behind.
use Prim.Native.String.{String}
use web_hook_project.Prelude.{
  ℕ, suc, ◌^◌, ◌<◌, Bool, true, false, ◌||◌, List, [], ◌∷◌, ◌++◌, Option, none, Text, codes, ◌==◌,
  text_eq, nat_eq, text_beq, text_beq_refl, if◌then◌else◌, leb, ◌≡◌, ◌⊎◌, inl, inr, refl, sym, ap,
  subst, arith, Bool-cases, Option-cases,
}
use web_hook_project.Prelude.Errors.{is_duplicate_key, Result, ok, Result-cases}
use web_hook_project.Domain.{is_empty, Event, EventStatus}
use web_hook_project.Storage.{create_event_with_outbox}
use web_hook_project.Storage.Invariant.{IsValid}
use web_hook_project.Api.{
  State, HttpRequest, Response, IngestTurn, IngestEventRequest, IngestEventResponse,
  handle_ingest_event, response_of, new_event, new_outbox, release_if, conclude, persist,
  ingest_body,
}
use web_hook_project.Api.Stored.{Stores, ingest-Stores}
use web_hook_project.WebhookClient.Requests.{
  Client, Sent, Reply, Answer, given, PublishResult, Payload, GivenPayload, publish_request,
  payload_of, publish, call,
}

-- The first value of a header; the client writes each name once.
abbrev pub header_value : Text → List (Text × Text) → Text
header_value name [] = []
header_value name ((k, v) ∷ rest) = if k == name then v else header_value name rest

abbrev pub received : Sent → HttpRequest
received r = record {
  method = r.method;
  tenant = header_value (codes "X-Tenant-ID") r.headers;
  idempotency_key = header_value (codes "X-Idempotency-Key") r.headers;
  body = r.body;
}

module _ (decode : Text → Option IngestEventRequest) (is_json : Text → Bool)
    (marshal : IngestEventResponse → Result (List ℕ)) (error_body : String → Text) where
  -- A handler's response on the wire; HandleIngestEvent gives no other ones than the first three.
  abbrev pub reply_of : Response → Reply
  reply_of (Response.failed status text) = record {
    status_code = status;
    body = ok (error_body text);
  }
  reply_of (Response.replayed status body) = record { status_code = status; body = ok body }
  reply_of (Response.accepted status body) = record { status_code = status; body = ok body }
  reply_of _ = record { status_code = 500; body = ok [] }

  -- The server's side of the client's request, where it gets through.
  abbrev pub ingest_server : IngestTurn → Sent → State → Result Reply × State
  ingest_server t r a =
      let (response, a') = handle_ingest_event decode is_json marshal t (received r) a in
      (ok (reply_of response), a')

  -- How a POST without a key may end.
  abbrev Plain : Response → Type 0
  Plain response =
      ((status : ℕ) × (text : String) × (response ≡ Response.failed status text)
        × (leb 300 status ≡ true))
      ⊎ ((body : List ℕ) × (response ≡ Response.accepted 202 body))

  persist-Plain :
      (t : IngestTurn) (r : HttpRequest) (req : IngestEventRequest) (a : State)
      → Plain (persist decode is_json marshal false t r req a).0
  unfolding persist release_if conclude
  persist-Plain t r req a =
      let p =
        create_event_with_outbox t.at_create t.create_time (new_event t r req) (new_outbox t)
          a.repo in
      elim (Result-cases p.0) [
        | inl (e, refused) ↦ elim (Bool-cases (is_duplicate_key e)) [
          | inl twice ↦
              inl (409, "duplicate event or idempotency key violation", ground arith, refl)
          | inr other ↦ inl (500, "failed to persist event and outbox record", ground arith, refl)
        ]
        | inr (stored, done) ↦ elim (Result-cases (response_of decode is_json marshal stored.0)) [
          | inl (x, unwritten) ↦ inl (500, "failed to marshal response", ground arith, refl)
          | inr (body, written) ↦ inr (body, ground arith)
        ]
      ]

  body-Plain :
      (t : IngestTurn) (r : HttpRequest) (a : State)
      → Plain (ingest_body decode is_json marshal false t r a).0
  unfolding ingest_body release_if
  body-Plain t r a = elim (Option-cases (decode r.body)) [
    | inl unread ↦ inl (400, "invalid JSON payload", ground arith, refl)
    | inr (req, read) ↦ elim (Bool-cases (is_empty req.event_type)) [
      | inl untyped ↦ inl (400, "event_type is required", ground arith, refl)
      | inr typed ↦ elim (Bool-cases (is_empty req.payload || req.payload == codes "null")) [
        | inl missing ↦ inl (400, "payload cannot be empty", ground arith, refl)
        | inr there ↦ elim (Bool-cases (is_json req.payload)) [
          | inr bad ↦ inl (400, "payload must be valid JSON", ground arith, refl)
          | inl good ↦
              let same : ingest_body decode is_json marshal false t r a
                  ≡ persist decode is_json marshal false t r req a =
                ground arith in
              subst (λ (p : Response × State). Plain p.0) (sym same) (persist-Plain t r req a)
        ]
      ]
    ]
  ]

  handle-Plain :
      (t : IngestTurn) (r : HttpRequest) (a : State)
      → r.idempotency_key ≡ []
      → Plain (handle_ingest_event decode is_json marshal t r a).0
  unfolding handle_ingest_event
  handle-Plain t r a keyless = elim (Bool-cases (r.method == codes "POST")) [
    | inr other ↦ inl (405, "method not allowed", ground arith, refl)
    | inl post ↦ elim (Bool-cases (is_empty r.tenant)) [
      | inl nobody ↦ inl (400, "X-Tenant-ID header is required", ground arith, refl)
      | inr somebody ↦
          let plain : is_empty r.idempotency_key ≡ true = rw keyless (text_beq_refl []) in
          let same : handle_ingest_event decode is_json marshal t r a
              ≡ ingest_body decode is_json marshal false t r a =
            ground arith in
          subst (λ (p : Response × State). Plain p.0) (sym same) (body-Plain t r a)
    ]
  ]

  module _ (marshal_publish : Text → Payload → Result Text)
      (unmarshal_result : Text → Result PublishResult) (error_of : Text → Option Text)
      (status_text : EventStatus → Text)
      (reads_back : (e : Event) (body : Text)
        → response_of decode is_json marshal e ≡ ok body
        → unmarshal_result body
          ≡ ok (record {
            id = e.id;
            status = status_text e.status;
            created_at = e.created_at;
          })) where
    abbrev pub published :
        IngestTurn → Client → Text → GivenPayload → State → Answer PublishResult × State
    published t c event_type payload a =
        publish (ingest_server t) (λ r. none) error_of is_json marshal_publish unmarshal_result c
          event_type payload [] a

    -- What a publication that gave a result left behind.
    abbrev pub Stored : Client → PublishResult → State → State → Type 0
    Stored c r a a' =
        (req : HttpRequest) × (e : Event) × (req.tenant ≡ c.tenant_id)
        × (r.id ≡ e.id)
        × (r.created_at ≡ e.created_at)
        × (r.status ≡ status_text e.status)
        × Stores req e a.repo a'.repo

    publish_calls :
        (t : IngestTurn) (c : Client) (event_type : Text) (payload : GivenPayload) (a a' : State)
        (r : PublishResult)
        → published t c event_type payload a ≡ (given r, a')
        → (body : Text) × (call
              (ingest_server t)
              (λ r. none)
              error_of
              "failed to decode publish response"
              unmarshal_result
              (publish_request c [] body)
              a
            ≡ (given r, a'))
    unfolding publish
    publish_calls t c event_type payload a a' r h = elim (Bool-cases (is_empty event_type)) [
      | inl untyped ↦ absurd (ground arith)
      | inr typed ↦ elim (Result-cases (marshal_publish event_type (payload_of is_json payload))) [
        | inl (e, unwritten) ↦ absurd (ground arith)
        | inr (body, written) ↦ (body, ground arith)
      ]
    ]

    without_key :
        (b : Bool) (value : Text)
        → header_value
            (codes "X-Idempotency-Key")
            ((if b then [] else (codes "Authorization", value) ∷ []) ++ [])
          ≡ []
    unfolding text_beq
    without_key true value = refl
    without_key false value = refl

    headers_keyless :
        (c : Client) (body : Text) → (received (publish_request c [] body)).idempotency_key ≡ []
    unfolding text_beq
    headers_keyless c body = without_key (is_empty c.api_key) (codes "Bearer " ++ c.api_key)

    headers_tenant :
        (c : Client) (body : Text) → (received (publish_request c [] body)).tenant ≡ c.tenant_id
    unfolding text_beq
    headers_tenant c body = refl

    call_accepted :
        (t : IngestTurn) (rq : Sent) (a a' : State) (r : PublishResult)
        → (received rq).idempotency_key ≡ []
        → call
            (ingest_server t)
            (λ r. none)
            error_of
            "failed to decode publish response"
            unmarshal_result
            rq
            a
          ≡ (given r, a')
        → (told : List ℕ) × (handle_ingest_event decode is_json marshal t (received rq) a
            ≡ (Response.accepted 202 told, a'))
          × (unmarshal_result told ≡ ok r)
    unfolding call
    call_accepted t rq a a' r keyless h = elim (handle-Plain t (received rq) a keyless) [
      | inl (status, text, refused, bad) ↦ absurd (ground arith)
      | inr (told, taken) ↦ elim (Result-cases (unmarshal_result told)) [
        | inl (e, unread) ↦ absurd (ground arith)
        | inr (r', read) ↦ (told, ground arith, ground arith)
      ]
    ]

    -- A publication without a key that gave a result has stored its event, of the client's tenant: from
    -- a valid repository whose counter of ids is not at its end, the result tells the id, the status and
    -- the time of a new event, which is stored with a new outbox row that names it, both pending.
    pub publish_stores :
        (t : IngestTurn) (c : Client) (event_type : Text) (payload : GivenPayload) (a a' : State)
        (r : PublishResult)
        → IsValid a.repo
        → suc a.repo.next_outbox_id < 2 ^ 63
        → published t c event_type payload a ≡ (given r, a')
        → Stored c r a a'
    publish_stores t c event_type payload a a' r valid room h =
        let (body, called) = publish_calls t c event_type payload a a' r h in
        let rq = publish_request c [] body in
        let (told, taken, read) = call_accepted t rq a a' r (headers_keyless c body) called in
        let (e, answer, stores) =
          ingest-Stores decode is_json marshal t (received rq) a a' 202 told valid room taken in
        let same : r
            ≡ record { id = e.id; status = status_text e.status; created_at = e.created_at } =
          cc (reads_back e told answer, read) in
        (
          received rq,
          e,
          headers_tenant c body,
          ap (λ x. x.id) same,
          ap (λ x. x.created_at) same,
          ap (λ x. x.status) same,
          stores,
        )
