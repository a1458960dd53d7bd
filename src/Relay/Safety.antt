-- ===== src/Relay/Safety.antt =====
-- The relay on every path: published marks and messages.
use web_hook_project.Prelude.{
  ℕ, suc, Bool, true, ◌||◌, List, [], ◌∷◌, ◌++◌, none, some, ◌≡◌, inl, inr, refl, subst, ap, arith,
  get, put, get-put_cases, get-put_self, get-put, Bool-cases, Text, text_eq, nat_eq, beq_refl, map,
  ◌==◌, nat_beq_iff,
}
use web_hook_project.Prelude.Errors.{Result}
use web_hook_project.Domain.{Time, Event, OutboxEvent, OutboxStatus}
use web_hook_project.Storage.{MemoryRepository}
use web_hook_project.Storage.Invariant.{IsValid}
use web_hook_project.Storage.Updates.{mark_outbox_published-IsValid}
use web_hook_project.Storage.Outbox.{mark_row, mark_cases}
use web_hook_project.Queue.{
  MemoryStreamQueue, stream_of, set_stream, with_message, message_of, message_id,
}
use web_hook_project.Queue.Pending.{listed}
use web_hook_project.Relay.{System, Turn}
use web_hook_project.Relay.Outcomes.{Outcome, stopped, skipped, sent, moved, event_ids, enqueued}

-- Published rows have a message in the stream.
abbrev pub IsRelayed : Text → System → Type 0
IsRelayed stream s =
    (j : ℕ) (ob : OutboxEvent)
    → get j s.repo.outbox_events ≡ some ob
    → ob.status ≡ OutboxStatus.published
    → listed ob.event_id (event_ids stream s.queue) ≡ true

-- Rows that are stored, perhaps with another status by now.
abbrev pub Known : MemoryRepository → OutboxEvent → Type 0
Known m ob = (x : OutboxEvent) × (get ob.id m.outbox_events ≡ some x) × (x.event_id ≡ ob.event_id)

pub listed-append :
    (j : Text) (xs ys : List Text) → listed j (xs ++ ys) ≡ (listed j xs || listed j ys)
unfolding listed
listed-append j [] ys = refl
listed-append j (x ∷ xs) ys = ground (arith, listed-append j xs ys)

pub map-append {ℓ κ} :
    {A : Type ℓ} {B : Type κ} (f : A → B) (xs ys : List A) → map f (xs ++ ys) ≡ map f xs ++ map f ys
map-append f [] ys = refl
map-append f (x ∷ xs) ys = ap (◌∷◌ (f x)) (map-append f xs ys)

pub event_ids-enqueued :
    (stream : Text) (now : Time) (e : Event) (q : MemoryStreamQueue)
    → event_ids stream (enqueued stream now e q) ≡ event_ids stream q ++ (e.id ∷ [])
unfolding event_ids stream_of set_stream
event_ids-enqueued stream now e q =
    let qm = message_of now (message_id now (suc q.seq)) e in
    rw (get-put_self stream (with_message qm (stream_of stream q)) q.streams)
      (map-append (λ m. m.event_id) (stream_of stream q).messages (qm ∷ []))

-- One row keeps the repository valid, published rows sent, and rows known.
pub record IsSafe (stream : Text) (s : System) : Type 0 where
  pub valid : IsValid s.repo
  pub relayed : IsRelayed stream s

abbrev pub with_mark : Time → ℕ → OutboxEvent → MemoryRepository → MemoryRepository
with_mark now id row m = record m { outbox_events = put id (mark_row now row) m.outbox_events }

pub with_mark-IsValid :
    (now : Time) (id : ℕ) (row : OutboxEvent) (m : MemoryRepository)
    → IsValid m
    → get id m.outbox_events ≡ some row
    → IsValid (with_mark now id row m)
with_mark-IsValid now id row m v held =
    let r = mark_outbox_published-IsValid none now id m v in
    elim (mark_cases now id m) [
      | inl (missing, _) ↦ absurd (cc)
      | inr (x, stored, marked) ↦ subst IsValid (cc (ap (λ r. r.1) marked, held, stored)) r
    ]

with_mark-Known :
    (now : Time) (id : ℕ) (row : OutboxEvent) (m : MemoryRepository) (x : OutboxEvent)
    → get id m.outbox_events ≡ some row
    → Known m x
    → Known (with_mark now id row m) x
with_mark-Known now id row m x held (y, stored, same) = elim (Bool-cases (x.id == id)) [
  | inl at ↦ (
    mark_row now row,
    ground (arith, get-put id x.id (mark_row now row) m.outbox_events),
    cc (stored, held, same, (nat_beq_iff x.id id).0 at),
  )
  | inr other ↦ (y, ground (arith, get-put id x.id (mark_row now row) m.outbox_events), same)
]

module _ (stream : Text) (t : Turn) (ob : OutboxEvent) (s : System) where
  enqueued-IsRelayed :
      (x : Event)
      → IsRelayed stream s
      → IsRelayed stream (record s { queue = enqueued stream t.publish_time x s.queue })
  enqueued-IsRelayed x h j row g p = rw (
    event_ids-enqueued stream t.publish_time x s.queue,
    listed-append row.event_id (event_ids stream s.queue) (x.id ∷ []),
    h j row g p,
  )

  listed-enqueued :
      (x : Event) → listed x.id (event_ids stream (enqueued stream t.publish_time x s.queue)) ≡ true
  unfolding listed
  listed-enqueued x = ground (
    arith,
    event_ids-enqueued stream t.publish_time x s.queue,
    listed-append x.id (event_ids stream s.queue) (x.id ∷ []),
    beq_refl x.id,
  )

  pub outcome-IsSafe :
      (r : Result Bool × System)
      → Outcome stream t ob s r
      → IsSafe stream s
      → Known s.repo ob
      → IsSafe stream r.1 × ((x : OutboxEvent) → Known s.repo x → Known r.1.repo x)
  outcome-IsSafe r (stopped e) h k = (h, λ x k. k)
  outcome-IsSafe r (skipped why) h k = (h, λ x k. k)
  outcome-IsSafe r (sent e x stored) h k =
      (record { valid = h.valid; relayed = enqueued-IsRelayed x h.relayed }, λ x k. k)
  outcome-IsSafe r (moved x row stored held) h (y, at, names) = (
    record {
      valid = with_mark-IsValid t.mark_time ob.id row s.repo h.valid held;
      relayed = λ j z g p.
          elim (get-put_cases ob.id j (mark_row t.mark_time row) z s.repo.outbox_events g) [
            | inl (_, is) ↦
                let same : z.event_id ≡ x.id =
                  cc (is, at, held, names, h.valid.named ob.event_id x stored) in
                rw same (listed-enqueued x)
            | inr (_, old) ↦ enqueued-IsRelayed x h.relayed j z old p
          ];
    },
    λ z k. with_mark-Known t.mark_time ob.id row s.repo z held k,
  )
