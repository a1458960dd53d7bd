-- ===== src/Relay/Outcomes.antt =====
-- What the relay's calls for one row may come to.
use web_hook_project.Prelude.{
  ℕ, suc, Bool, true, false, List, none, some, ◌≡◌, ◌⊎◌, inl, inr, refl, sym, subst, arith, get,
  put, Bool-cases, Text, text_eq, nat_eq, Option-cases, map,
}
use web_hook_project.Prelude.Errors.{Error, not_found, is_not_found, Result, ok, err, Context, wrap}
use web_hook_project.Domain.{Time, Event, OutboxEvent, is_empty}
use web_hook_project.Storage.{MemoryRepository, get_event, mark_outbox_published}
use web_hook_project.Storage.Outbox.{mark_row}
use web_hook_project.Queue.{
  MemoryStreamQueue, publish_event, stream_of, set_stream, with_message, message_of, message_id,
}
use web_hook_project.Relay.{System, Turn, process_row}

-- The ids of the events of a stream's messages, in order.
unfoldable pub event_ids : Text → MemoryStreamQueue → List Text
event_ids stream q = map (λ m. m.event_id) (stream_of stream q).messages

abbrev pub enqueued : Text → Time → Event → MemoryStreamQueue → MemoryStreamQueue
enqueued stream now e q =
    set_stream stream
      (with_message (message_of now (message_id now (suc q.seq)) e) (stream_of stream q))
      (record q { seq = suc q.seq })

pub publish_cases :
    (ctx : Context) (now : Time) (stream : Text) (e : Event) (q : MemoryStreamQueue)
    → ((x : Error) × (publish_event ctx now stream (some e) q ≡ (err x, q)))
      ⊎ ((id : Text) × (publish_event ctx now stream (some e) q ≡ (ok id, enqueued stream now e q)))
unfolding publish_event
publish_cases (some x) now stream e q = elim (Bool-cases (is_empty stream)) [
  | inl unnamed ↦ inl (Error.empty_stream, rw unnamed)
  | inr full ↦ inl (x, rw full)
]
publish_cases none now stream e q = elim (Bool-cases (is_empty stream)) [
  | inl unnamed ↦ inl (Error.empty_stream, rw unnamed)
  | inr full ↦ inr (message_id now (suc q.seq), rw full)
]

-- What the calls for one row come to.
pub data Outcome (stream : Text) (t : Turn) (ob : OutboxEvent) (s : System)
    : Result Bool × System → Type 0 where
  stopped : (e : Error) → Outcome stream t ob s (err e, s)
  skipped :
      (get ob.event_id s.repo.events ≡ none) ⊎ ((e : Error) × (t.at_get ≡ some e))
      → Outcome stream t ob s (ok false, s)
  sent :
      (e : Error) (x : Event)
      → get ob.event_id s.repo.events ≡ some x
      → Outcome stream t ob s (err e, record s { queue = enqueued stream t.publish_time x s.queue })
  moved :
      (x : Event) (row : OutboxEvent)
      → get ob.event_id s.repo.events ≡ some x
      → get ob.id s.repo.outbox_events ≡ some row
      → Outcome stream t ob s (
        ok true,
        record {
          repo = record s.repo {
            outbox_events = put ob.id (mark_row t.mark_time row) s.repo.outbox_events;
          };
          queue = enqueued stream t.publish_time x s.queue;
        },
      )

pub get_cases :
    (ctx : Context) (id : Text) (m : MemoryRepository)
    → ((e : Error) × (ctx ≡ some e) × (get_event ctx id m ≡ (err e, m)))
      ⊎ (((ctx ≡ none) × (get id m.events ≡ none) × (get_event ctx id m ≡ (err not_found, m)))
          ⊎ ((x : Event) × (ctx ≡ none)
              × (get id m.events ≡ some x)
              × (get_event ctx id m ≡ (ok x, m))))
unfolding get_event
get_cases (some e) id m = inl (e, refl, refl)
get_cases none id m = elim (Option-cases (get id m.events)) [
  | inl missing ↦ inr (inl (refl, missing, rw missing))
  | inr (x, stored) ↦ inr (inr (x, refl, stored, rw stored))
]

marks_cases :
    (ctx : Context) (now : Time) (id : ℕ) (m : MemoryRepository)
    → ((e : Error) × (mark_outbox_published ctx now id m ≡ (err e, m)))
      ⊎ ((row : OutboxEvent) × (get id m.outbox_events ≡ some row)
          × (mark_outbox_published ctx now id m
              ≡ (ok tt, record m { outbox_events = put id (mark_row now row) m.outbox_events })))
unfolding mark_outbox_published
marks_cases (some e) now id m = inl (e, refl)
marks_cases none now id m = elim (Option-cases (get id m.outbox_events)) [
  | inl missing ↦ inl (not_found, rw missing)
  | inr (ob, stored) ↦ inr (ob, stored, rw stored)
]

module _ (stream : Text) (t : Turn) (ob : OutboxEvent) (s : System) where
  abbrev Outcome-by :
      (r : Result Bool × System)
      → process_row stream t ob s ≡ r
      → Outcome stream t ob s r
      → Outcome stream t ob s (process_row stream t ob s)
  Outcome-by r e o = subst (Outcome stream t ob s) (sym e) o

  -- Every run of the body is one of the outcomes.
  pub process_row-Outcome : Outcome stream t ob s (process_row stream t ob s)
  unfolding process_row is_not_found
  process_row-Outcome = elim (Option-cases t.at_loop) [
    | inr (e, ended) ↦ Outcome-by (err e, s) (ground arith) (stopped e)
    | inl live ↦ elim (get_cases t.at_get ob.event_id s.repo) [
      | inl (e, ended, got) ↦ elim (Bool-cases (is_not_found e)) [
        | inl gone ↦ Outcome-by (ok false, s) (ground arith) (skipped (inr (e, ended)))
        | inr other ↦
            Outcome-by (err (wrap "failed to get event" e), s) (ground arith)
              (stopped (wrap "failed to get event" e))
      ]
      | inr (inl (_, missing, got)) ↦
          Outcome-by (ok false, s) (ground arith) (skipped (inl missing))
      | inr (inr (x, _, stored, got)) ↦
          elim (publish_cases t.at_publish t.publish_time stream x s.queue) [
            | inl (e, refused) ↦
                Outcome-by (err (wrap "failed to publish event to queue" e), s) (ground arith)
                  (stopped (wrap "failed to publish event to queue" e))
            | inr (id, published) ↦ elim (marks_cases t.at_mark t.mark_time ob.id s.repo) [
              | inl (e, refused) ↦
                  Outcome-by
                    (
                      err (wrap "failed to mark outbox as published" e),
                      record s { queue = enqueued stream t.publish_time x s.queue },
                    )
                    (ground arith) (sent (wrap "failed to mark outbox as published" e) x stored)
              | inr (row, held, marked) ↦
                  Outcome-by
                    (
                      ok true,
                      record {
                        repo = record s.repo {
                          outbox_events = put ob.id (mark_row t.mark_time row) s.repo.outbox_events;
                        };
                        queue = enqueued stream t.publish_time x s.queue;
                      },
                    )
                    (ground arith) (moved x row stored held)
            ]
          ]
    ]
  ]
