-- ===== src/Relay.antt =====
-- internal/outbox/relay.go: the relay that moves pending outbox rows to the stream queue, wired with
-- the in-memory repository and queue as NewTestRelay does it.
pub mod Outcomes
pub mod Safety
pub mod Batch
pub mod Progress
pub mod Polling
use web_hook_project.Prelude.{
  ℕ, zero, suc, ◌+◌, ◌*◌, ◌^◌, min, Bool, true, false, List, [], ◌∷◌, Option, none, some, Text,
  codes, if◌then◌else◌, ltb,
}
use web_hook_project.Prelude.Errors.{
  Error, is_not_found, Result, ok, err, Context, Exec, check, wrapped, wrap, ◌>>=◌, ◌>>◌,
}
use web_hook_project.Prelude.Int.{ℤ, pos, is_positive, pos_part}
use web_hook_project.Prelude.Sorting.{Ranging}
use web_hook_project.Domain.{Time, Event, OutboxEvent, is_empty}
use web_hook_project.Storage.{
  MemoryRepository, new_memory_repository, fetch_and_lock_pending_outbox, get_event,
  mark_outbox_published,
}
use web_hook_project.Queue.{MemoryStreamQueue, new_memory_stream_queue, publish_event}

-- The two stores that the packages share.
pub record System : Type 0 where
  pub repo : MemoryRepository
  pub queue : MemoryStreamQueue

abbrev pub on_repo {ℓ} : {A : Type ℓ} → Exec MemoryRepository A → Exec System A
on_repo m s = let (r, repo') = m s.repo in (r, record s { repo = repo' })

abbrev pub on_queue {ℓ} : {A : Type ℓ} → Exec MemoryStreamQueue A → Exec System A
on_queue m s = let (r, queue') = m s.queue in (r, record s { queue = queue' })

abbrev pub default_stream_name : Text
default_stream_name = codes "stream:events:pending"

-- NewRelay: the stream's name is the argument unless it is empty.
abbrev pub stream_name : Option Text → Text
stream_name none = default_stream_name
stream_name (some s) = if is_empty s then default_stream_name else s

-- What the calls for one row find: the context's error at each of them, and the time.
pub record Turn : Type 0 where
  pub at_loop : Context
  pub at_get : Context
  pub at_publish : Context
  pub at_mark : Context
  pub publish_time : Time
  pub mark_time : Time

-- The body of the loop over the rows; `true` where processedCount goes up, `false` at `continue`.
unfoldable pub process_row : Text → Turn → OutboxEvent → Exec System Bool
process_row stream t ob s =
    (do
      check t.at_loop
      (λ s.
          let (found, s) = on_repo (get_event t.at_get ob.event_id) s in
          elim found [
            | err e ↦
                if is_not_found e then (ok false, s) else (err (wrap "failed to get event" e), s)
            | ok evt ↦
                let (sent, s) =
                  on_queue (publish_event t.at_publish t.publish_time stream (some evt)) s in
                elim sent [
                  | err e ↦ (err (wrap "failed to publish event to queue" e), s)
                  | ok id ↦
                      let (marked, s) =
                        on_repo (mark_outbox_published t.at_mark t.mark_time ob.id) s in
                      elim marked [
                        | err e ↦ (err (wrap "failed to mark outbox as published" e), s)
                        | ok u ↦ (ok true, s)
                      ]
                ]
          ]))
      s

-- The count and the error come back together.
abbrev pub Counted : Type 0
Counted = ℕ × Option Error

-- The loop; `turn` is what it finds at each row.
unfoldable pub process_rows :
    Text → (OutboxEvent → Turn) → List OutboxEvent → ℕ → System → Counted × System
process_rows stream turn [] n s = ((n, none), s)
process_rows stream turn (ob ∷ obs) n s =
    let (r, s') = process_row stream (turn ob) ob s in
    elim r [
      | err e ↦ ((n, some e), s')
      | ok true ↦ process_rows stream turn obs (suc n) s'
      | ok false ↦ process_rows stream turn obs n s'
    ]

-- What one batch finds.
pub record Moment : Type 0 where
  pub at_start : Context
  pub at_fetch : Context
  pub visits : Ranging OutboxEvent
  pub turn : OutboxEvent → Turn

-- `if batchSize <= 0 { batchSize = 100 }`
unfoldable pub batch_or_hundred : ℤ → ℕ
batch_or_hundred size = if is_positive size then pos_part size else 100

-- What a batch does with the fetched rows.
abbrev pub work :
    Text → (OutboxEvent → Turn) → Result (List OutboxEvent) × System → Counted × System
work stream turn (err e, s) = ((0, some (wrap "failed to fetch pending outbox events" e)), s)
work stream turn (ok [], s) = ((0, none), s)
work stream turn (ok (ob ∷ obs), s) = process_rows stream turn (ob ∷ obs) 0 s

unfoldable pub process_next_batch : Text → Moment → ℤ → System → Counted × System
process_next_batch stream t size s = elim t.at_start [
  | some e ↦ ((0, some e), s)
  | none ↦
      work stream t.turn (
        on_repo (fetch_and_lock_pending_outbox t.visits t.at_fetch (pos (batch_or_hundred size))) s)
]

abbrev pub milliseconds : ℕ → ℕ
milliseconds n = n * 1_000_000

-- The wait of Start after `n` failed batches in a row, and the poll interval after a good one.
unfoldable pub wait_time : ℤ → ℕ → ℕ
wait_time poll zero = if is_positive poll then pos_part poll else milliseconds 100
wait_time poll (suc n) = min (2 ^ min (suc n) 6 * milliseconds 50) (milliseconds 3000)

-- Where Start stands: at the top of the outer loop, at the top of the inner loop, or returned.
pub data Phase : Type 0 where
  polling draining : Phase
  returned : Error → Phase

pub record Polls : Type 0 where
  pub phase : Phase
  pub consecutive_errors : ℕ
  pub system : System

-- What one step finds: the context at the top and during the wait of the outer loop; or the batch
-- and the context behind it in the inner loop.
pub record Tick : Type 0 where
  pub at_top : Context
  pub at_wait : Context
  pub moment : Moment
  pub after_batch : Context

-- One pass of the outer loop up to the inner one, or one pass of the inner loop.
unfoldable pub start_step : Text → ℤ → Tick → Polls → Polls
start_step stream size t p = elim p.phase [
  | returned e ↦ p
  | polling ↦ elim t.at_top [
    | some e ↦ record p { phase = returned e }
    | none ↦ elim t.at_wait [
      | some e ↦ record p { phase = returned e }
      | none ↦ record p { phase = draining }
    ]
  ]
  | draining ↦
      let (done, s) = process_next_batch stream t.moment (pos (batch_or_hundred size)) p.system in
      elim done.1 [
        | some e ↦ record {
          phase = polling;
          consecutive_errors = suc p.consecutive_errors;
          system = s;
        }
        | none ↦
            let stay : Polls = record { phase = draining; consecutive_errors = 0; system = s } in
            if ltb done.0 (batch_or_hundred size)
            then record stay { phase = polling }
            else elim t.after_batch [ some e ↦ record stay { phase = returned e } | none ↦ stay ]
      ]
]

unfoldable pub start_run : Text → ℤ → List Tick → Polls → Polls
start_run stream size [] p = p
start_run stream size (t ∷ ts) p = start_run stream size ts (start_step stream size t p)
