-- ===== src/Examples/Stores.antt =====
-- The repository and the queue at concrete inputs.
use web_hook_project.Prelude.{
  ℕ, ◌+◌, ◌<◌, ◌≤◌, ◌||◌, true, List, [], ◌∷◌, none, some, ◌≡◌, ◌≢◌, refl, arith, codes, Text,
  text_eq, nat_eq, text_beq, get, put, keep, values, length, take,
}
use web_hook_project.Prelude.Errors.{ok, err, duplicate_key}
use web_hook_project.Prelude.Int.{pos}
use web_hook_project.Prelude.Sorting.{in_order}
use web_hook_project.Domain.{Event, EventStatus}
use web_hook_project.Storage.{
  MemoryRepository, new_memory_repository, create_event_with_outbox, mark_outbox_published,
  replay_dlq_events, fetch_and_lock_pending_outbox, limited, is_pending_row, is_dlq_of, replay_row,
  idempotency_key_of, reserve_key, insert_event, update_event_status, replay_all, replay_one,
}
use web_hook_project.Storage.Invariant.{IsValid, new-IsValid, create_event_with_outbox-IsValid}
use web_hook_project.Storage.Create.{create_stores, create_twice}
use web_hook_project.Storage.History.{
  Write, creates_event, updates_status, replays, written, all_written, ids_of, one_event_per_key,
}
use web_hook_project.Storage.Outbox.{fetch-pending, fetch-mark, is_other}
use web_hook_project.Storage.Replay.{replay_dlq_events_lem, restored?}
use web_hook_project.Queue.{new_memory_stream_queue, stream_of, group_of}
use web_hook_project.Queue.History.{Op, publishes, reads, acks, run, begun}
use web_hook_project.Queue.Pending.{held, among, listed}
use web_hook_project.Queue.Soundness.{run_delivers}
use web_hook_project.Examples.Data.{
  order_event, order_outbox, order_row, stored_repo, creates_stored, stored-IsValid,
}

create_event_with_outbox-IsValid_example :
    IsValid (create_event_with_outbox none 5 order_event order_outbox new_memory_repository).1
create_event_with_outbox-IsValid_example =
    create_event_with_outbox-IsValid none 5 order_event order_outbox new_memory_repository
      new-IsValid (omega arith) refl

create_stores_example :
    (get (codes "e1") new_memory_repository.events ≡ none)
    × (get (codes "e1") stored_repo.events ≡ some order_event)
    × (get 1 new_memory_repository.outbox_events ≡ none)
    × (get 1 stored_repo.outbox_events ≡ some order_row)
    × ((k : Text) → k ≢ codes "e1" → get k stored_repo.events ≡ get k new_memory_repository.events)
    × ((j : ℕ)
        → j ≢ 1
        → get j stored_repo.outbox_events ≡ get j new_memory_repository.outbox_events)
create_stores_example =
    create_stores 5 order_event order_event order_outbox order_row new_memory_repository stored_repo
      new-IsValid (omega arith) creates_stored

abbrev second_event : Event
second_event = record order_event { id = codes "e2" }

create_twice_example :
    create_event_with_outbox none 9 second_event order_outbox stored_repo
    ≡ (err duplicate_key, stored_repo)
create_twice_example =
    create_twice 5 9 order_event second_event order_event order_outbox order_outbox order_row
      new_memory_repository stored_repo creates_stored (λ e. cc) refl refl

-- The second event has the key of the first, and is refused.
abbrev writes : List Write
writes =
    creates_event none 5 order_event order_outbox
    ∷ creates_event none 6 second_event order_outbox
    ∷ updates_status none (codes "e1") EventStatus.dlq
    ∷ replays none 8 (codes "t1") (codes "e1" ∷ [])
    ∷ []

one_event_per_key_example : codes "e1" ≡ codes "e1"
unfolding all_written written ids_of create_event_with_outbox reserve_key insert_event
    update_event_status replay_dlq_events replay_all replay_one get put text_beq
one_event_per_key_example =
    one_event_per_key writes (codes "e1") (codes "e1") order_event order_event (omega arith) refl
      refl (λ e. cc) (λ e. cc) refl

fetch-pending_example :
    fetch_and_lock_pending_outbox in_order none (pos 10) stored_repo
    ≡ (ok (limited (pos 10) (keep is_pending_row (values stored_repo.outbox_events))), stored_repo)
fetch-pending_example = fetch-pending in_order (pos 10) stored_repo stored-IsValid

fetch-mark_example :
    ((mark_outbox_published none 8 1 stored_repo).0 ≡ ok tt)
    × (fetch_and_lock_pending_outbox in_order none
          (pos 10)
          (mark_outbox_published none 8 1 stored_repo).1
        ≡ (
          ok (
              limited
                (pos 10)
                (keep (is_other 1) (keep is_pending_row (values stored_repo.outbox_events)))),
          (mark_outbox_published none 8 1 stored_repo).1,
        ))
unfolding get
fetch-mark_example = fetch-mark in_order (pos 10) 8 1 order_row stored_repo stored-IsValid refl

replay_dlq_events_lem_example :
    (n : ℕ) × (m' : MemoryRepository) × (replay_dlq_events none 9
        (codes "t1")
        (codes "e1" ∷ [])
        stored_repo
      ≡ (ok n, m'))
    × (m'.next_outbox_id ≡ stored_repo.next_outbox_id + n)
    × (n ≤ 1)
    × ((k : Text)
        → get k m'.events
          ≡ restored?
              (codes "t1")
              (web_hook_project.Storage.Replay.listed k (codes "e1" ∷ []))
              (get k stored_repo.events))
    × ((k : Text) (e : Event)
        → get k stored_repo.events ≡ some e
        → is_dlq_of (codes "t1") e ≡ true
        → web_hook_project.Storage.Replay.listed k (codes "e1" ∷ []) ≡ true
        → (j : ℕ) × (get j m'.outbox_events ≡ some (replay_row 9 j e))
          × (stored_repo.next_outbox_id < j))
replay_dlq_events_lem_example =
    replay_dlq_events_lem 9 (codes "t1") (codes "e1" ∷ []) stored_repo stored-IsValid (omega arith)

abbrev order_history : List Op
order_history = publishes none 6 (some order_event) ∷ reads 7 (codes "w") 10 ∷ acks none [] ∷ []

run_delivers_example :
    ((run
        (codes "s")
        (codes "g")
        order_history
        (begun (codes "s") (codes "g") new_memory_stream_queue)).delivered
      ≡ take
          (group_of (codes "g") (
            stream_of
              (codes "s")
              (run
                (codes "s")
                (codes "g")
                order_history
                (begun (codes "s") (codes "g") new_memory_stream_queue)).queue)).next_idx
          (stream_of
            (codes "s")
            (run
              (codes "s")
              (codes "g")
              order_history
              (begun (codes "s") (codes "g") new_memory_stream_queue)).queue).messages)
    × ((group_of (codes "g") (
          stream_of
            (codes "s")
            (run
              (codes "s")
              (codes "g")
              order_history
              (begun (codes "s") (codes "g") new_memory_stream_queue)).queue)).next_idx
        ≤ length
            (stream_of
              (codes "s")
              (run
                (codes "s")
                (codes "g")
                order_history
                (begun (codes "s") (codes "g") new_memory_stream_queue)).queue).messages)
    × ((j : Text)
        → among j
            (run
              (codes "s")
              (codes "g")
              order_history
              (begun (codes "s") (codes "g") new_memory_stream_queue)).delivered
          ≡ true
        → (held j
              (group_of (codes "g") (
                stream_of
                  (codes "s")
                  (run
                    (codes "s")
                    (codes "g")
                    order_history
                    (begun (codes "s") (codes "g") new_memory_stream_queue)).queue)).pending
            || listed j
                (run
                  (codes "s")
                  (codes "g")
                  order_history
                  (begun (codes "s") (codes "g") new_memory_stream_queue)).acked)
          ≡ true)
unfolding text_beq stream_of get
run_delivers_example =
    run_delivers (codes "s") (codes "g") new_memory_stream_queue order_history refl refl refl
