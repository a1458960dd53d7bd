-- ===== src/Examples/Relays.antt =====
-- The relay at concrete inputs.
use web_hook_project.Prelude.{
  [], ◌∷◌, ◌++◌, none, ◌≡◌, refl, arith, codes, text_eq, nat_eq, text_beq, keep, values, length,
  take, drop, map,
}
use web_hook_project.Prelude.Int.{pos}
use web_hook_project.Storage.{is_pending_row}
use web_hook_project.Relay.{
  Polls, draining, polling, Tick, process_next_batch, start_run, batch_or_hundred,
}
use web_hook_project.Relay.Outcomes.{event_ids}
use web_hook_project.Relay.Safety.{IsSafe}
use web_hook_project.Relay.Batch.{process_next_batch-IsSafe}
use web_hook_project.Relay.Progress.{process_next_batch_lem}
use web_hook_project.Relay.Polling.{start_drains, IsLiveTick}
use web_hook_project.Examples.Data.{
  stored_repo, stored_system, stored-IsValid, stored-IsSafe, live_moment, live_moment-IsLive,
}

process_next_batch-IsSafe_example :
    IsSafe (codes "s") (process_next_batch (codes "s") live_moment (pos 10) stored_system).1
process_next_batch-IsSafe_example =
    process_next_batch-IsSafe (codes "s") live_moment (pos 10) stored_system stored-IsSafe

process_next_batch_lem_example :
    ((process_next_batch (codes "s") live_moment (pos 10) stored_system).0 ≡ (
      length (
          take
            (batch_or_hundred (pos 10))
            (keep is_pending_row (values stored_repo.outbox_events))),
      none,
    ))
    × (keep is_pending_row (
          values
            (process_next_batch
              (codes "s")
              live_moment
              (pos 10)
              stored_system).1.repo.outbox_events)
        ≡ drop (batch_or_hundred (pos 10)) (keep is_pending_row (values stored_repo.outbox_events)))
    × (event_ids
          (codes "s")
          (process_next_batch (codes "s") live_moment (pos 10) stored_system).1.queue
        ≡ event_ids (codes "s") stored_system.queue
          ++ map
              (λ ob. ob.event_id)
              (take
                (batch_or_hundred (pos 10))
                (keep is_pending_row (values stored_repo.outbox_events))))
    × ((process_next_batch (codes "s") live_moment (pos 10) stored_system).1.repo.events
        ≡ stored_repo.events)
unfolding text_beq
process_next_batch_lem_example =
    process_next_batch_lem (codes "s") live_moment (pos 10) stored_system refl live_moment-IsLive
      stored-IsValid

abbrev tick : Tick
tick = record { at_top = none; at_wait = none; moment = live_moment; after_batch = none }

abbrev tick-IsLiveTick : IsLiveTick tick
tick-IsLiveTick = record { moment = live_moment-IsLive; goes_on = refl }

abbrev draining_polls : Polls
draining_polls = record { phase = draining; consecutive_errors = 2; system = stored_system }

start_drains_example :
    IsSafe (codes "s") (start_run (codes "s") (pos 1) (tick ∷ tick ∷ []) draining_polls).system
    × ((start_run (codes "s") (pos 1) (tick ∷ tick ∷ []) draining_polls).phase ≡ polling)
    × ((start_run (codes "s") (pos 1) (tick ∷ tick ∷ []) draining_polls).consecutive_errors ≡ 0)
    × (length (
          keep is_pending_row (
            values
              (start_run
                (codes "s")
                (pos 1)
                (tick ∷ tick ∷ [])
                draining_polls).system.repo.outbox_events))
        ≡ 0)
unfolding text_beq keep batch_or_hundred
start_drains_example =
    start_drains (codes "s") (pos 1) 1 0 (tick ∷ tick ∷ []) stored_system 2 refl
      (tick-IsLiveTick, (tick-IsLiveTick, tt)) stored-IsSafe (omega arith) (omega arith) refl
