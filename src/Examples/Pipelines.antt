-- ===== src/Examples/Pipelines.antt =====
-- An event on its way from the outbox to the receiver, and a pool's life, at concrete inputs.
use web_hook_project.Prelude.{
  ℕ, suc, ◌+◌, ◌-◌, ◌≤◌, ◌<◌, Bool, true, false, [], ◌∷◌, ◌++◌, Option, none, some, ◌≡◌, ◌≢◌, ◌⊎◌,
  refl, arith, codes, Text, text_eq, text_beq, nat_eq, ◌==◌, if◌then◌else◌, get, keep, length,
}
use web_hook_project.Prelude.Errors.{canceled}
use web_hook_project.Prelude.Int.{pos}
use web_hook_project.Prelude.Sorting.{in_order}
use web_hook_project.Storage.{MemoryRepository}
use web_hook_project.Storage.Invariant.{IsValid}
use web_hook_project.Queue.{MemoryStreamQueue, new_memory_stream_queue, stream_of, group_of}
use web_hook_project.Relay.{System, process_row}
use web_hook_project.Worker.{AttemptTurn, MessageTurn}
use web_hook_project.Worker.Settle.{IsLiveAttempt, IsFresh}
use web_hook_project.Worker.Loops.{WorkerTurn, worker_pass}
use web_hook_project.Worker.Pipeline.{IsLiveMessage, PassSettles, relayed_event_settles}
use web_hook_project.Worker.Lifecycle.{
  signals, returns_if_done, new_pool, start, signal, returned, shutdown_result, timed_out,
  all_moved, signal-drains, signal-too_early,
}
use web_hook_project.Examples.Data.{
  order_event, order_row, shop, stored_repo, stored-IsValid, live_turn,
}
use web_hook_project.Examples.Deliveries.{one_digit, no_text, busy, fine, exchange, config}

-- The receiver fails once; attempt `k` has the UUID of the one character `k`.
abbrev second_try : ℕ → AttemptTurn
second_try k = record {
  at_loop = none;
  exchange = record (exchange (if k == 1 then busy else fine)) { uuid = k ∷ [] };
  at_wait = none;
}

second_try-IsLive : (k : ℕ) → IsLiveAttempt (second_try k)
second_try-IsLive k = record {
  loops = refl;
  waits = refl;
  made = refl;
  records = refl;
  updates = refl;
}

abbrev attended_repo : MemoryRepository
attended_repo = record stored_repo { endpoints = (codes "p1", shop) ∷ [] }

second_try-IsFresh : IsFresh second_try 1 attended_repo
unfolding get
second_try-IsFresh = record {
  unused = λ k h. refl;
  distinct = λ j k h e. (let same : j ≡ k = cc e in absurd (omega arith));
}

attended-IsValid : IsValid attended_repo
attended-IsValid = record {
  rising = stored-IsValid.rising;
  bounded = stored-IsValid.bounded;
  named = stored-IsValid.named;
  backed = stored-IsValid.backed;
  queued = stored-IsValid.queued;
  indexed = stored-IsValid.indexed;
}

-- The group has read the stream, which has no message yet.
abbrev idle_queue : MemoryStreamQueue
idle_queue = record {
  streams =
      (
        codes "s",
        record {
          messages = [];
          groups = (codes "g", record { next_idx = 0; pending = [] }) ∷ [];
          notify_ch = 0;
        },
      )
      ∷ [];
  seq = 0;
}

abbrev idle_system : System
idle_system = record { repo = attended_repo; queue = idle_queue }

abbrev live_message_turn : MessageTurn
live_message_turn = record {
  at_guard = none;
  at_endpoints = none;
  at_event = none;
  visits = in_order;
  at_endpoint = λ ep. none;
  attempts = λ ep. second_try;
}

abbrev live_worker_turn : WorkerTurn
live_worker_turn = record {
  at_top = none;
  at_read = none;
  read_time = 8;
  waits = [];
  after_read = none;
  at_pause = none;
  turns = λ msg. (none, live_message_turn, none);
}

live_message_turn-IsLive : IsLiveMessage live_message_turn shop
live_message_turn-IsLive = record {
  guards = refl;
  looks = refl;
  reads = refl;
  visits = refl;
  tries = second_try-IsLive;
}

relayed_event_settles_example : PassSettles one_digit no_text (pos 3) (codes "e1") (
    worker_pass one_digit no_text
      (pos 3)
      config
      (codes "worker-0")
      live_worker_turn
      (process_row (codes "s") live_turn order_row idle_system).1)
unfolding get text_beq web_hook_project.Prelude.keep stream_of group_of
relayed_event_settles_example =
    relayed_event_settles one_digit no_text (pos 3) config (codes "worker-0") live_turn
      live_worker_turn live_message_turn none order_row order_row order_event shop idle_system refl
      refl attended-IsValid refl refl refl refl refl
      (record { loops = refl; gets = refl; publishes = refl; marks = refl }) refl refl (λ msg. refl)
      live_message_turn-IsLive refl
      (record { unused = second_try-IsFresh.unused; distinct = second_try-IsFresh.distinct })

-- The context of Shutdown has ended when both goroutines are back, and the select takes that.
signal-drains_example :
    shutdown_result false
      (some canceled)
      (returned 2 (signal (start config none (new_pool new_memory_stream_queue)).1).1)
    ≡ timed_out (some canceled)
signal-drains_example =
    signal-drains config new_memory_stream_queue false (some canceled) 2 0 (omega arith)

signal-too_early_example :
    let p =
      all_moved
        (signals ∷ returns_if_done ∷ [])
        (start config none (signal (new_pool new_memory_stream_queue)).1).1 in
    (p.goroutines ≡ 2) × (p.context ≡ some false)
signal-too_early_example =
    signal-too_early config new_memory_stream_queue (signals ∷ returns_if_done ∷ [])
